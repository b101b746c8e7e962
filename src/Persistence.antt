-- ===== src/Persistence.antt =====
-- What the program uses of the database layer, and the calls that its use cases share.
pub mod Table
pub mod Ordering
pub mod World
pub mod Effect
pub mod Balanced
pub mod Schema
