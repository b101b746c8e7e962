-- ===== src/Wagering.antt =====
-- src/wagering
pub mod Transaction
pub mod Events
pub mod Json
pub mod PayloadHash
pub mod Row
pub mod Resolution
pub mod Finalizer
pub mod Submit
pub mod Parse
pub mod Consume
pub mod Reprocess
pub mod Repository
pub mod Backoff
pub mod Http
