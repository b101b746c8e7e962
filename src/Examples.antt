-- ===== src/Examples.antt =====
-- Examples of the theorems, on a database whose tables are lists.
pub mod Database
pub mod Stored
pub mod UseCases
pub mod Refund
pub mod Domain
pub mod Worker
pub mod Requests
pub mod Ledger
pub mod History
pub mod Operations
