-- ===== src/Wallets.antt =====
-- src/wallets: the wallet, its ledger, and their use cases.
pub mod LedgerEntry
pub mod Wallet
pub mod Events
pub mod Rows
pub mod Repository
pub mod Open
pub mod Reconcile
pub mod Http
pub mod Ledger
