-- ===== src/Kernel.antt =====
-- src/shared/kernel: errors, money, the envelope of integration events.
pub mod Errors
pub mod Money
pub mod Event
