-- ===== src/Messaging.antt =====
-- src/messaging
pub mod Outbox
pub mod Inbox
pub mod Rows
pub mod Repository
pub mod Sqs
pub mod Publish
