-- ===== src/Messaging.antt =====
-- The messages of ragcore, from the outbox's rows to a consumer: ragcore/src/ragcore/messaging.
pub mod Retry
pub mod DeadLetters
pub mod Bodies
pub mod Outbox
