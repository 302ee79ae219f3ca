-- ===== src/Messaging.antt =====
-- src/messaging: the outbox and its publisher, the inbox and the handler of commands from the queue,
-- and the coordinator of their shutdown.
pub mod Shutdown
pub mod Outbox
pub mod SendErrors
pub mod Jobs
pub mod Publisher
pub mod Inbox
pub mod Requests
pub mod CommandHandler
pub mod CommandConsumer
