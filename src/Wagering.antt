-- ===== src/Wagering.antt =====
-- src/wagering: the commands, the statements on the wager table, and the processing of a command.
pub mod Types
pub mod Repository
pub mod Failures
pub mod Payload
pub mod Effects
pub mod References
pub mod ProcessWager
pub mod Keeps
pub mod Atomic
pub mod Replay
pub mod LeavesInbox
pub mod Submission
pub mod Controller
pub mod Dispatch
pub mod PendingReferenceWorker
pub mod Batch
pub mod Books
