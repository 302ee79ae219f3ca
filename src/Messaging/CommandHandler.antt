-- ===== src/Messaging/CommandHandler.antt =====
-- src/messaging/command-message-handler.ts: `class CommandMessageHandler`. Metrics and log lines are
-- left out, and so is the hook that crashes a test process after the commit.
pub mod Handled
pub mod Deliveries
mod Keeps
pub mod Books
pub mod Recorded
use jungle_backend_challenge.Prelude.{true, false, String, ◌==◌, Option, none, some, if◌then◌else◌}
use jungle_backend_challenge.Prelude.Results.{ok, err}
use jungle_backend_challenge.Domain.Errors.{Outcome, Thrown, failure}
use jungle_backend_challenge.Domain.CanonicalJson.{str, payload_hash}
use jungle_backend_challenge.Database.Tx.{Env, Tx, ◌>>=◌, ◌>>◌, pure, throw, attempt, transactional}
use jungle_backend_challenge.Wagering.Types.{SubmitInput, SubmitResult}
use jungle_backend_challenge.Wagering.Payload.{wager_payload_hash}
use jungle_backend_challenge.Wagering.ProcessWager.{execute}
use jungle_backend_challenge.Messaging.Inbox.{InboxClaim, consumer_name, upsert, mark_processed}
use jungle_backend_challenge.Messaging.Requests.{SqsMessage, Command, or, read_command}
use jungle_backend_challenge.Wagering.Submission.{Formats}

pub data HandleAction : Type 0 where
  ack redeliver : HandleAction

-- `LeaveUnacknowledgedError`
abbrev pub leave_unacknowledged : Thrown
leave_unacknowledged = failure "message processing did not commit"

module _ {D : Type 0} (env : Env D) where
  -- The second `try`, and its `catch`, which always aborts the transaction.
  unfoldable pub process_claimed : Command → Tx HandleAction
  unfolding mark_processed
  process_claimed command =
      attempt
        (do
          processed ← execute env command.input
          mark_processed consumer_name command.message_id
          pure ack)
        (λ _. throw leave_unacknowledged)

  unfoldable pub after_claim : Command → InboxClaim → Tx HandleAction
  unfolding process_claimed
  after_claim command claim =
      if claim.body_hash == command.body_hash
      then (if claim.processed then pure ack else process_claimed command)
      else pure redeliver

  -- The shared transaction. `execute` runs under a savepoint of it, which undoes what `execute`
  -- wrote and nothing else.
  unfoldable pub deliver : Command → Tx HandleAction
  unfolding after_claim upsert
  deliver command = do
    claim ← upsert consumer_name command.message_id command.body_hash (some command.message_id)
    after_claim command claim

  -- The outer `catch` answers `redeliver` on every path.
  unfoldable pub handle : Command → Tx HandleAction
  unfolding deliver
  handle command = attempt (transactional (deliver command)) (λ _. pure redeliver)

  unfoldable pub permanent : String → String → Option String → Tx HandleAction
  unfolding upsert
  permanent message_id body_hash correlation_id = do
    claim ← transactional (upsert consumer_name message_id body_hash correlation_id)
    pure redeliver

  -- `process` once the message is read, or is not.
  unfoldable pub process_read : SqsMessage → Outcome Command → Tx HandleAction
  unfolding handle permanent
  process_read message (err e) =
      permanent (or "unknown" message.message_id)
        (payload_hash env.sha256 (str (or "" message.body))) none
  process_read message (ok command) = handle command

  unfoldable pub process : Formats → SqsMessage → Tx HandleAction
  unfolding read_command process_read
  process fmt message = process_read message (read_command env.dec env.sha256 fmt message)
