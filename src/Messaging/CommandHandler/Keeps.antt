-- ===== src/Messaging/CommandHandler/Keeps.antt =====
-- What the work of src/messaging/command-message-handler.ts keeps of the tables, if the statements on
-- the inbox and the commands keep it.
use jungle_backend_challenge.Prelude.{Bool, true, false, String, Option, none, if◌then◌else◌}
use jungle_backend_challenge.Prelude.Results.{ok, err}
use jungle_backend_challenge.Domain.Errors.{Outcome, Thrown}
use jungle_backend_challenge.Database.Rows.{Db}
use jungle_backend_challenge.Database.Tx.{
  Env, World, Tx, ◌>>=◌, pure, throw, attempt, transactional,
}
use jungle_backend_challenge.Wagering.ProcessWager.{execute}
use jungle_backend_challenge.Wagering.Types.{SubmitInput}
use jungle_backend_challenge.Messaging.Inbox.{InboxClaim, consumer_name, upsert, mark_processed}
use jungle_backend_challenge.Messaging.Requests.{SqsMessage, Command}
use jungle_backend_challenge.Wagering.Submission.{Formats}
use jungle_backend_challenge.Messaging.CommandHandler.{
  ack, redeliver, leave_unacknowledged, process_claimed, after_claim, deliver, handle, permanent,
  process_read, process,
}

module _ (P : Db → Type 0) where
  -- The work keeps `P`, however it ends.
  pub record KeepsDb {A : Type 0} (m : Tx A) : Type 0 where
    pub at : (w : World) → P w.db → P (m w).1.db

  KeepsDb-bind :
      {A B : Type 0} (m : Tx A) (f : A → Tx B)
      → KeepsDb m
      → ((a : A) → KeepsDb (f a))
      → KeepsDb (m >>= f)
  unfolding ◌>>=◌
  KeepsDb-bind {A} m f h k = record { at = λ w s. go w (m w) (h.at w s) }
    where
      go : (w : World) (r : Outcome A × World) → P r.1.db → P (((λ _. r) >>= f) w).1.db
      go w (ok a, v) s = (k a).at v s
      go w (err t, v) s = s

  module _ {A : Type 0} where
    KeepsDb-attempt :
        (m : Tx A) (recover : Thrown → Tx A)
        → KeepsDb m
        → ((e : Thrown) → KeepsDb (recover e))
        → KeepsDb (attempt m recover)
    unfolding attempt
    KeepsDb-attempt m recover h k = record { at = λ w s. go w (m w) (h.at w s) }
      where
        go : (w : World) (r : Outcome A × World) → P r.1.db → P (attempt (λ _. r) recover w).1.db
        go w (ok a, v) s = s
        go w (err t, v) s = (k t).at v s

    KeepsDb-transactional : (m : Tx A) → KeepsDb m → KeepsDb (transactional m)
    unfolding transactional
    KeepsDb-transactional m h = record { at = λ w s. go w (m w) s (h.at w s) }
      where
        go :
            (w : World) (r : Outcome A × World)
            → P w.db
            → P r.1.db
            → P (transactional (λ _. r) w).1.db
        go w (ok a, v) s s' = s'
        go w (err t, v) s s' = s

    KeepsDb-if : (b : Bool) (m n : Tx A) → KeepsDb m → KeepsDb n → KeepsDb (if b then m else n)
    KeepsDb-if true m n h k = h
    KeepsDb-if false m n h k = k

    KeepsDb-pure : (a : A) → KeepsDb (pure a)
    unfolding pure
    KeepsDb-pure a = record { at = λ w s. s }

    KeepsDb-throw : (e : Thrown) → KeepsDb {A = A} (throw e)
    unfolding throw
    KeepsDb-throw e = record { at = λ w s. s }

  module _ {D : Type 0} (env : Env D)
      (claimed : (message hash : String) (correlation : Option String)
        → KeepsDb (upsert consumer_name message hash correlation))
      (marked : (message : String) → KeepsDb (mark_processed consumer_name message))
      (executed : (input : SubmitInput) → KeepsDb (execute env input)) where
    process_claimed-KeepsDb : (command : Command) → KeepsDb (process_claimed env command)
    unfolding process_claimed
    process_claimed-KeepsDb command =
        KeepsDb-attempt _ _
          (KeepsDb-bind _ _ (executed command.input)
            λ _. KeepsDb-bind _ _ (marked command.message_id) λ _. KeepsDb-pure ack)
          λ _. KeepsDb-throw leave_unacknowledged

    after_claim-KeepsDb :
        (command : Command) (claim : InboxClaim) → KeepsDb (after_claim env command claim)
    unfolding after_claim
    after_claim-KeepsDb command claim =
        KeepsDb-if _ _ _ (KeepsDb-if _ _ _ (KeepsDb-pure ack) (process_claimed-KeepsDb command))
          (KeepsDb-pure redeliver)

    process_read-KeepsDb :
        (message : SqsMessage) (read : Outcome Command) → KeepsDb (process_read env message read)
    unfolding process_read permanent handle deliver
    process_read-KeepsDb message (err e) =
        KeepsDb-bind _ _ (KeepsDb-transactional _ (claimed _ _ none)) λ _. KeepsDb-pure redeliver
    process_read-KeepsDb message (ok command) =
        KeepsDb-attempt _ _
          (KeepsDb-transactional _ (KeepsDb-bind _ _ (claimed _ _ _) (after_claim-KeepsDb command)))
          λ _. KeepsDb-pure redeliver

    pub process-KeepsDb : (fmt : Formats) (message : SqsMessage) → KeepsDb (process env fmt message)
    unfolding process
    process-KeepsDb fmt message = process_read-KeepsDb message _
