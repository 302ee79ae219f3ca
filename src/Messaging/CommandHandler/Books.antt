-- ===== src/Messaging/CommandHandler/Books.antt =====
-- The books, and the messages that src/messaging/command-message-handler.ts handles.
use jungle_backend_challenge.Prelude.{String, Option, none, some, List}
use jungle_backend_challenge.Domain.Decimal.{IsDecimal}
use jungle_backend_challenge.Database.Rows.{Db, InboxRow}
use jungle_backend_challenge.Database.Tx.{Env, World, ◌>>=◌}
use jungle_backend_challenge.Wagering.Books.{IsSound}
use jungle_backend_challenge.Wagering.Books.Commands.{execute-IsSound}
use jungle_backend_challenge.Messaging.Inbox.{consumer_name, upsert, upsert_found, mark_processed}
use jungle_backend_challenge.Messaging.Requests.{SqsMessage}
use jungle_backend_challenge.Wagering.Submission.{Formats}
use jungle_backend_challenge.Messaging.CommandHandler.Keeps.{KeepsDb, process-KeepsDb}
use jungle_backend_challenge.Messaging.CommandHandler.{process}

of_inbox : (db : Db) (rows : List InboxRow) → IsSound db → IsSound (record db { inbox = rows })
of_inbox db rows h = record {
  keyed = h.keyed;
  balanced = h.balanced;
  entries_hold = h.entries_hold;
}

upsert-KeepsDb :
    (consumer message hash : String) (correlation : Option String)
    → KeepsDb IsSound (upsert consumer message hash correlation)
unfolding upsert ◌>>=◌
upsert-KeepsDb consumer message hash correlation = record { at = λ w s. go w s _ }
  where
    go :
        (w : World)
        → IsSound w.db
        → (o : Option InboxRow)
        → IsSound (upsert_found consumer message hash correlation w.now o w).1.db
    go w s none = of_inbox w.db _ s
    go w s (some r) = of_inbox w.db _ s

mark_processed-KeepsDb :
    (consumer message : String) → KeepsDb IsSound (mark_processed consumer message)
unfolding mark_processed ◌>>=◌
mark_processed-KeepsDb consumer message = record { at = λ w s. of_inbox w.db _ s }

module _ {D : Type 0} (env : Env D) (laws : IsDecimal env.dec) where
  -- A message from the queue, whatever it is and however it is handled, keeps sound books sound.
  pub process-IsSound :
      (fmt : Formats) (message : SqsMessage) (w : World)
      → IsSound w.db
      → IsSound (process env fmt message w).1.db
  process-IsSound fmt message =
      (process-KeepsDb IsSound env (upsert-KeepsDb consumer_name)
        (mark_processed-KeepsDb consumer_name)
        (λ input. record { at = execute-IsSound env laws input }) fmt message).at
