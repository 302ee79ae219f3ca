-- ===== src/Messaging/CommandHandler/Recorded.antt =====
-- A delivery that is recorded as processed stays so, whatever messages come after it in
-- src/messaging/command-message-handler.ts.
use jungle_backend_challenge.Prelude.{
  ◌≡◌, refl, ap, ◌∙◌, subst, true, String, ◌==◌, eq_of_true, ◌⊎◌, Bool-cases, Option, none, some,
  List, [], ◌∷◌, find, update_where, arith, inl, inr, ℕ,
}
use jungle_backend_challenge.Database.Rows.{Db, InboxRow}
use jungle_backend_challenge.Database.Tx.{Env, World, ◌>>=◌}
use jungle_backend_challenge.Wagering.Submission.{Formats}
use jungle_backend_challenge.Wagering.LeavesInbox.Commands.{execute-Leaves}
use jungle_backend_challenge.Wagering.ProcessWager.{execute}
use jungle_backend_challenge.Wagering.Types.{SubmitInput}
use jungle_backend_challenge.Messaging.Inbox.{
  consumer_name, is_delivery, is_set, first_delivery, bumped, done_at, upsert, upsert_found,
  mark_processed,
}
use jungle_backend_challenge.Messaging.Requests.{SqsMessage, Command}
use jungle_backend_challenge.Messaging.CommandHandler.{process}
use jungle_backend_challenge.Messaging.CommandHandler.Handled.{inbox_row, IsRecorded}
use jungle_backend_challenge.Messaging.CommandHandler.Keeps.{KeepsDb, process-KeepsDb}

-- A mark on the rows of a delivery leaves the row of another, or marks the row.
find-marked :
    (j k : String) (f : InboxRow → InboxRow) (rows : List InboxRow)
    → ((r : InboxRow) → is_delivery consumer_name j (f r) ≡ is_delivery consumer_name j r)
    → (row : InboxRow) → find (is_delivery consumer_name j) rows ≡ some row
    → (find (is_delivery consumer_name j) (update_where (is_delivery consumer_name k) f rows)
        ≡ some row)
      ⊎ (find (is_delivery consumer_name j) (update_where (is_delivery consumer_name k) f rows)
          ≡ some (f row))
find-marked j k f [] same row e = absurd (ground arith)
find-marked j k f (x ∷ xs) same row e = ground (arith, find-marked j k f xs same row, same x)

module _ (command : Command) where
  IsRecorded-mark :
      (message : String) (f : InboxRow → InboxRow) (db : Db)
      → ((r : InboxRow)
          → is_delivery consumer_name command.message_id (f r)
            ≡ is_delivery consumer_name command.message_id r)
      → ((r : InboxRow) → (f r).body_hash ≡ r.body_hash)
      → ((r : InboxRow) → is_set r.processed_at ≡ true → is_set (f r).processed_at ≡ true)
      → IsRecorded command db
      → IsRecorded command
          (record db { inbox = update_where (is_delivery consumer_name message) f db.inbox })
  IsRecorded-mark message f db same hash done r =
      elim (find-marked command.message_id message f db.inbox same r.row r.found) [
        | inl kept ↦ record { row = r.row; found = kept; hash = r.hash; done = r.done }
        | inr marked ↦ record {
          row = f r.row;
          found = marked;
          hash = hash r.row ∙ r.hash;
          done = done r.row r.done;
        }
      ]

  IsRecorded-first :
      (message hash : String) (correlation : Option String) (now : ℕ) (db : Db)
      → inbox_row message db ≡ none
      → IsRecorded command db
      → IsRecorded command (record db {
        inbox = first_delivery consumer_name message hash correlation now ∷ db.inbox;
      })
  IsRecorded-first message hash correlation now db new r = record {
    row = r.row;
    found = elim (Bool-cases (message == command.message_id)) [
      | inl e ↦ absurd (missing (eq_of_true message command.message_id e))
      | inr e ↦ rw e r.found
    ];
    hash = r.hash;
    done = r.done;
  }
    where
      missing : message ≡ command.message_id → ⊥
      missing e =
          let none_found = subst (λ m. inbox_row m db ≡ none) e new in ground (arith, r.found)

  upsert-KeepsRecorded :
      (message hash : String) (correlation : Option String)
      → KeepsDb (IsRecorded command) (upsert consumer_name message hash correlation)
  unfolding upsert ◌>>=◌ upsert_found
  upsert-KeepsRecorded message hash correlation = record {
    at = λ w r. go w r (inbox_row message w.db) refl;
  }
    where
      go :
          (w : World)
          → IsRecorded command w.db
          → (o : Option InboxRow) → inbox_row message w.db ≡ o
          → IsRecorded command (upsert_found consumer_name message hash correlation w.now o w).1.db
      go w r none e = IsRecorded-first message hash correlation w.now w.db e r
      go w r (some row) e =
          IsRecorded-mark message (bumped w.now) w.db (λ x. refl) (λ x. refl) (λ x d. d) r

  mark_processed-KeepsRecorded :
      (message : String) → KeepsDb (IsRecorded command) (mark_processed consumer_name message)
  unfolding mark_processed ◌>>=◌
  mark_processed-KeepsRecorded message = record {
    at =
        λ w r. IsRecorded-mark message (done_at w.now) w.db (λ x. refl) (λ x. refl) (λ x d. refl) r;
  }

  module _ {D : Type 0} (env : Env D) where
    execute-KeepsRecorded : (input : SubmitInput) → KeepsDb (IsRecorded command) (execute env input)
    execute-KeepsRecorded input = record {
      at = λ w r. record {
        row = r.row;
        found =
            ap (find (is_delivery consumer_name command.message_id))
              ((execute-Leaves env input).same w)
            ∙ r.found;
        hash = r.hash;
        done = r.done;
      };
    }

    pub process-IsRecorded :
        (fmt : Formats) (message : SqsMessage)
        → KeepsDb (IsRecorded command) (process env fmt message)
    process-IsRecorded =
        process-KeepsDb (IsRecorded command) env upsert-KeepsRecorded mark_processed-KeepsRecorded
          execute-KeepsRecorded
