-- ===== src/Messaging/CommandHandler/Deliveries.antt =====
-- What src/messaging/command-message-handler.ts makes of one delivery of a message, and of another.
use jungle_backend_challenge.Prelude.{
  ◌≡◌, refl, sym, ap, ◌∙◌, ◌≢◌, ◌⊎◌, inl, inr, true, String, eq_true, false_of_ne, Option, none,
  some,
}
use jungle_backend_challenge.Prelude.Results.{ok, err}
use jungle_backend_challenge.Domain.Errors.{Outcome}
use jungle_backend_challenge.Database.Rows.{InboxRow}
use jungle_backend_challenge.Database.Tx.{Env, World, ◌>>=◌, pure, attempt, transactional}
use jungle_backend_challenge.Messaging.Inbox.{consumer_name, is_set, claim_of, upsert, upsert_found}
use jungle_backend_challenge.Messaging.Requests.{SqsMessage, Command, read_command}
use jungle_backend_challenge.Wagering.Submission.{Formats}
use jungle_backend_challenge.Messaging.CommandHandler.{
  HandleAction, ack, redeliver, after_claim, deliver, handle, permanent, process_read, process,
}
use jungle_backend_challenge.Messaging.CommandHandler.Handled.{
  inbox_row, IsRecorded, IsUnmoved, counted, Handled, handle-Handled,
}

module _ {D : Type 0} (env : Env D) where
  permanent-redeliver :
      (message hash : String) (w : World)
      → ((permanent env message hash none w).0 ≡ ok redeliver)
        × IsUnmoved w.db (permanent env message hash none w).1.db
  unfolding permanent ◌>>=◌ upsert transactional
  permanent-redeliver message hash w = go (inbox_row message w.db)
    where
      go :
          (o : Option InboxRow)
          → let r =
              (transactional (upsert_found consumer_name message hash none w.now o) >>= λ claim.
              pure redeliver)
                w in
            (r.0 ≡ ok redeliver) × IsUnmoved w.db r.1.db
      go none = (refl, record { wallets = refl; wagers = refl; ledger = refl; outbox = refl })
      go (some r) = (refl, record { wallets = refl; wagers = refl; ledger = refl; outbox = refl })

  -- A message is always answered. It is acknowledged only if it can be read and its delivery is
  -- recorded as processed under the hash of its command; otherwise it is left for another delivery,
  -- with wallets, wagers, ledger and outbox as they were.
  pub process_settles :
      (fmt : Formats) (message : SqsMessage) (w : World)
      → ((command : Command) × (read_command env.dec env.sha256 fmt message ≡ ok command)
          × ((process env fmt message w).0 ≡ ok ack)
          × IsRecorded command (process env fmt message w).1.db)
        ⊎ (((process env fmt message w).0 ≡ ok redeliver)
            × IsUnmoved w.db (process env fmt message w).1.db)
  unfolding process process_read
  process_settles fmt message w = go (read_command env.dec env.sha256 fmt message)
    where
      handled :
          (command : Command) (r : Outcome HandleAction × World)
          → Handled env command w r
          → ((c : Command) × (◌≡◌ {A = Outcome Command} (ok command) (ok c))
              × (r.0 ≡ ok ack)
              × IsRecorded c r.1.db)
            ⊎ ((r.0 ≡ ok redeliver) × IsUnmoved w.db r.1.db)
      handled command (ok ack, v) h = inl (command, refl, refl, h)
      handled command (ok redeliver, v) h = inr (refl, h)
      handled command (err e, v) h = absurd h

      go :
          (read : Outcome Command)
          → ((c : Command) × (read ≡ ok c)
              × ((process_read env message read w).0 ≡ ok ack)
              × IsRecorded c (process_read env message read w).1.db)
            ⊎ (((process_read env message read w).0 ≡ ok redeliver)
                × IsUnmoved w.db (process_read env message read w).1.db)
      go (err e) = inr (permanent-redeliver _ _ w)
      go (ok command) = handled command (handle env command w) (handle-Handled env command w)

  process-read :
      (fmt : Formats) (message : SqsMessage) (command : Command) (v : World)
      → read_command env.dec env.sha256 fmt message ≡ ok command
      → process env fmt message v ≡ handle env command v
  unfolding process process_read
  process-read fmt message command v read = ap (λ r. process_read env message r v) read

  -- A delivery whose row is there.
  known-handle :
      (command : Command) (v : World) (row : InboxRow)
      → inbox_row command.message_id v.db ≡ some row
      → handle env command v
        ≡ attempt
            (transactional
              (λ _. after_claim env command (claim_of row) (counted command.message_id v)))
            (λ _. pure redeliver)
            v
  unfolding handle deliver ◌>>=◌ upsert upsert_found transactional attempt
  known-handle command v row found =
      ap
        (λ o.
          attempt
            (transactional (λ _.
              (upsert_found consumer_name command.message_id command.body_hash
                    (some command.message_id) v.now o
                  >>= after_claim env command)
                v))
            (λ _. pure redeliver) v)
        found

  -- A message under the identifier of another command is left for another delivery, and changes
  -- nothing but the count of the deliveries and the time of the last one.
  pub process_conflict :
      (fmt : Formats) (message : SqsMessage) (command : Command) (row : InboxRow) (v : World)
      → read_command env.dec env.sha256 fmt message ≡ ok command
      → inbox_row command.message_id v.db ≡ some row
      → row.body_hash ≢ command.body_hash
      → process env fmt message v ≡ (ok redeliver, counted command.message_id v)
  unfolding attempt transactional pure after_claim
  process_conflict fmt message command row v read found other =
      process-read fmt message command v read
      ∙ known-handle command v row found
      ∙ rw (false_of_ne _ _ other) refl

  done-handle :
      (command : Command) (row : InboxRow) (v : World)
      → inbox_row command.message_id v.db ≡ some row
      → row.body_hash ≡ command.body_hash
      → is_set row.processed_at ≡ true
      → handle env command v ≡ (ok ack, counted command.message_id v)
  unfolding attempt transactional pure after_claim
  done-handle command row v found same done =
      known-handle command v row found ∙ rw (eq_true _ _ same, done) refl

  -- Once a message is acknowledged, another delivery of it is acknowledged too, whatever else has
  -- happened since as long as its row of the inbox is as it was, and changes nothing but the count
  -- of its deliveries and the time of the last one.
  pub process_again :
      (fmt : Formats) (message : SqsMessage) (command : Command) (w v : World)
      → read_command env.dec env.sha256 fmt message ≡ ok command
      → (process env fmt message w).0 ≡ ok ack
      → inbox_row command.message_id v.db
        ≡ inbox_row command.message_id (process env fmt message w).1.db
      → process env fmt message v ≡ (ok ack, counted command.message_id v)
  process_again fmt message command w v read acked same =
      let recorded = recorded_of (handle env command w) (handle-Handled env command w) (
        ap (λ (r : Outcome HandleAction × World). r.0)
          (sym (process-read fmt message command w read))
        ∙ acked) in
      process-read fmt message command v read
      ∙ done-handle command recorded.row v
          (same
            ∙ ap (λ (r : Outcome HandleAction × World). inbox_row command.message_id r.1.db)
                (process-read fmt message command w read)
            ∙ recorded.found)
          recorded.hash recorded.done
    where
      recorded_of :
          (r : Outcome HandleAction × World)
          → Handled env command w r
          → r.0 ≡ ok ack
          → IsRecorded command r.1.db
      recorded_of (ok ack, u) h e = h
      recorded_of (ok redeliver, u) h e = cc
      recorded_of (err t, u) h e = cc
