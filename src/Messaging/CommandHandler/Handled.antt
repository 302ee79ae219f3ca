-- ===== src/Messaging/CommandHandler/Handled.antt =====
-- What the work of src/messaging/command-message-handler.ts leaves of one delivery.
use jungle_backend_challenge.Prelude.{
  ◌≡◌, refl, sym, ap, ◌∙◌, subst, ◌⊎◌, inl, inr, Bool, true, false, String, ◌==◌, eq_of_true,
  eq_refl, Option, none, some, List, [], ◌∷◌, find, update_where, Bool-cases, arith,
}
use jungle_backend_challenge.Prelude.Results.{ok, err}
use jungle_backend_challenge.Domain.Errors.{Outcome}
use jungle_backend_challenge.Database.Rows.{Db, InboxRow}
use jungle_backend_challenge.Database.Tx.{
  Env, World, ◌>>=◌, ◌>>◌, pure, throw, attempt, transactional,
}
use jungle_backend_challenge.Wagering.Types.{SubmitResult}
use jungle_backend_challenge.Wagering.ProcessWager.{execute}
use jungle_backend_challenge.Wagering.LeavesInbox.Commands.{execute-Leaves}
use jungle_backend_challenge.Messaging.Inbox.{
  InboxClaim, consumer_name, is_delivery, is_set, claim_of, first_delivery, bumped, done_at, upsert,
  upsert_found, mark_processed,
}
use jungle_backend_challenge.Messaging.Requests.{Command}
use jungle_backend_challenge.Messaging.CommandHandler.{
  HandleAction, ack, redeliver, leave_unacknowledged, process_claimed, after_claim, deliver, handle,
}

find-update_where_self :
    {A : Type 0} (p : A → Bool) (f : A → A) (rows : List A)
    → ((r : A) → p (f r) ≡ p r)
    → find p (update_where p f rows) ≡ elim (find p rows) [ none ↦ none | some r ↦ some (f r) ]
find-update_where_self p f [] same = refl
find-update_where_self p f (x ∷ xs) same =
    ground (arith, same x, find-update_where_self p f xs same)

-- The row of a delivery.
abbrev pub inbox_row : String → Db → Option InboxRow
inbox_row message db = find (is_delivery consumer_name message) db.inbox

-- The delivery is recorded as processed, under the hash of the command.
pub record IsRecorded (command : Command) (db : Db) : Type 0 where
  pub row : InboxRow
  pub found : inbox_row command.message_id db ≡ some row
  pub hash : row.body_hash ≡ command.body_hash
  pub done : is_set row.processed_at ≡ true

-- Wallets, wagers, ledger and outbox are as they were.
pub record IsUnmoved (before after : Db) : Type 0 where
  pub wallets : after.wallets ≡ before.wallets
  pub wagers : after.wagers ≡ before.wagers
  pub ledger : after.ledger ≡ before.ledger
  pub outbox : after.outbox ≡ before.outbox

-- The world once a delivery is counted.
abbrev pub counted : String → World → World
counted message w = record w {
  db = record w.db {
    inbox = update_where (is_delivery consumer_name message) (bumped w.now) w.db.inbox;
  };
}

-- A claim: the row of the delivery, in a world in which nothing else has moved.
record IsClaimed (command : Command) (w : World) (claim : InboxClaim) (w' : World) : Type 0 where
  row : InboxRow
  found : inbox_row command.message_id w'.db ≡ some row
  claimed : claim ≡ claim_of row
  unmoved : IsUnmoved w.db w'.db

abbrev Claims : Command → World → Outcome InboxClaim × World → Type 0
Claims command w (ok claim, w') = IsClaimed command w claim w'
Claims command w (err e, w') = ⊥

upsert-Claims :
    (command : Command) (w : World)
    → Claims command w
        (upsert consumer_name command.message_id command.body_hash (some command.message_id) w)
unfolding upsert ◌>>=◌
upsert-Claims command w = go (inbox_row command.message_id w.db) refl
  where
    go :
        (o : Option InboxRow)
        → inbox_row command.message_id w.db ≡ o
        → Claims command w (
            upsert_found consumer_name command.message_id command.body_hash
              (some command.message_id)
              w.now
              o
              w)
    go none e = record {
      row =
          first_delivery consumer_name command.message_id command.body_hash
            (some command.message_id) w.now;
      found = rw (eq_refl command.message_id) refl;
      claimed = refl;
      unmoved = record { wallets = refl; wagers = refl; ledger = refl; outbox = refl };
    }
    go (some r) e = record {
      row = bumped w.now r;
      found =
          find-update_where_self (is_delivery consumer_name command.message_id) (bumped w.now)
            w.db.inbox (λ r'. refl)
          ∙ rw e refl;
      claimed = refl;
      unmoved = record { wallets = refl; wagers = refl; ledger = refl; outbox = refl };
    }

-- The end of a delivery.
abbrev Delivered : Command → World → Outcome HandleAction × World → Type 0
Delivered command w (ok ack, w') = IsRecorded command w'.db
Delivered command w (ok redeliver, w') = IsUnmoved w.db w'.db
Delivered command w (err e, w') = Unit

module _ {D : Type 0} (env : Env D) where
  -- After the command, in a world whose inbox is that of the claim.
  abbrev mark_after : Command → Outcome SubmitResult × World → Outcome HandleAction × World
  mark_after command r =
      attempt (do processed ← λ _. r; mark_processed consumer_name command.message_id; pure ack)
        (λ _. throw leave_unacknowledged) r.1

  mark_after-Delivered :
      (command : Command) (w : World) (row : InboxRow) (r : Outcome SubmitResult × World)
      → inbox_row command.message_id r.1.db ≡ some row
      → row.body_hash ≡ command.body_hash
      → Delivered command w (mark_after command r)
  unfolding attempt ◌>>=◌ mark_processed
  mark_after-Delivered command w row (ok processed, v) found same = record {
    row = done_at v.now row;
    found =
        find-update_where_self (is_delivery consumer_name command.message_id) (done_at v.now)
          v.db.inbox (λ r'. refl)
        ∙ rw found refl;
    hash = same;
    done = refl;
  }
  mark_after-Delivered command w row (err e, v) found same = tt

  process_claimed-Delivered :
      (command : Command) (w v : World) (row : InboxRow)
      → inbox_row command.message_id v.db ≡ some row
      → row.body_hash ≡ command.body_hash
      → Delivered command w (process_claimed env command v)
  unfolding process_claimed attempt ◌>>=◌
  process_claimed-Delivered command w v row found same =
      mark_after-Delivered command w row (execute env command.input v)
        (ap (find (is_delivery consumer_name command.message_id))
            ((execute-Leaves env command.input).same v)
          ∙ found)
        same

  after_claim-Delivered :
      (command : Command) (w v : World) (claim : InboxClaim)
      → IsClaimed command w claim v
      → Delivered command w (after_claim env command claim v)
  unfolding after_claim pure
  after_claim-Delivered command w v claim c =
      subst (λ k. Delivered command w (after_claim env command k v)) (sym c.claimed)
        (go (Bool-cases (c.row.body_hash == command.body_hash))
          (Bool-cases (is_set c.row.processed_at)))
    where
      go :
          ((c.row.body_hash == command.body_hash) ≡ true)
            ⊎ ((c.row.body_hash == command.body_hash) ≡ false)
          → (is_set c.row.processed_at ≡ true) ⊎ (is_set c.row.processed_at ≡ false)
          → Delivered command w (after_claim env command (claim_of c.row) v)
      go (inr other) d = rw other c.unmoved
      go (inl same) (inl done) =
          rw (same, done)
            (record { row = c.row; found = c.found; hash = eq_of_true _ _ same; done = done })
      go (inl same) (inr fresh) =
          rw (same, fresh)
            (process_claimed-Delivered command w v c.row c.found (eq_of_true _ _ same))

  deliver-Delivered : (command : Command) (w : World) → Delivered command w (deliver env command w)
  unfolding deliver ◌>>=◌
  deliver-Delivered command w =
      go (upsert consumer_name command.message_id command.body_hash (some command.message_id) w)
        (upsert-Claims command w)
    where
      go :
          (r : Outcome InboxClaim × World)
          → Claims command w r
          → Delivered command w (((λ _. r) >>= after_claim env command) w)
      go (ok claim, v) c = after_claim-Delivered command w v claim c
      go (err e, v) c = absurd c

  -- What a handled message amounts to.
  abbrev pub Handled : Command → World → Outcome HandleAction × World → Type 0
  Handled command w (ok ack, w') = IsRecorded command w'.db
  Handled command w (ok redeliver, w') = IsUnmoved w.db w'.db
  Handled command w (err e, w') = ⊥

  pub handle-Handled : (command : Command) (w : World) → Handled command w (handle env command w)
  unfolding handle attempt transactional pure
  handle-Handled command w = go (deliver env command w) (deliver-Delivered command w)
    where
      go :
          (r : Outcome HandleAction × World)
          → Delivered command w r
          → Handled command w (attempt (transactional (λ _. r)) (λ _. pure redeliver) w)
      go (ok ack, v) d = d
      go (ok redeliver, v) d = d
      go (err e, v) d = record { wallets = refl; wagers = refl; ledger = refl; outbox = refl }
