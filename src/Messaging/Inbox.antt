-- ===== src/Messaging/Inbox.antt =====
-- src/messaging/inbox.repository.ts: the statements on the table `inbox`.
use jungle_backend_challenge.Prelude.{
  ℕ, ◌+◌, Bool, true, false, ◌&&◌, String, ◌==◌, Option, none, some, ◌∷◌, find, update_where,
}
use jungle_backend_challenge.Prelude.Results.{ok}
use jungle_backend_challenge.Database.Rows.{InboxRow}
use jungle_backend_challenge.Database.Tx.{Tx, ◌>>=◌, ◌>>◌, pure, reads, writes, clock}

abbrev pub consumer_name : String
consumer_name = "wager-command-consumer"

pub record InboxClaim : Type 0 where
  pub received_count : ℕ
  pub body_hash : String
  pub processed : Bool

-- `consumer_name = ? AND message_id = ?`, the primary key
abbrev pub is_delivery : String → String → InboxRow → Bool
is_delivery consumer message row = row.consumer_name == consumer && row.message_id == message

abbrev pub is_set : Option ℕ → Bool
is_set none = false
is_set (some _) = true

abbrev pub claim_of : InboxRow → InboxClaim
claim_of r = record {
  received_count = r.received_count;
  body_hash = r.body_hash;
  processed = is_set r.processed_at;
}

abbrev pub first_delivery : String → String → String → Option String → ℕ → InboxRow
first_delivery consumer message hash correlation now = record {
  consumer_name = consumer;
  message_id = message;
  body_hash = hash;
  received_count = 1;
  processed_at = none;
  correlation_id = correlation;
  first_received_at = now;
  last_received_at = now;
}

abbrev pub bumped : ℕ → InboxRow → InboxRow
bumped now r = record r { received_count = r.received_count + 1; last_received_at = now }

-- `INSERT … ON CONFLICT … DO UPDATE … RETURNING`, by whether the delivery has a row.
unfoldable pub upsert_found :
    String → String → String → Option String → ℕ → Option InboxRow → Tx InboxClaim
upsert_found consumer message hash correlation now none = do
  writes (λ db.
      ok (record db { inbox = first_delivery consumer message hash correlation now ∷ db.inbox }))
  pure (claim_of (first_delivery consumer message hash correlation now))
upsert_found consumer message hash correlation now (some row) = do
  writes (λ db.
      ok (record db { inbox = update_where (is_delivery consumer message) (bumped now) db.inbox }))
  pure (claim_of (bumped now row))

unfoldable pub upsert : String → String → String → Option String → Tx InboxClaim
unfolding upsert_found
upsert consumer message hash correlation = do
  now ← clock
  found ← reads (λ db. find (is_delivery consumer message) db.inbox)
  upsert_found consumer message hash correlation now found

abbrev pub done_at : ℕ → InboxRow → InboxRow
done_at now r = record r { processed_at = some now }

unfoldable pub mark_processed : String → String → Tx (Unit {0})
mark_processed consumer message = do
  now ← clock
  writes (λ db.
      ok (record db { inbox = update_where (is_delivery consumer message) (done_at now) db.inbox }))

unfoldable pub is_processed : String → String → Tx Bool
is_processed consumer message = reads (λ db. elim (find (is_delivery consumer message) db.inbox) [
  | none ↦ false
  | some row ↦ is_set row.processed_at
])
