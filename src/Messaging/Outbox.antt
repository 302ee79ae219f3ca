-- ===== src/Messaging/Outbox.antt =====
-- src/messaging/outbox.repository.ts: the statements on the table `outbox`. Rows that another
-- publisher has locked do not arise here, since transactions run one after another.
use Prim.Native.String.{compare}
use text.Mathlib.Text.{is_lt}
use jungle_backend_challenge.Prelude.{
  ℕ, zero, suc, ◌+◌, ◌-◌, ◌*◌, min, Bool, true, false, ◌&&◌, ◌||◌, String, Option, none, some, List,
  [], ◌∷◌, update_where, leb, ltb, nat_eq, if◌then◌else◌,
}
use jungle_backend_challenge.Prelude.Results.{ok}
use jungle_backend_challenge.Database.Rows.{OutboxRow, OutboxStatus}
use jungle_backend_challenge.Database.Tx.{Tx, ◌>>=◌, reads, writes, clock}
use jungle_backend_challenge.Database.Tables.{has_key}

abbrev pub outbox_id : OutboxRow → String
outbox_id row = row.id

abbrev pub is_pending : OutboxStatus → Bool
is_pending OutboxStatus.pending = true
is_pending _ = false

-- `status = 'PENDING' AND next_attempt_at <= now()`
unfoldable pub is_claimable : ℕ → OutboxRow → Bool
is_claimable now row = is_pending row.status && leb row.next_attempt_at now

-- `ORDER BY next_attempt_at, id`
unfoldable pub comes_before : OutboxRow → OutboxRow → Bool
comes_before r s =
    ltb r.next_attempt_at s.next_attempt_at
    || (nat_eq r.next_attempt_at s.next_attempt_at && is_lt (compare r.id s.id))

unfoldable pub first_claimable : ℕ → List OutboxRow → Option OutboxRow
unfolding is_claimable comes_before
first_claimable now [] = none
first_claimable now (r ∷ rs) =
    let rest = first_claimable now rs in
    if is_claimable now r
    then elim rest [ none ↦ some r | some s ↦ if comes_before s r then some s else some r ]
    else rest

unfoldable pub claim_due : Tx (Option OutboxRow)
claim_due = do now ← clock; reads (λ db. first_claimable now db.outbox)

abbrev pub published_row : ℕ → OutboxRow → OutboxRow
published_row now r = record r {
  status = OutboxStatus.published;
  published_at = some now;
  attempts = r.attempts + 1;
}

unfoldable pub mark_published : String → Tx (Unit {0})
mark_published id = do
  now ← clock
  writes (λ db.
      ok (record db { outbox = update_where (has_key outbox_id id) (published_row now) db.outbox }))

-- `error.slice(0, n)`
unfoldable pub slice : ℕ → String → String
slice zero s = String.[]
slice (suc n) String.[] = String.[]
slice (suc n) (String.◌∷◌ c s) = String.◌∷◌ c (slice n s)

abbrev pub failed_row : ℕ → ℕ → String → OutboxRow → OutboxRow
failed_row now delay_seconds error r = record r {
  attempts = r.attempts + 1;
  next_attempt_at = now + delay_seconds * 1000000;
  last_error = some (slice 2000 error);
}

unfoldable pub mark_failed : String → ℕ → String → Tx (Unit {0})
mark_failed id delay_seconds error = do
  now ← clock
  writes (λ db. ok (record db {
    outbox = update_where (has_key outbox_id id) (failed_row now delay_seconds error) db.outbox;
  }))

unfoldable pub claimable_rows : ℕ → List OutboxRow → ℕ
unfolding is_claimable
claimable_rows now [] = 0
claimable_rows now (r ∷ rs) = (if is_claimable now r then 1 else 0) + claimable_rows now rs

unfoldable pub count_due : Tx ℕ
count_due = do now ← clock; reads (λ db. claimable_rows now db.outbox)

-- `min(created_at)` of the pending rows
unfoldable pub oldest_pending : List OutboxRow → Option ℕ
oldest_pending [] = none
oldest_pending (r ∷ rs) =
    let rest = oldest_pending rs in
    if is_pending r.status
    then elim rest [ none ↦ some r.created_at | some t ↦ some (min r.created_at t) ]
    else rest

-- `lagSeconds`, here in microseconds: the column is a fraction of seconds. A row is not older than
-- the clock.
unfoldable pub lag : Tx ℕ
lag = do now ← clock; reads (λ db. elim (oldest_pending db.outbox) [ none ↦ 0 | some t ↦ now - t ])
