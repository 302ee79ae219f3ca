-- ===== src/Wagering/Repository.antt =====
-- src/wagering/wager.repository.ts: the SQL on the wager table and on the locked wallet, with the
-- constraints of migrations/*.sql that it can violate. Transactions run one after another, which is
-- what the row locks ensure, so FOR UPDATE changes nothing here. The order of rows in a table
-- carries no meaning.
pub mod Movements
use text.Mathlib.Text.{is_lt}
use Prim.Native.String.{compare}
use jungle_backend_challenge.Prelude.{
  ℕ, ◌+◌, Bool, true, false, ◌&&◌, ◌||◌, not, String, ◌==◌, codes, Option, none, some, List, [],
  ◌∷◌, find, any, keep, update_where, leb, nat_eq, if◌then◌else◌,
}
use jungle_backend_challenge.Prelude.Results.{ok}
use jungle_backend_challenge.Domain.Errors.{Outcome}
use jungle_backend_challenge.Domain.Amount.{cents, currency_pattern}
use jungle_backend_challenge.Domain.Money.{MoneyProps}
use jungle_backend_challenge.Domain.LedgerEntry.{LedgerDirection, debit, credit}
use jungle_backend_challenge.Domain.WagerTransaction.{
  WagerType, is_reversal, WagerStatus, pending, pending_reference, processed, rejected,
}
use jungle_backend_challenge.Domain.Events.{IntegrationEvent, event_type, event_version}
use jungle_backend_challenge.Database.Rows.{
  Db, WagerRow, WalletRow, LedgerRow, OutboxRow, OutboxStatus, PersistedResponse, numeric_limit,
}
use jungle_backend_challenge.Database.Tx.{
  Env, Tx, ◌>>=◌, reads, writes, clock, draw, refuse_if, unique_violation, foreign_key_violation,
  check_violation, numeric_overflow,
}
use jungle_backend_challenge.Database.Tables.{has_key}
use jungle_backend_challenge.Wagering.Types.{same_type, is_text}

abbrev pub wager_id : WagerRow → String
wager_id r = r.id

abbrev pub wallet_key : WalletRow → String
wallet_key r = r.id

abbrev pub by_idempotency_key : String → WagerRow → Bool
by_idempotency_key key r = r.idempotency_key == key

abbrev pub by_provider_external : String → String → WagerRow → Bool
by_provider_external provider external r =
    r.provider_id == provider && r.external_transaction_id == external

-- The row of the first of those that `ORDER BY id` would put first.
unfoldable pub least_id : List WagerRow → Option WagerRow
least_id [] = none
least_id (r ∷ rs) = elim (least_id rs) [
  | none ↦ some r
  | some s ↦ if is_lt (compare s.id r.id) then some s else some r
]

unfoldable pub insert_row : WagerRow → Db → Outcome Db
insert_row row db = refuse_if (leb numeric_limit (cents row.amount_amount)) numeric_overflow (
    refuse_if (not (currency_pattern (codes row.amount_currency)))
      (check_violation "ck_wager_amount_currency")
      (refuse_if (any (has_key wager_id row.id) db.wagers)
        (unique_violation "wager_transactions_pkey")
        (refuse_if (any (by_idempotency_key row.idempotency_key) db.wagers)
          (unique_violation "uq_wager_idempotency_key")
          (refuse_if
            (any (by_provider_external row.provider_id row.external_transaction_id) db.wagers)
            (unique_violation "uq_wager_provider_external")
            (refuse_if (not (any (has_key wallet_key row.wallet_id) db.wallets))
              (foreign_key_violation "wager_transactions_wallet_id_fkey")
              (ok (record db { wagers = row ∷ db.wagers })))))))

-- The argument of `insertPending`.
pub record PendingInput : Type 0 where
  pub id : String
  pub type : WagerType
  pub wallet_id : String
  pub player_id : String
  pub round_id : String
  pub game_id : String
  pub provider_id : String
  pub external_transaction_id : String
  pub amount : MoneyProps
  pub payload_hash : String
  pub idempotency_key : String
  pub reference_external_transaction_id : Option String

unfoldable pub pending_row : PendingInput → WagerRow
pending_row i = record {
  id = i.id;
  type = i.type;
  status = pending;
  wallet_id = i.wallet_id;
  player_id = some i.player_id;
  round_id = some i.round_id;
  game_id = some i.game_id;
  provider_id = i.provider_id;
  external_transaction_id = i.external_transaction_id;
  amount_amount = i.amount.amount;
  amount_currency = i.amount.currency;
  reference_external_transaction_id = i.reference_external_transaction_id;
  payload_hash = i.payload_hash;
  response_payload = none;
  failure_code = none;
  processed_at = none;
  reference_attempts = 0;
  reference = none;
  next_retry_at = none;
  idempotency_key = i.idempotency_key;
}

unfoldable pub insert_pending : PendingInput → Tx (Unit {0})
insert_pending i = writes (insert_row (pending_row i))

unfoldable pub find_by_idempotency_key : String → Tx (Option WagerRow)
find_by_idempotency_key key = reads (λ db. find (by_idempotency_key key) db.wagers)

unfoldable pub find_by_id_public : String → Tx (Option WagerRow)
find_by_id_public id = reads (λ db. find (has_key wager_id id) db.wagers)

unfoldable pub find_by_provider_and_external : String → String → Tx (Option WagerRow)
find_by_provider_and_external provider external =
    reads (λ db. find (by_provider_external provider external) db.wagers)

unfoldable pub find_reference_by_provider_external : String → String → Tx (Option WagerRow)
find_reference_by_provider_external provider external =
    reads (λ db. find (by_provider_external provider external) db.wagers)

unfoldable pub find_reference_by_external : String → Tx (Option WagerRow)
find_reference_by_external external =
    reads (λ db. least_id (keep (λ r. r.external_transaction_id == external) db.wagers))

-- An UPDATE of the row with an id, which no constraint refuses.
unfoldable pub update_wager : String → (WagerRow → WagerRow) → Tx (Unit {0})
update_wager id f =
    writes (λ db. ok (record db { wagers = update_where (has_key wager_id id) f db.wagers }))

unfoldable pub mark_processed : String → PersistedResponse → Tx (Unit {0})
mark_processed id response = do
  now ← clock
  update_wager id (λ r. record r {
    status = processed;
    response_payload = some response;
    processed_at = some now;
  })

abbrev pub coalesce : Option ℕ → ℕ → ℕ
coalesce none n = n
coalesce (some a) n = a

unfoldable pub mark_rejected : String → String → PersistedResponse → Option ℕ → Tx (Unit {0})
mark_rejected id failure_code response reference_attempts = do
  now ← clock
  update_wager id (λ r. record r {
    status = rejected;
    failure_code = some failure_code;
    response_payload = some response;
    processed_at = some now;
    reference_attempts = coalesce reference_attempts r.reference_attempts;
  })

-- Another row of the same type that reverses the same reference.
abbrev pub reverses : String → WagerType → String → WagerRow → Bool
reverses reference type id r =
    not (r.id == id) && (is_text r.reference reference && same_type r.type type)

-- The partial unique index on (reference, type) of the reversals.
unfoldable pub reversal_taken : String → String → List WagerRow → Bool
unfolding same_type
reversal_taken id reference rows = elim (find (has_key wager_id id) rows) [
  | none ↦ false
  | some r ↦ is_reversal r.type && any (reverses reference r.type id) rows
]

unfoldable pub set_reference : String → String → Tx (Unit {0})
set_reference id reference = writes (λ db.
    refuse_if (reversal_taken id reference db.wagers)
      (unique_violation "uq_wager_reversal_reference_type")
      (ok (record db {
        wagers =
            update_where (has_key wager_id id) (λ r. record r { reference = some reference })
              db.wagers;
      })))

unfoldable pub lock_wallet : String → String → String → Tx (Option WalletRow)
lock_wallet id player currency =
    reads
      (λ db. find (λ r. r.id == id && (r.player_id == player && r.currency == currency)) db.wallets)

unfoldable pub lock_wallet_by_id : String → Tx (Option WalletRow)
lock_wallet_by_id id = reads (λ db. find (has_key wallet_key id) db.wallets)

unfoldable pub lock_reference : String → Tx (Option WagerRow)
lock_reference id = reads (λ db. find (has_key wager_id id) db.wagers)

abbrev pub is_open : WagerStatus → Bool
is_open pending = true
is_open pending_reference = true
is_open processed = true
is_open _ = false

-- The order of the rows does not matter to the caller, which asks only whether there is one.
unfoldable pub find_reversal_by_reference_type : String → WagerType → String → Tx (Option WagerRow)
find_reversal_by_reference_type reference type exclude =
    reads (λ db. find (λ r. reverses reference type exclude r && is_open r.status) db.wagers)

unfoldable pub update_pending_retry : String → ℕ → ℕ → Tx (Unit {0})
update_pending_retry id next_retry_at attempts =
    update_wager id
      (λ r. record r { next_retry_at = some next_retry_at; reference_attempts = attempts })

unfoldable pub transition_to_pending_reference : String → ℕ → ℕ → PersistedResponse → Tx (Unit {0})
transition_to_pending_reference id next_retry_at initial_attempt response = update_wager id (λ r.
    record r {
      status = pending_reference;
      next_retry_at = some next_retry_at;
      reference_attempts = initial_attempt;
      response_payload = some response;
    })
