-- ===== src/Wagering/Repository/Movements.antt =====
-- src/wagering/wager.repository.ts: the statements on the balance of a wallet, on the ledger and on
-- the outbox, with the constraints of migrations/*.sql that they can violate.
use jungle_backend_challenge.Prelude.{
  ℕ, ◌+◌, Bool, ◌&&◌, ◌||◌, not, String, ◌==◌, none, ◌∷◌, any, update_where, leb, nat_eq,
}
use jungle_backend_challenge.Prelude.Results.{ok}
use jungle_backend_challenge.Domain.Errors.{Outcome}
use jungle_backend_challenge.Domain.Amount.{cents}
use jungle_backend_challenge.Domain.Money.{MoneyProps}
use jungle_backend_challenge.Domain.LedgerEntry.{LedgerDirection, debit, credit}
use jungle_backend_challenge.Domain.Events.{IntegrationEvent, event_type, event_version}
use jungle_backend_challenge.Database.Rows.{Db, LedgerRow, OutboxRow, OutboxStatus, numeric_limit}
use jungle_backend_challenge.Database.Tx.{
  Env, Tx, ◌>>=◌, writes, clock, draw, refuse_if, unique_violation, foreign_key_violation,
  check_violation, numeric_overflow,
}
use jungle_backend_challenge.Database.Tables.{has_key}
use jungle_backend_challenge.Wagering.Repository.{wager_id, wallet_key}

-- The argument of `insertLedgerEntry`.
pub record LedgerInput : Type 0 where
  pub direction : LedgerDirection
  pub value : MoneyProps
  pub balance_before : MoneyProps
  pub balance_after : MoneyProps
  pub wallet_id : String
  pub transaction_id : String

-- `ck_ledger_arithmetic`
unfoldable pub arithmetic_holds : LedgerDirection → ℕ → ℕ → ℕ → Bool
arithmetic_holds credit value before after = nat_eq after (before + value)
arithmetic_holds debit value before after = nat_eq (after + value) before

unfoldable pub insert_ledger_row : LedgerRow → Db → Outcome Db
insert_ledger_row row db =
    let value = cents row.value_amount in
    let before = cents row.balance_before_amount in
    let after = cents row.balance_after_amount in
    refuse_if (leb numeric_limit value || leb numeric_limit before || leb numeric_limit after)
      numeric_overflow
      (refuse_if (not (arithmetic_holds row.direction value before after))
        (check_violation "ck_ledger_arithmetic")
        (refuse_if
          (not (
            row.balance_before_currency == row.balance_after_currency
            && row.balance_before_currency == row.value_currency))
          (check_violation "ck_ledger_currency")
          (refuse_if (nat_eq value 0) (check_violation "ck_ledger_value_positive") (
            refuse_if (any (λ r. r.id == row.id) db.ledger)
              (unique_violation "wallet_ledger_entries_pkey")
              (refuse_if
                (any (λ r. r.transaction_id == row.transaction_id && r.wallet_id == row.wallet_id)
                  db.ledger)
                (unique_violation "uq_ledger_tx_wallet")
                (refuse_if (not (any (has_key wallet_key row.wallet_id) db.wallets))
                  (foreign_key_violation "wallet_ledger_entries_wallet_id_fkey")
                  (refuse_if (not (any (has_key wager_id row.transaction_id) db.wagers))
                    (foreign_key_violation "wallet_ledger_entries_transaction_id_fkey")
                    (ok (record db { ledger = row ∷ db.ledger })))))))))

unfoldable pub ledger_row : LedgerInput → String → ℕ → LedgerRow
ledger_row i id now = record {
  id = id;
  direction = i.direction;
  value_amount = i.value.amount;
  value_currency = i.value.currency;
  balance_before_amount = i.balance_before.amount;
  balance_before_currency = i.balance_before.currency;
  balance_after_amount = i.balance_after.amount;
  balance_after_currency = i.balance_after.currency;
  wallet_id = i.wallet_id;
  transaction_id = i.transaction_id;
  created_at = now;
}

unfoldable pub set_balance : String → String → ℕ → Db → Outcome Db
set_balance wallet_id amount now db =
    refuse_if (leb numeric_limit (cents amount)) numeric_overflow (
      ok (record db {
        wallets =
            update_where (has_key wallet_key wallet_id)
              (λ r. record r { balance_amount = amount; version = r.version + 1; updated_at = now })
              db.wallets;
      }))

unfoldable pub apply_wallet_mutation : String → String → Tx (Unit {0})
apply_wallet_mutation wallet_id amount = do now ← clock; writes (set_balance wallet_id amount now)

unfoldable pub outbox_row : IntegrationEvent → String → ℕ → OutboxRow
unfolding event_type
outbox_row event id now = record {
  id = id;
  event_id = event.event_id;
  event_type = event_type event.payload;
  schema_version = event_version event.payload;
  payload = event;
  status = OutboxStatus.pending;
  attempts = 0;
  next_attempt_at = now;
  last_error = none;
  created_at = now;
  published_at = none;
}

unfoldable pub insert_outbox_row : OutboxRow → Db → Outcome Db
insert_outbox_row row db =
    refuse_if (any (λ r. r.id == row.id) db.outbox) (unique_violation "outbox_pkey") (
      refuse_if (any (λ r. r.event_id == row.event_id) db.outbox)
        (unique_violation "uq_outbox_event_id") (ok (record db { outbox = row ∷ db.outbox })))

-- The ids of the rows come from the columns' default, `uuidv7()`.
module _ {D : Type 0} (env : Env D) where
  unfoldable pub insert_ledger_entry : LedgerInput → Tx (Unit {0})
  insert_ledger_entry i = do
    id ← draw env
    now ← clock
    writes (insert_ledger_row (ledger_row i id now))

  unfoldable pub insert_outbox_event : IntegrationEvent → Tx (Unit {0})
  insert_outbox_event event = do
    id ← draw env
    now ← clock
    writes (insert_outbox_row (outbox_row event id now))
