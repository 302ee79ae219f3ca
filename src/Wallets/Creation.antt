-- ===== src/Wallets/Creation.antt =====
-- src/infrastructure/database/wallet.repository.ts: `createAtomic`, and `create` of
-- src/wallets/wallet-creation.service.ts, with the constraints on the wallets that an insert can
-- violate.
use Prim.Native.String.{◌++◌}
use jungle_backend_challenge.Prelude.{
  ℕ, ◌&&◌, not, String, ◌==◌, Option, none, some, ◌∷◌, any, leb, if◌then◌else◌,
}
use jungle_backend_challenge.Prelude.Results.{ok}
use jungle_backend_challenge.Domain.Errors.{Outcome, Thrown, unprocessable, conflict}
use jungle_backend_challenge.Domain.Amount.{cents}
use jungle_backend_challenge.Domain.Money
use jungle_backend_challenge.Domain.Money.{MoneyProps, Money}
use jungle_backend_challenge.Domain.LedgerEntry.{credit}
use jungle_backend_challenge.Domain.WagerTransaction.{opening, processed}
use jungle_backend_challenge.Domain.Events.{wallet_balance_changed}
use jungle_backend_challenge.Database.Rows.{Db, WalletRow, WagerRow, numeric_limit}
use jungle_backend_challenge.Database.Tx.{
  Env, Tx, ◌>>=◌, ◌>>◌, pure, throw, lift, writes, clock, draw, attempt, transactional, refuse_if,
  unique_violation, check_violation, numeric_overflow,
}
use jungle_backend_challenge.Database.Tables.{has_key}
use jungle_backend_challenge.Wagering.Failures.{is_unique_violation}
use jungle_backend_challenge.Wagering.Repository.{wallet_key, insert_row}
use jungle_backend_challenge.Wagering.Repository.Movements.{
  LedgerInput, ledger_row, insert_ledger_row, outbox_row, insert_outbox_row,
}

-- `CreateWalletDto` with the correlation id.
pub record CreateInput : Type 0 where
  pub player_id : String
  pub initial_balance : MoneyProps
  pub correlation_id : Option String

pub record OpeningResult : Type 0 where
  pub wallet : WalletRow
  pub opening_transaction_id : Option String
  pub opening_entry_id : Option String
  pub outbox_event_id : Option String

unfoldable pub insert_wallet : WalletRow → Db → Outcome Db
insert_wallet row db = refuse_if (leb numeric_limit (cents row.balance_amount)) numeric_overflow (
    refuse_if (not (row.currency == row.balance_currency))
      (check_violation "ck_wallet_currency_match")
      (refuse_if (any (has_key wallet_key row.id) db.wallets) (unique_violation "wallets_pkey") (
        refuse_if (any (λ r. r.player_id == row.player_id && r.currency == row.currency) db.wallets)
          (unique_violation "uq_wallet_player_currency")
          (ok (record db { wallets = row ∷ db.wallets })))))

-- The row of a new wallet.
abbrev pub new_wallet : String → String → Money → ℕ → WalletRow
new_wallet id player balance now = record {
  id = id;
  player_id = player;
  currency = balance.currency;
  balance_amount = balance.amount;
  balance_currency = balance.currency;
  version = 1;
  created_at = now;
  updated_at = now;
}

-- The OPENING wager of a wallet.
abbrev pub opening_wager : WalletRow → Money → String → ℕ → WagerRow
opening_wager wallet balance id now = record {
  id = id;
  type = opening;
  status = processed;
  wallet_id = wallet.id;
  player_id = some wallet.player_id;
  round_id = none;
  game_id = none;
  provider_id = "internal:" ++ wallet.id;
  external_transaction_id = "opening:" ++ wallet.id;
  amount_amount = balance.amount;
  amount_currency = balance.currency;
  reference_external_transaction_id = none;
  payload_hash = "";
  response_payload = none;
  failure_code = none;
  processed_at = some now;
  reference_attempts = 0;
  reference = none;
  next_retry_at = none;
  idempotency_key = "opening:" ++ wallet.id;
}

abbrev pub nothing : Money → MoneyProps
nothing balance = record { amount = "0.00"; currency = balance.currency }

-- The entry of an opening: a credit from nothing to the balance.
abbrev pub opening_entry : WalletRow → Money → String → LedgerInput
opening_entry wallet balance tx_id = record {
  direction = credit;
  value = Money.to_json balance;
  balance_before = nothing balance;
  balance_after = Money.to_json balance;
  wallet_id = wallet.id;
  transaction_id = tx_id;
}

module _ {D : Type 0} (env : Env D) where
  -- The entry and the event of an opening that is not zero.
  unfoldable pub record_opening : WalletRow → Money → Option String → String → Tx OpeningResult
  record_opening wallet balance correlation_id tx_id = do
    entry_id ← draw env
    now ← clock
    writes (insert_ledger_row (ledger_row (opening_entry wallet balance tx_id) entry_id now))
    event_id ← draw env
    outbox_id ← draw env
    writes (
        insert_outbox_row (
          outbox_row
            (record {
              event_id = event_id;
              occurred_at = now;
              correlation_id = correlation_id;
              payload = wallet_balance_changed (record {
                wallet_id = wallet.id;
                player_id = wallet.player_id;
                currency = wallet.currency;
                wallet_version = wallet.version;
                direction = credit;
                value = Money.to_json balance;
                balance_before = nothing balance;
                balance_after = Money.to_json balance;
                transaction_id = tx_id;
              });
            })
            outbox_id now))
    pure (record {
      wallet = wallet;
      opening_transaction_id = some tx_id;
      opening_entry_id = some entry_id;
      outbox_event_id = some outbox_id;
    })

  unfoldable pub run_create : String → String → Money → Option String → Tx OpeningResult
  unfolding record_opening
  run_create id player balance correlation_id = do
    now ← clock
    let wallet = new_wallet id player balance now
    writes (insert_wallet wallet)
    if balance.amount == "0.00"
        then pure (record {
          wallet = wallet;
          opening_transaction_id = none;
          opening_entry_id = none;
          outbox_event_id = none;
        })
        else (do
          tx_id ← draw env
          writes (insert_row (opening_wager wallet balance tx_id now))
          record_opening wallet balance correlation_id tx_id)

  -- The `catch` of `create`.
  unfoldable pub handle_create_failure : CreateInput → Thrown → Tx OpeningResult
  handle_create_failure input e =
      if is_unique_violation e "uq_wallet_player_currency"
      then throw (
          conflict "WALLET_ALREADY_EXISTS" (
            "wallet already exists for player "
            ++ (input.player_id ++ (" in " ++ input.initial_balance.currency))))
      else if is_unique_violation e "uq_wager_idempotency_key"
      then throw (unprocessable "OPENING_IDEMPOTENCY_CONFLICT" none)
      else throw e

  -- `create` of the service, which returns the wallet of the result.
  unfoldable pub create_wallet : CreateInput → Tx WalletRow
  unfolding run_create handle_create_failure
  create_wallet input = do
    id ← draw env
    balance ← lift (Money.create env.dec input.initial_balance)
    result ←
        attempt (transactional (run_create id input.player_id balance input.correlation_id))
          (handle_create_failure input)
    pure result.wallet
