-- ===== src/Tests/Runs.antt =====
-- Concrete runs.
use jungle_backend_challenge.Wagering.Failures.{
  matches_any, domain_error_message, is_transient_postgres_error, is_unique_violation,
  is_foreign_key_violation,
}
use jungle_backend_challenge.Wagering.Effects.{
  publish, store_movement, publish_movement, finish_balance_change,
}
use jungle_backend_challenge.Wagering.Payload.{normalize_wager_input, make_result}
use jungle_backend_challenge.Wagering.Repository.{
  insert_row, pending_row, insert_pending, update_wager, mark_processed, lock_wallet,
}
use jungle_backend_challenge.Wagering.Repository.Movements.{
  arithmetic_holds, insert_ledger_row, ledger_row, set_balance, apply_wallet_mutation, outbox_row,
  insert_outbox_row, insert_ledger_entry, insert_outbox_event,
}
use jungle_backend_challenge.Domain.LedgerEntry.{candidate, record_entry}
use jungle_backend_challenge.Domain.Wallet.{apply}
use jungle_backend_challenge.Domain.Amount.Print.{emit, show_decimals, show_cents}
use jungle_backend_challenge.Domain.Amount.{amount_pattern, currency_pattern, cents}
use jungle_backend_challenge.Domain.Money.{to_json, create, is_zero, is_negative}
use jungle_backend_challenge.Database.Tx.{transactional, attempt, ◌>>=◌, refuse_if}
use jungle_backend_challenge.Prelude.{none, some, false, ◌≡◌, refl}
use jungle_backend_challenge.Domain.WagerTransaction.{bet}
use jungle_backend_challenge.Database.Rows.{ResultStatus}
use jungle_backend_challenge.Prelude.Results.{ok, err}
use jungle_backend_challenge.Wagering.Types.{SubmitInput, SubmitResult}
use jungle_backend_challenge.Wagering.References.{wallet_of_row}
use jungle_backend_challenge.Wagering.ProcessWager.{
  execute, win_reference, process_balance_change, dispatch, pending_input, work,
  replay_from_persisted, handle_failure, submit,
}
use jungle_backend_challenge.Domain.Errors.{unprocessable}
use jungle_backend_challenge.Domain.Decimal.Exact.{exact}
use jungle_backend_challenge.Tests.Fixtures.{env, world, command}

-- A BET of 30 on 100.00.
abbrev pub bet_result : SubmitResult
bet_result = record {
  response = record {
    transaction_id = some "1-id";
    status = ResultStatus.processed;
    failure_code = none;
    balance = some (record { amount = "70.00"; currency = "BRL" });
    wallet = none;
    reference_external_transaction_id = none;
    reference_transaction_id = none;
    wager_transaction_id = none;
  };
  idempotent_replay = false;
  wager_transaction_id = some "1-id";
  wallet =
      some (record {
        id = "w1";
        balance = record { amount = "70.00"; currency = "BRL" };
        version = 2;
      });
}

pub bet_run : (execute env (command "k1" bet "30" none) world).0 ≡ ok bet_result
unfolding transactional attempt ◌>>=◌ refuse_if to_json create is_zero is_negative amount_pattern
    currency_pattern cents emit show_decimals show_cents apply candidate record_entry insert_row
    pending_row insert_pending update_wager mark_processed lock_wallet arithmetic_holds
    insert_ledger_row ledger_row set_balance apply_wallet_mutation outbox_row insert_outbox_row
    insert_ledger_entry insert_outbox_event normalize_wager_input make_result publish store_movement
    publish_movement finish_balance_change wallet_of_row win_reference execute
bet_run = refl

-- The command as `execute` normalises it.
abbrev pub bet_input : SubmitInput
bet_input = record (command "k1" bet "30" none) {
  money = record { amount = "30.00"; currency = "BRL" };
}

pub bet_normal : normalize_wager_input exact (command "k1" bet "30" none) ≡ ok bet_input
unfolding normalize_wager_input create amount_pattern currency_pattern cents emit show_decimals
    show_cents to_json
bet_normal = refl

-- A BET in a currency that the wallet does not have.
abbrev pub dollars : SubmitInput
dollars = record (command "k2" bet "30" none) {
  money = record { amount = "30.00"; currency = "USD" };
}

pub dollars_run :
    (execute env dollars world).0
    ≡ err (unprocessable "WALLET_NOT_FOUND" (some "no wallet for player p1 in USD"))
unfolding transactional attempt ◌>>=◌ refuse_if to_json create amount_pattern currency_pattern cents
    emit show_decimals show_cents insert_row pending_row insert_pending lock_wallet
    normalize_wager_input execute matches_any domain_error_message is_transient_postgres_error
    is_unique_violation is_foreign_key_violation process_balance_change dispatch pending_input work
    replay_from_persisted handle_failure submit
dollars_run = refl
