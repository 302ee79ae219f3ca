-- ===== src/Wagering/Effects.antt =====
-- How a command of src/wagering/process-wager.ts ends: the row that `insertPending` wrote gets its
-- status and its response, the events go to the outbox, and the caller gets the result.
use jungle_backend_challenge.Prelude.{
  ℕ, ◌+◌, false, String, Option, none, some, if◌then◌else◌, truthy,
}
use jungle_backend_challenge.Domain.Money.{MoneyProps, to_json}
use jungle_backend_challenge.Domain.LedgerEntry.{LedgerDirection}
use jungle_backend_challenge.Domain.Wallet.{Applied}
use jungle_backend_challenge.Domain.WagerTransaction.{
  WagerStatus, pending_reference, processed, rejected, loss,
}
use jungle_backend_challenge.Domain.Events.{
  EventPayload, WagerPayload, wallet_balance_changed, wager_processed, wager_rejected,
  wager_pending_reference,
}
use jungle_backend_challenge.Database.Rows.{ResultStatus, WalletView}
use jungle_backend_challenge.Database.Tx.{Env, Tx, ◌>>=◌, ◌>>◌, pure, clock, draw}
use jungle_backend_challenge.Wagering.Types.{SubmitInput, SubmitResult, response_of}
use jungle_backend_challenge.Wagering.Repository.{
  mark_processed, mark_rejected, set_reference, transition_to_pending_reference,
}
use jungle_backend_challenge.Wagering.Repository.Movements.{
  insert_outbox_event, apply_wallet_mutation, insert_ledger_entry,
}
use jungle_backend_challenge.Wagering.Payload.{make_result}

-- The payload of an event of the wager, with no reference and no failure code.
abbrev pub wager_payload : SubmitInput → String → String → WagerStatus → WagerPayload
wager_payload input tx_id wallet_id status = record {
  wager_transaction_id = tx_id;
  wallet_id = wallet_id;
  type = input.kind;
  status = status;
  amount = input.money;
  reference_external_transaction_id = none;
  reference_transaction_id = none;
  failure_code = none;
}

-- `if (referenceTransactionId) await this.repo.setReference(…)`
unfoldable pub set_reference_if : String → Option String → Tx (Unit {0})
set_reference_if tx_id none = pure tt
set_reference_if tx_id (some r) = set_reference tx_id r

-- `...(x ? { key: x } : {})`
abbrev pub if_truthy : Option String → Option String
if_truthy none = none
if_truthy (some s) = if truthy s then some s else none

module _ {D : Type 0} (env : Env D) where
  -- `insertOutboxEvent(em, new …(uuidv7(), new Date(), correlationId, payload))`
  unfoldable pub publish : SubmitInput → EventPayload → Tx (Unit {0})
  publish input payload = do
    event_id ← draw env
    now ← clock
    insert_outbox_event env (record {
      event_id = event_id;
      occurred_at = now;
      correlation_id = input.correlation_id;
      payload = payload;
    })

  -- The end of LOSS.
  unfoldable pub finish_loss : SubmitInput → String → String → Tx SubmitResult
  finish_loss input tx_id wallet_id = do
    let response = response_of tx_id ResultStatus.processed
    mark_processed tx_id response
    publish input
        (wager_processed (record (wager_payload input tx_id wallet_id processed) { type = loss }))
    pure (make_result response false none)

  -- A BET or WIN that is refused, for a wrong reference or for want of funds.
  unfoldable pub reject_balance_change : SubmitInput → String → String → String → Tx SubmitResult
  reject_balance_change input tx_id wallet_id code = do
    let response = record (response_of tx_id ResultStatus.rejected) { failure_code = some code }
    mark_rejected tx_id code response none
    publish input (
        wager_rejected
          (record (wager_payload input tx_id wallet_id rejected) { failure_code = some code }))
    pure (make_result response false none)

  -- `rejectReversal`
  unfoldable pub reject_reversal :
      SubmitInput → String → String → String → Option String → Option ℕ → Tx SubmitResult
  reject_reversal input tx_id wallet_id code reference reference_attempts = do
    set_reference_if tx_id (if_truthy reference)
    let response = record (response_of tx_id ResultStatus.rejected) {
      failure_code = some code;
      reference_transaction_id = if_truthy reference;
      reference_external_transaction_id = if_truthy input.reference_external_transaction_id;
    }
    mark_rejected tx_id code response reference_attempts
    publish input (
        wager_rejected (record (wager_payload input tx_id wallet_id rejected) {
          reference_transaction_id = if_truthy reference;
          reference_external_transaction_id = if_truthy input.reference_external_transaction_id;
          failure_code = some code;
        }))
    pure (make_result response false none)

  -- `markPendingReference`: the next attempt is due in a second.
  unfoldable pub mark_pending_reference : SubmitInput → String → String → Tx SubmitResult
  mark_pending_reference input tx_id wallet_id = do
    let response = record (response_of tx_id ResultStatus.pending) {
      reference_external_transaction_id = input.reference_external_transaction_id;
    }
    now ← clock
    transition_to_pending_reference tx_id (now + 1000000) 1 response
    publish input (
        wager_pending_reference (record (wager_payload input tx_id wallet_id pending_reference) {
          reference_external_transaction_id = input.reference_external_transaction_id;
        }))
    pure (make_result response false none)

  -- The new balance and the ledger entry of a movement.
  unfoldable pub store_movement :
      LedgerDirection → MoneyProps → Applied → String → String → Tx (Unit {0})
  store_movement direction value applied wallet_id tx_id = do
    apply_wallet_mutation wallet_id applied.wallet.balance.amount
    insert_ledger_entry env (record {
      direction = direction;
      value = value;
      balance_before = to_json applied.entry.balance_before;
      balance_after = to_json applied.entry.balance_after;
      wallet_id = wallet_id;
      transaction_id = tx_id;
    })

  -- The two events of a movement.
  unfoldable pub publish_movement :
      SubmitInput → LedgerDirection → Applied → String → WagerPayload → Tx (Unit {0})
  publish_movement input direction applied wallet_id payload = do
    publish input (
        wallet_balance_changed (record {
          wallet_id = wallet_id;
          player_id = input.player_id;
          currency = input.money.currency;
          wallet_version = applied.wallet.version;
          direction = direction;
          value = input.money;
          balance_before = to_json applied.entry.balance_before;
          balance_after = to_json applied.entry.balance_after;
          transaction_id = payload.wager_transaction_id;
        }))
    publish input (wager_processed payload)

  abbrev wallet_view : Applied → WalletView
  wallet_view applied = record {
    id = applied.wallet.id;
    balance = to_json applied.wallet.balance;
    version = applied.wallet.version;
  }

  -- A BET or WIN whose movement is stored.
  unfoldable pub finish_balance_change :
      SubmitInput → String → LedgerDirection → Applied → String → Tx SubmitResult
  finish_balance_change input tx_id direction applied wallet_id = do
    let response = record (response_of tx_id ResultStatus.processed) {
      balance = some (to_json applied.wallet.balance);
    }
    mark_processed tx_id response
    publish_movement input direction applied wallet_id
        (wager_payload input tx_id wallet_id processed)
    pure (make_result response false (some (wallet_view applied)))

  -- A REFUND or ROLLBACK whose movement is stored.
  unfoldable pub finish_reversal :
      SubmitInput → String → LedgerDirection → Applied → String → String → Tx SubmitResult
  finish_reversal input tx_id direction applied wallet_id reference = do
    set_reference tx_id reference
    let response = record (response_of tx_id ResultStatus.processed) {
      reference_transaction_id = some reference;
      reference_external_transaction_id = input.reference_external_transaction_id;
      balance = some (to_json applied.wallet.balance);
    }
    mark_processed tx_id response
    publish_movement input direction applied wallet_id
        (record (wager_payload input tx_id wallet_id processed) {
          reference_transaction_id = some reference;
          reference_external_transaction_id = input.reference_external_transaction_id;
        })
    pure (make_result response false (some (wallet_view applied)))
