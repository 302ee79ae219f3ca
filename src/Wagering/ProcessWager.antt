-- ===== src/Wagering/ProcessWager.antt =====
-- src/wagering/process-wager.ts: `class ProcessWager`. Metrics and log lines are left out.
use Prim.Native.String.{◌++◌}
use jungle_backend_challenge.Prelude.{
  true, ◌&&◌, not, String, ◌==◌, Option, none, some, if◌then◌else◌, find,
}
use jungle_backend_challenge.Domain.Errors.{Thrown, unprocessable, infrastructure, failure}
use jungle_backend_challenge.Domain.Money
use jungle_backend_challenge.Domain.Money.{Money}
use jungle_backend_challenge.Domain.Wallet.{apply}
use jungle_backend_challenge.Domain.WagerTransaction.{
  WagerType, win, loss, refund, rollback, processed, present,
}
use jungle_backend_challenge.Database.Rows.{WalletRow, WagerRow}
use jungle_backend_challenge.Database.Tx.{
  Env, Tx, ◌>>=◌, ◌>>◌, pure, throw, lift, reads, clock, draw, transactional, attempt,
}
use jungle_backend_challenge.Wagering.Types.{SubmitInput, SubmitResult, same_type, same_status}
use jungle_backend_challenge.Wagering.Failures.{
  is_unique_violation, is_foreign_key_violation, is_transient_postgres_error, is_insufficient_funds,
}
use jungle_backend_challenge.Wagering.Payload.{
  normalize_wager_input, wager_payload_hash, normalize_persisted_response, make_result,
}
use jungle_backend_challenge.Wagering.Repository.{
  PendingInput, insert_pending, find_reference_by_provider_external,
  find_reversal_by_reference_type, lock_wallet, by_idempotency_key,
}
use jungle_backend_challenge.Wagering.Effects.{
  finish_loss, reject_balance_change, reject_reversal, mark_pending_reference, store_movement,
  finish_balance_change, finish_reversal,
}
use jungle_backend_challenge.Wagering.References.{
  no_wallet, no_wallet_for, wallet_of_row, valid_win_reference, valid_scope, reversal_direction,
  bet_direction, Resolved, resolve_reversal,
}

module _ {D : Type 0} (env : Env D) where
  unfoldable pub process_loss : SubmitInput → String → String → Tx SubmitResult
  process_loss input tx_id wallet_id = do
    row ← lock_wallet wallet_id input.player_id input.money.currency
    elim row [ none ↦ no_wallet_for input | some _ ↦ finish_loss env input tx_id wallet_id ]

  -- The `try` of `processBalanceChange`.
  unfoldable pub move_balance : SubmitInput → String → WalletRow → Tx SubmitResult
  unfolding bet_direction
  move_balance input tx_id row = do
    wallet ← wallet_of_row env row
    value ← lift (Money.create env.dec input.money)
    now ← clock
    let direction = bet_direction input.kind
    attempt
        (do
          applied ← lift (apply env.dec direction wallet value tx_id now)
          store_movement env direction (Money.to_json value) applied row.id tx_id
          finish_balance_change env input tx_id direction applied row.id)
        (λ e.
          if is_insufficient_funds e
          then reject_balance_change env input tx_id row.id "INSUFFICIENT_FUNDS"
          else throw e)

  -- `input.kind === 'WIN' && input.referenceExternalTransactionId`
  unfoldable pub win_reference : SubmitInput → Option String
  unfolding same_type
  win_reference input =
      if same_type input.kind win && present input.reference_external_transaction_id
      then input.reference_external_transaction_id
      else none

  -- The WIN goes on if its reference is a processed BET of the same scope.
  unfoldable pub checked_win : SubmitInput → String → WalletRow → Option WagerRow → Tx SubmitResult
  unfolding move_balance valid_win_reference
  checked_win input tx_id row reference =
      if valid_win_reference input row reference
      then move_balance input tx_id row
      else reject_balance_change env input tx_id row.id "REFERENCE_MISMATCH"

  unfoldable pub process_balance_change : SubmitInput → String → String → Tx SubmitResult
  unfolding checked_win
  process_balance_change input tx_id wallet_id = do
    found ← lock_wallet wallet_id input.player_id input.money.currency
    elim found [
      | none ↦ no_wallet_for input
      | some row ↦ elim (win_reference input) [
        | none ↦ move_balance input tx_id row
        | some external ↦ do
          reference ← find_reference_by_provider_external input.provider_id external
          checked_win input tx_id row reference
      ]
    ]

  -- The `try` of `applyResolvedReversal`.
  unfoldable pub move_reversal : SubmitInput → String → WalletRow → WagerRow → Tx SubmitResult
  unfolding reversal_direction
  move_reversal input tx_id row reference = do
    value ← lift (Money.create env.dec input.money)
    wallet ← wallet_of_row env row
    now ← clock
    let direction = reversal_direction input.kind reference.type
    attempt
        (do
          applied ← lift (apply env.dec direction wallet value tx_id now)
          store_movement env direction (Money.to_json value) applied row.id tx_id
          finish_reversal env input tx_id direction applied row.id reference.id)
        (λ e.
          if is_insufficient_funds e
          then reject_reversal env input tx_id row.id "REVERSAL_WOULD_OVERDRAW" none none
          else throw e)

  unfoldable pub apply_resolved_reversal :
      SubmitInput → String → WalletRow → WagerRow → Tx SubmitResult
  unfolding move_reversal valid_scope
  apply_resolved_reversal input tx_id row reference =
      if valid_scope input row reference
      then (do
        duplicate ← find_reversal_by_reference_type reference.id input.kind tx_id
        elim duplicate [
          | some _ ↦ reject_reversal env input tx_id row.id "REFERENCE_ALREADY_REVERSED" none none
          | none ↦ move_reversal input tx_id row reference
        ])
      else reject_reversal env input tx_id row.id "REFERENCE_MISMATCH" none none

  abbrev pub reference_required : Tx SubmitResult
  reference_required = throw (
      unprocessable "REFERENCE_REQUIRED"
        (some "REFUND and ROLLBACK require a referenceExternalTransactionId"))

  -- `processReversal` once the reference is resolved.
  unfoldable pub settle_reversal : SubmitInput → String → Resolved → Tx SubmitResult
  unfolding apply_resolved_reversal same_status
  settle_reversal input tx_id found = elim found.wallet_row [
    | none ↦ no_wallet ("wallet " ++ (input.wallet_id ++ " was not found"))
    | some row ↦ elim found.reference_row [
      | none ↦ mark_pending_reference env input tx_id row.id
      | some reference ↦
          if not found.provider_mismatch && not (same_status reference.status processed)
          then mark_pending_reference env input tx_id row.id
          else apply_resolved_reversal input tx_id row reference
    ]
  ]

  unfoldable pub process_reversal : SubmitInput → String → Tx SubmitResult
  unfolding settle_reversal resolve_reversal
  process_reversal input tx_id =
      if present input.reference_external_transaction_id
      then (do found ← resolve_reversal input; settle_reversal input tx_id found)
      else reference_required

  unfoldable pub dispatch : WagerType → SubmitInput → String → Tx SubmitResult
  unfolding process_loss process_reversal process_balance_change
  dispatch loss input tx_id = process_loss input tx_id input.wallet_id
  dispatch refund input tx_id = process_reversal input tx_id
  dispatch rollback input tx_id = process_reversal input tx_id
  dispatch _ input tx_id = process_balance_change input tx_id input.wallet_id

  unfoldable pub pending_input : SubmitInput → String → String → PendingInput
  pending_input input hash tx_id = record {
    id = tx_id;
    type = input.kind;
    wallet_id = input.wallet_id;
    player_id = input.player_id;
    round_id = input.round_id;
    game_id = input.game_id;
    provider_id = input.provider_id;
    external_transaction_id = input.external_transaction_id;
    amount = input.money;
    payload_hash = hash;
    idempotency_key = input.idempotency_key;
    reference_external_transaction_id = input.reference_external_transaction_id;
  }

  -- The `work` of `execute`.
  unfoldable pub work : SubmitInput → String → String → Tx SubmitResult
  unfolding dispatch pending_input
  work input hash tx_id = do
    insert_pending (pending_input input hash tx_id)
    dispatch input.kind input tx_id

  -- `replayFromPersisted` reads what is committed.
  unfoldable pub answer_from : String → Option WagerRow → Tx SubmitResult
  answer_from hash none = throw (failure "race winner row missing — aborting")
  answer_from hash (some row) = elim row.response_payload [
    | none ↦ throw (failure "race winner row missing — aborting")
    | some response ↦
        if row.payload_hash == hash
        then (do
          persisted ← lift (normalize_persisted_response response)
          pure (make_result persisted true none))
        else throw (
            unprocessable "IDEMPOTENCY_CONFLICT"
              (some "idempotency key reused with a different payload"))
  ]

  unfoldable pub replay_from_persisted : SubmitInput → String → Tx SubmitResult
  unfolding answer_from
  replay_from_persisted input hash = do
    row ← reads (λ db. find (by_idempotency_key input.idempotency_key) db.wagers)
    answer_from hash row

  -- The `catch` of `execute`.
  unfoldable pub handle_failure : SubmitInput → String → Thrown → Tx SubmitResult
  unfolding replay_from_persisted
  handle_failure input hash e =
      if is_unique_violation e "uq_wager_idempotency_key"
      then replay_from_persisted input hash
      else if is_unique_violation e "uq_wager_provider_external"
      then throw (
          unprocessable "EXTERNAL_TRANSACTION_CONFLICT"
            (some "provider transaction was already used"))
      else if is_foreign_key_violation e "wager_transactions_wallet_id_fkey"
      then no_wallet ("wallet " ++ (input.wallet_id ++ " was not found"))
      else if is_transient_postgres_error e
      then throw (infrastructure e)
      else throw e

  -- `execute` after the input is normalised.
  unfoldable pub submit : SubmitInput → Tx SubmitResult
  unfolding work handle_failure
  submit input = do
    tx_id ← draw env
    let hash = wager_payload_hash env.sha256 input
    attempt (transactional (work input hash tx_id)) (handle_failure input hash)

  -- `execute(input)`
  unfoldable pub execute : SubmitInput → Tx SubmitResult
  unfolding submit
  execute input = do normalized ← lift (normalize_wager_input env.dec input); submit normalized
