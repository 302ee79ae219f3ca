-- ===== src/Wagering/PendingReferenceWorker.antt =====
-- src/wagering/pending-reference.worker.ts: `class PendingReferenceWorker`, and `findPendingReferences`
-- of src/wagering/wager.repository.ts. Rows that another worker has locked do not arise here.
use Prim.Native.String.{◌++◌}
use jungle_backend_challenge.Prelude.{
  ℕ, zero, suc, ◌+◌, ◌-◌, ◌*◌, ◌^◌, min, Bool, false, ◌&&◌, not, String, Option, none, some, List,
  [], ◌∷◌, leb, ltb, if◌then◌else◌,
}
use jungle_backend_challenge.Domain.WagerTransaction.{present, pending_reference, processed}
use jungle_backend_challenge.Database.Rows.{WagerRow, WalletRow, ResultStatus}
use jungle_backend_challenge.Database.Tx.{Env, Tx, ◌>>=◌, ◌>>◌, pure, reads, clock, transactional}
use jungle_backend_challenge.Wagering.Types.{SubmitInput, SubmitResult, same_status}
use jungle_backend_challenge.Wagering.Repository.{update_pending_retry}
use jungle_backend_challenge.Wagering.Effects.{reject_reversal}
use jungle_backend_challenge.Wagering.References.{Resolved, resolve_reversal}
use jungle_backend_challenge.Wagering.ProcessWager.{apply_resolved_reversal}

-- The options with their defaults filled in.
pub record RetryConfig : Type 0 where
  pub max_attempts : ℕ
  pub base_seconds : ℕ
  pub max_seconds : ℕ

pub data RetryOutcome : Type 0 where
  resolved rejected rescheduled : RetryOutcome

or_empty : Option String → String
or_empty none = ""
or_empty (some s) = s

unfoldable pub input_from_row : WagerRow → SubmitInput
unfolding or_empty
input_from_row row = record {
  idempotency_key = "pending-reference:" ++ row.id;
  provider_id = row.provider_id;
  external_transaction_id = row.external_transaction_id;
  player_id = or_empty row.player_id;
  wallet_id = row.wallet_id;
  round_id = or_empty row.round_id;
  game_id = or_empty row.game_id;
  kind = row.type;
  money = record { amount = row.amount_amount; currency = row.amount_currency };
  reference_external_transaction_id = row.reference_external_transaction_id;
  correlation_id = none;
}

-- `next_retry_at <= now()`, which a row without the time does not pass.
is_due : ℕ → WagerRow → Bool
unfolding same_status
is_due now row =
    same_status row.status pending_reference
    && elim row.next_retry_at [ none ↦ false | some at ↦ leb at now ]

retry_time : WagerRow → ℕ
retry_time row = elim row.next_retry_at [ none ↦ 0 | some at ↦ at ]

-- The first of the due rows by their time, `ORDER BY next_retry_at LIMIT 1`.
unfoldable pub first_due : ℕ → List WagerRow → Option WagerRow
unfolding is_due retry_time
first_due now [] = none
first_due now (r ∷ rs) =
    let rest = first_due now rs in
    if is_due now r
    then elim rest [
      | none ↦ some r
      | some s ↦ if ltb (retry_time s) (retry_time r) then some s else some r
    ]
    else rest

unfoldable pub find_pending_reference : Tx (Option WagerRow)
unfolding first_due
find_pending_reference = do now ← clock; reads (λ db. first_due now db.wagers)

-- `Math.min(baseSeconds * 2 ** (nextAttempt - 1), maxSeconds)`
unfoldable pub delay_seconds : RetryConfig → ℕ → ℕ
delay_seconds cfg next_attempt = min (cfg.base_seconds * 2 ^ (next_attempt - 1)) cfg.max_seconds

unfoldable pub outcome_of : SubmitResult → RetryOutcome
outcome_of result = elim result.response.status [ ResultStatus.processed ↦ resolved | _ ↦ rejected ]

module _ {D : Type 0} (env : Env D) where
  -- `rejectReversal` with the code, and the attempts at their maximum.
  unfoldable pub give_up : RetryConfig → WagerRow → String → String → Tx RetryOutcome
  give_up cfg row wallet_id code = do
    result ←
        reject_reversal env (input_from_row row) row.id wallet_id code none (some cfg.max_attempts)
    pure rejected

  -- The next attempt, or the end of the attempts.
  unfoldable pub reschedule : RetryConfig → WagerRow → WalletRow → Tx RetryOutcome
  unfolding give_up delay_seconds
  reschedule cfg row wallet =
      if leb cfg.max_attempts row.reference_attempts
      then give_up cfg row wallet.id "REFERENCE_NOT_FOUND"
      else (do
        now ← clock
        update_pending_retry row.id (now + delay_seconds cfg (row.reference_attempts + 1) * 1000000)
            (row.reference_attempts + 1)
        pure rescheduled)

  -- `processOne` once the reversal is resolved.
  unfoldable pub settle : RetryConfig → WagerRow → Resolved → Tx RetryOutcome
  unfolding give_up reschedule outcome_of same_status
  settle cfg row found = elim found.wallet_row [
    | none ↦ give_up cfg row row.wallet_id "WALLET_NOT_FOUND"
    | some wallet ↦ elim found.reference_row [
      | none ↦ reschedule cfg row wallet
      | some reference ↦
          if found.provider_mismatch
          then (do
            result ← apply_resolved_reversal env (input_from_row row) row.id wallet reference
            pure rejected)
          else if not (same_status reference.status processed)
          then reschedule cfg row wallet
          else (do
            result ← apply_resolved_reversal env (input_from_row row) row.id wallet reference
            pure (outcome_of result))
    ]
  ]

  unfoldable pub process_one : RetryConfig → WagerRow → Tx RetryOutcome
  unfolding settle give_up
  process_one cfg row =
      if present row.reference_external_transaction_id
      then (do found ← resolve_reversal (input_from_row row); settle cfg row found)
      else give_up cfg row row.wallet_id "REFERENCE_NOT_FOUND"

  -- One transaction of the loop: the outcome of the first due row, if there is one.
  unfoldable pub process_next : RetryConfig → Tx (Option RetryOutcome)
  unfolding process_one find_pending_reference
  process_next cfg = transactional (do
    due ← find_pending_reference
    elim due [
      | none ↦ pure none
      | some row ↦ do outcome ← process_one cfg row; pure (some outcome)
    ])

-- What `processBatch` returns.
pub record Counts : Type 0 where
  pub resolved_rows : ℕ
  pub rejected_rows : ℕ
  pub rescheduled_rows : ℕ

unfoldable pub count : RetryOutcome → Counts → Counts
count resolved c = record c { resolved_rows = c.resolved_rows + 1 }
count rejected c = record c { rejected_rows = c.rejected_rows + 1 }
count rescheduled c = record c { rescheduled_rows = c.rescheduled_rows + 1 }

-- The loop of `processBatch`, which runs at most as often as rows are left in the batch.
unfoldable pub process_batch : {D : Type 0} → Env D → RetryConfig → ℕ → Counts → Tx Counts
unfolding process_next count
process_batch env cfg zero counts = pure counts
process_batch env cfg (suc left) counts = do
  outcome ← process_next env cfg
  elim outcome [ none ↦ pure counts | some o ↦ process_batch env cfg left (count o counts) ]
