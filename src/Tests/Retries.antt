-- ===== src/Tests/Retries.antt =====
-- A REFUND that waits for its reference, and runs of the worker on it.
use jungle_backend_challenge.Wagering.Types.{same_status}
use jungle_backend_challenge.Wagering.Repository.{
  lock_wallet_by_id, find_reference_by_provider_external, find_reference_by_external, least_id,
  update_pending_retry, update_wager,
}
use jungle_backend_challenge.Wagering.References.{resolve_reversal, resolve_reference}
use jungle_backend_challenge.Prelude.{some, ◌∷◌, [], ◌≡◌, refl}
use jungle_backend_challenge.Prelude.Results.{ok}
use jungle_backend_challenge.Domain.WagerTransaction.{refund, pending_reference}
use jungle_backend_challenge.Database.Rows.{WagerRow}
use jungle_backend_challenge.Database.Tx.{World, ◌>>=◌, pure, writes, transactional}
use jungle_backend_challenge.Wagering.PendingReferenceWorker.{
  RetryConfig, rescheduled, Counts, process_one, process_batch, settle, reschedule, delay_seconds,
  input_from_row, find_pending_reference, process_next, count, first_due,
}
use jungle_backend_challenge.Tests.Fixtures.{env, world, opened, opening_row}

abbrev pub waiting_row : WagerRow
waiting_row = record opening_row {
  id = "t5";
  type = refund;
  status = pending_reference;
  provider_id = "prov";
  external_transaction_id = "x5";
  reference_external_transaction_id = some "x4";
  reference_attempts = 1;
  next_retry_at = some 4000;
  idempotency_key = "k5";
}

abbrev pub waiting_world : World
waiting_world = record world { db = record opened { wagers = waiting_row ∷ opening_row ∷ [] } }

abbrev pub retry_config : RetryConfig
retry_config = record { max_attempts = 8; base_seconds = 1; max_seconds = 60 }

abbrev pub no_rows : Counts
no_rows = record { resolved_rows = 0; rejected_rows = 0; rescheduled_rows = 0 }

abbrev pub one_rescheduled : Counts
one_rescheduled = record { resolved_rows = 0; rejected_rows = 0; rescheduled_rows = 1 }

pub retry_run : (process_one env retry_config waiting_row waiting_world).0 ≡ ok rescheduled
unfolding ◌>>=◌ pure process_one settle reschedule delay_seconds input_from_row resolve_reversal
    resolve_reference lock_wallet_by_id find_reference_by_provider_external
    find_reference_by_external least_id update_pending_retry update_wager writes same_status
retry_run = refl

pub batch_run : (process_batch env retry_config 10 no_rows waiting_world).0 ≡ ok one_rescheduled
unfolding ◌>>=◌ pure process_one settle reschedule delay_seconds input_from_row resolve_reversal
    resolve_reference lock_wallet_by_id find_reference_by_provider_external
    find_reference_by_external least_id update_pending_retry update_wager writes same_status
    transactional find_pending_reference process_next process_batch count first_due
batch_run = refl
