-- ===== src/Messaging/Publisher.antt =====
-- src/messaging/outbox-publisher.ts: `class OutboxPublisher`. Metrics and log lines are left out.
pub mod PutOff
pub mod Attempts
mod Sends
pub mod Claims
mod Rounds
pub mod Cycles
pub mod Counts
pub mod Groups
pub mod Refines
mod Looks
pub mod Stops
use jungle_backend_challenge.Prelude.{
  ℕ, zero, suc, ◌+◌, Bool, true, false, ◌&&◌, String, ◌==◌, Option, none, some, ◌∷◌, leb,
  if◌then◌else◌,
}
use jungle_backend_challenge.Prelude.Results.{Result, ok, err}
use jungle_backend_challenge.Domain.Events.{IntegrationEvent}
use jungle_backend_challenge.Domain.Events.Envelope.{event_json}
use jungle_backend_challenge.Domain.CanonicalJson.{
  Json, null, bool, str, num, arr, obj, Fields, end, field, property, text_property,
}
use jungle_backend_challenge.Database.Rows.{OutboxRow}
use jungle_backend_challenge.Messaging.Outbox.{claim_due, mark_published, mark_failed, lag}
use jungle_backend_challenge.Messaging.SendErrors.{
  SendError, SendFailureReason, network, throttle, permanent, text_of, classify_send_error,
  backoff_seconds,
}
use jungle_backend_challenge.Messaging.Jobs.{
  EventMessage, Outside, Station, PublishError, send_failed, database, Job, ◌>>=◌, pure, query,
  attempt, counted, is_shutting_down, transactional,
}

-- `parsed.data ?? {}`; a `data` that is no object has none of the properties.
unfoldable pub data_of : Fields → Fields
unfolding property
data_of fs = elim (property "data" fs) [ some (obj data_fields) ↦ data_fields | _ ↦ end ]

-- `aggregateIdFor`, of what JSON.parse makes of the payload
unfoldable pub aggregate_id_for : Json → String
unfolding property data_of
aggregate_id_for (obj fs) = elim (text_property "walletId" (data_of fs)) [
  | some id ↦ id
  | none ↦ elim (text_property "wagerTransactionId" (data_of fs)) [
    | some id ↦ id
    | none ↦ elim (text_property "aggregateId" fs) [ some id ↦ id | none ↦ "outbox-event" ]
  ]
]
aggregate_id_for _ = "outbox-event"

unfoldable pub event_message : (ℕ → String) → OutboxRow → EventMessage
event_message iso row = record {
  body = row.payload;
  deduplication_id = row.event_id;
  group_id = aggregate_id_for (event_json iso row.payload);
}

pub data PublishOutcome : Type 0 where
  published failed : PublishOutcome

-- The environment's OUTBOX_MAX_ATTEMPTS.
pub record PublisherConfig : Type 0 where
  pub max_attempts : ℕ

abbrev is_permanent : SendFailureReason → Bool
is_permanent permanent = true
is_permanent _ = false

-- A permanent failure with no attempt left waits for a day.
unfoldable pub retry_delay : PublisherConfig → SendFailureReason → ℕ → ℕ
unfolding backoff_seconds
retry_delay cfg reason attempts =
    if is_permanent reason && leb cfg.max_attempts (attempts + 1)
    then 86400
    else backoff_seconds reason attempts

-- `new Error('FAULT_INJECT_PRE_PUBLISH')`
abbrev pub injected : SendError
injected = record {
  name = some "Error";
  code = none;
  message = some "FAULT_INJECT_PRE_PUBLISH";
  http_status = none;
}

module _ (out : Outside) where
  -- What the broker's answer makes of the call.
  unfoldable pub answered :
      OutboxRow → Option SendError → Station → Result SendError (Unit {0}) × Station
  answered row none s =
      (ok tt, record s { sends = s.sends + 1; accepted = event_message out.iso row ∷ s.accepted })
  answered row (some e) s = (
    err e,
    record s {
      sends = s.sends + 1;
      accepted = if out.kept s.sends then event_message out.iso row ∷ s.accepted else s.accepted;
    },
  )

  -- The hook and the call of the broker in `sendMessage`.
  unfoldable pub deliver : OutboxRow → Station → Result SendError (Unit {0}) × Station
  unfolding answered
  deliver row s =
      if out.fault row.event_id
      then (err injected, s)
      else answered row (out.refusal s.sends (event_message out.iso row)) s

  -- The `catch` around the call.
  unfoldable pub as_failure :
      OutboxRow → Result SendError (Unit {0}) × Station → Result PublishError Bool × Station
  as_failure row (ok done, s) = (ok true, s)
  as_failure row (err e, s) = (err (send_failed row (classify_send_error e) (text_of e.message)), s)

  unfoldable pub wrapped : OutboxRow → Job Bool
  unfolding deliver as_failure
  wrapped row s = as_failure row (deliver row s)

  -- `sendMessage`: false if the shutdown came first.
  unfoldable pub send_unless : OutboxRow → Bool → Job Bool
  unfolding wrapped
  send_unless row true = pure false
  send_unless row false = wrapped row

  unfoldable pub send_message : OutboxRow → Job Bool
  unfolding send_unless is_shutting_down
  send_message row = do stopping ← is_shutting_down out; send_unless row stopping

  -- The transaction of `claimAndPublish`, from its end.
  unfoldable pub mark_if_sent : OutboxRow → Bool → Job (Option PublishOutcome)
  mark_if_sent row true = do marked ← query out (mark_published row.id); pure (some published)
  mark_if_sent row false = pure none

  unfoldable pub publish_unless : OutboxRow → Bool → Job (Option PublishOutcome)
  unfolding send_message mark_if_sent
  publish_unless row true = pure none
  publish_unless row false = do sent ← send_message row; mark_if_sent row sent

  unfoldable pub publish_claimed : Option OutboxRow → Job (Option PublishOutcome)
  unfolding publish_unless is_shutting_down
  publish_claimed none = pure none
  publish_claimed (some row) = do stopping ← is_shutting_down out; publish_unless row stopping

  unfoldable pub publish_next : Job (Option PublishOutcome)
  unfolding publish_claimed
  publish_next = do claimed ← query out claim_due; publish_claimed claimed

  unfoldable pub reschedule_after_failure :
      PublisherConfig → OutboxRow → SendFailureReason → String → Job (Unit {0})
  unfolding retry_delay
  reschedule_after_failure cfg row reason message =
      query out (mark_failed row.id (retry_delay cfg reason row.attempts) message)

  -- The `catch` around the transaction.
  unfoldable pub after_failure : PublisherConfig → PublishError → Job (Option PublishOutcome)
  unfolding reschedule_after_failure
  after_failure cfg (send_failed row reason message) = do
    done ← reschedule_after_failure cfg row reason message
    pure (some failed)
  after_failure cfg (database e) = pure none

  unfoldable pub claim_unless : PublisherConfig → Bool → Job (Option PublishOutcome)
  unfolding publish_next after_failure transactional attempt counted
  claim_unless cfg true = pure none
  claim_unless cfg false = counted (attempt (transactional out publish_next) (after_failure cfg))

  unfoldable pub claim_and_publish : PublisherConfig → Job (Option PublishOutcome)
  unfolding claim_unless is_shutting_down
  claim_and_publish cfg = do stopping ← is_shutting_down out; claim_unless cfg stopping

-- What `cycle` returns.
pub record Stats : Type 0 where
  pub processed_rows : ℕ
  pub published_rows : ℕ
  pub failed_rows : ℕ

unfoldable pub tally : PublishOutcome → Stats → Stats
tally published t = record t {
  processed_rows = t.processed_rows + 1;
  published_rows = t.published_rows + 1;
}
tally failed t = record t { processed_rows = t.processed_rows + 1; failed_rows = t.failed_rows + 1 }

module _ (out : Outside) (cfg : PublisherConfig) where
  -- A round of the `for` of `cycle`, before the rounds that are left.
  unfoldable pub next_round : Stats → (Stats → Job Stats) → Option PublishOutcome → Job Stats
  unfolding tally
  next_round stats rounds none = pure stats
  next_round stats rounds (some o) = rounds (tally o stats)

  unfoldable pub drain_unless : Stats → (Stats → Job Stats) → Bool → Job Stats
  unfolding claim_and_publish next_round
  drain_unless stats rounds true = pure stats
  drain_unless stats rounds false = do
    outcome ← claim_and_publish out cfg
    next_round stats rounds outcome

  -- The `for` of `cycle`, with as many rows as are left of OUTBOX_BATCH_SIZE.
  unfoldable pub drain : ℕ → Stats → Job Stats
  unfolding drain_unless is_shutting_down
  drain zero stats = pure stats
  drain (suc left) stats = do
    stopping ← is_shutting_down out
    drain_unless stats (drain left) stopping

  -- The statistics, and the lag that the gauge shows.
  unfoldable pub with_lag : Stats → Job (Stats × ℕ)
  with_lag stats = do seconds ← query out lag; pure (stats, seconds)

  unfoldable pub cycle : ℕ → Job (Stats × ℕ)
  unfolding drain with_lag
  cycle batch_size = do
    stats ← drain batch_size (record { processed_rows = 0; published_rows = 0; failed_rows = 0 })
    with_lag stats

  -- `runLoop` for at most as many rounds as the fuel: whether it has seen the shutdown.
  unfoldable pub run_loop : ℕ → ℕ → Job Bool
  unfolding cycle is_shutting_down
  run_loop batch_size zero = pure false
  run_loop batch_size (suc fuel) = do
    stopping ← is_shutting_down out
    elim stopping [
      | true ↦ pure true
      | false ↦ do stats ← cycle batch_size; run_loop batch_size fuel
    ]
