-- ===== src/Messaging/Publisher/Claims.antt =====
-- `claimAndPublish` of src/messaging/outbox-publisher.ts: what one claim does to the outbox and to
-- the broker, however it ends.
use jungle_backend_challenge.Prelude.{refl, Bool, true, false, Option, none, some, subst, sym}
use jungle_backend_challenge.Prelude.Results.{Result, ok, err}
use jungle_backend_challenge.Database.Tx.{World}
use jungle_backend_challenge.Database.Tx
use jungle_backend_challenge.Messaging.Shutdown.{begin_work, end_work}
use jungle_backend_challenge.Messaging.Outbox.{mark_failed}
use jungle_backend_challenge.Messaging.SendErrors.Classes.{
  IsClassified, classify_send_error-IsClassified,
}
use jungle_backend_challenge.Messaging.Jobs.{
  Outside, Station, PublishError, send_failed, database, pure, attempt, counted, transactional,
  ended,
}
use jungle_backend_challenge.Messaging.Publisher.{
  PublishOutcome, published, failed, PublisherConfig, retry_delay, claim_unless, publish_next,
  reschedule_after_failure, after_failure, claim_and_publish,
}
use jungle_backend_challenge.Messaging.Publisher.Sends.{publish_next-Attempted, ended-Attempted}
use jungle_backend_challenge.Messaging.Publisher.Attempts.{
  IsQuiet, Attempted, Claimed, look-bind, query-bind, untouched,
}
use jungle_backend_challenge.Messaging.Publisher.PutOff.{retry_delay-IsPutOff}

module _ (out : Outside) where
  -- The `catch`.
  attempt-Claimed :
      (cfg : PublisherConfig) (s : Station)
      (r : Result PublishError (Option PublishOutcome) × Station)
      → Attempted out s r
      → (t : Station) → Claimed out cfg s (attempt (λ _. r) (after_failure out cfg) t)
  unfolding attempt after_failure reschedule_after_failure mark_failed Tx.◌>>=◌
  attempt-Claimed cfg s (ok none, u) a t = a
  attempt-Claimed cfg s (ok (some published), u) a t = a
  attempt-Claimed cfg s (ok (some failed), u) a t = absurd a
  attempt-Claimed cfg s (err (send_failed row reason message), u) a t =
      query-bind out (Claimed out cfg s)
        (mark_failed row.id (retry_delay cfg reason row.attempts) message) (λ _. pure (some failed))
        u
        (λ e failing. record {
          row = row;
          error = a.1.error;
          due = a.0;
          refused = a.1.refused;
          failure = failing;
          accepted = a.1.accepted;
          world = a.1.world;
        })
        (record {
          row = row;
          error = a.1.error;
          delay = retry_delay cfg reason row.attempts;
          due = a.0;
          refused = a.1.refused;
          reason = reason;
          classified =
              subst (IsClassified a.1.error) (sym a.1.for_reason)
                (classify_send_error-IsClassified a.1.error);
          put_off = retry_delay-IsPutOff cfg reason row.attempts;
          accepted = a.1.accepted;
          world = rw (← a.1.for_message) (rw a.1.world refl);
        })
  attempt-Claimed cfg s (err (database e), u) a t = a

  Claimed-coordinator :
      (cfg : PublisherConfig) (s : Station)
      (r : Result PublishError (Option PublishOutcome) × Station)
      → Claimed out cfg s r
      → Claimed out cfg s (r.0, record r.1 { coordinator = end_work r.1.coordinator })
  Claimed-coordinator cfg s (ok none, u) c = record { world = c.world; accepted = c.accepted }
  Claimed-coordinator cfg s (ok (some published), u) c = record {
    row = c.row;
    due = c.due;
    accepted = c.accepted;
    world = c.world;
  }
  Claimed-coordinator cfg s (ok (some failed), u) c = record {
    row = c.row;
    error = c.error;
    reason = c.reason;
    delay = c.delay;
    due = c.due;
    refused = c.refused;
    classified = c.classified;
    put_off = c.put_off;
    accepted = c.accepted;
    world = c.world;
  }
  Claimed-coordinator cfg s (err e, u) c = record {
    row = c.row;
    error = c.error;
    due = c.due;
    refused = c.refused;
    failure = c.failure;
    accepted = c.accepted;
    world = c.world;
  }

  pub claim_and_publish-Claimed :
      (cfg : PublisherConfig) (s : Station) → Claimed out cfg s (claim_and_publish out cfg s)
  unfolding claim_and_publish claim_unless counted transactional begin_work
  claim_and_publish-Claimed cfg s = look-bind out (Claimed out cfg s) (claim_unless out cfg) s go
    where
      go :
          (stopping : Bool) (t : Station)
          → IsQuiet s t
          → Claimed out cfg s (claim_unless out cfg stopping t)
      go true t q = untouched out q
      go false t q =
          let started : Station = record t { coordinator = begin_work t.coordinator } in
          let q' : IsQuiet s started = record { world = q.world; accepted = q.accepted } in
          Claimed-coordinator cfg s _ (
            attempt-Claimed cfg s (ended out started.world (publish_next out started))
              (ended-Attempted out s started (publish_next out started) q'
                (publish_next-Attempted out s started q'))
              started)
