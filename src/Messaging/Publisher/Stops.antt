-- ===== src/Messaging/Publisher/Stops.antt =====
-- The end of the loop of src/messaging/outbox-publisher.ts: a shutdown that is signalled is seen.
use jungle_backend_challenge.Prelude.{
  ℕ, zero, suc, ◌+◌, ◌-◌, ◌≤◌, ◌<◌, ◌≡◌, refl, Bool, true, false, ◌||◌, Option, none, some, arith,
  if◌then◌else◌,
}
use jungle_backend_challenge.Prelude.Results.{Result, ok, err}
use jungle_backend_challenge.Database.Rows.{OutboxRow}
use jungle_backend_challenge.Messaging.SendErrors.{SendError}
use jungle_backend_challenge.Messaging.Outbox.{claim_due, lag}
use jungle_backend_challenge.Messaging.Jobs.{
  Outside, Station, PublishError, send_failed, database, Job, ◌>>=◌, pure, is_shutting_down,
}
use jungle_backend_challenge.Messaging.Publisher
use jungle_backend_challenge.Messaging.Publisher.{
  PublishOutcome, PublisherConfig, Stats, answered, as_failure, wrapped, send_unless, send_message,
  mark_if_sent, publish_unless, publish_claimed, publish_next, reschedule_after_failure,
  after_failure, claim_unless, claim_and_publish, injected, tally, next_round, drain_unless, drain,
  with_lag, cycle, run_loop,
}
use jungle_backend_challenge.Messaging.Publisher.Counts.{Counted, cycle-Counted}
use jungle_backend_challenge.Messaging.Publisher.Attempts.{IsFailure}
use jungle_backend_challenge.Messaging.Publisher.Looks.{
  IsLater, IsLater-refl, Passes, Passes-pure, Passes-query, Passes-bind, Passes-attempt,
  Passes-counted, Passes-transactional, Passes-is_shutting_down,
}

-- The loop has seen the shutdown, or threw the error of a statement that failed.
abbrev pub Stopped : Outside → Result PublishError Bool → Type 0
Stopped out (ok seen) = seen ≡ true
Stopped out (err e) = IsFailure out e

module _ (out : Outside) (k : ℕ) (signal : out.signalled k ≡ true) where
  Passes-wrapped : (row : OutboxRow) → Passes out k signal (wrapped out row)
  unfolding wrapped as_failure Publisher.deliver answered
  Passes-wrapped row = record { at = λ s. go s (out.fault row.event_id) (out.refusal s.sends _) }
    where
      go :
          (s : Station) (faulty : Bool) (answer : Option SendError)
          → IsLater out k signal s
              (as_failure out row
                (if faulty then (err injected, s) else answered out row answer s)).1
      go s true answer = IsLater-refl out k signal s
      go s false none = record { looks = omega arith; flag = λ h. h }
      go s false (some e) = record { looks = omega arith; flag = λ h. h }

  Passes-send_message : (row : OutboxRow) → Passes out k signal (send_message out row)
  unfolding send_message send_unless
  Passes-send_message row =
      Passes-bind out k signal _ _ (Passes-is_shutting_down out k signal) sends
    where
      sends : (stopping : Bool) → Passes out k signal (send_unless out row stopping)
      sends true = Passes-pure out k signal false
      sends false = Passes-wrapped row

  Passes-publish_next : Passes out k signal (publish_next out)
  unfolding publish_next publish_claimed publish_unless mark_if_sent
  Passes-publish_next = Passes-bind out k signal _ _ (Passes-query out k signal claim_due) claimed
    where
      marks : (row : OutboxRow) (sent : Bool) → Passes out k signal (mark_if_sent out row sent)
      marks row true =
          Passes-bind out k signal _ _ (Passes-query out k signal _)
            (λ _. Passes-pure out k signal _)
      marks row false = Passes-pure out k signal none

      publishes :
          (row : OutboxRow) (stopping : Bool)
          → Passes out k signal (publish_unless out row stopping)
      publishes row true = Passes-pure out k signal none
      publishes row false = Passes-bind out k signal _ _ (Passes-send_message row) (marks row)

      claimed : (row : Option OutboxRow) → Passes out k signal (publish_claimed out row)
      claimed none = Passes-pure out k signal none
      claimed (some row) =
          Passes-bind out k signal _ _ (Passes-is_shutting_down out k signal) (publishes row)

  module _ (cfg : PublisherConfig) where
    Passes-claim_and_publish : Passes out k signal (claim_and_publish out cfg)
    unfolding claim_and_publish claim_unless after_failure reschedule_after_failure
    Passes-claim_and_publish =
        Passes-bind out k signal _ _ (Passes-is_shutting_down out k signal) claims
      where
        recovers : (e : PublishError) → Passes out k signal (after_failure out cfg e)
        recovers (send_failed row reason message) =
            Passes-bind out k signal _ _ (Passes-query out k signal _)
              (λ _. Passes-pure out k signal _)
        recovers (database e) = Passes-pure out k signal none

        claims : (stopping : Bool) → Passes out k signal (claim_unless out cfg stopping)
        claims true = Passes-pure out k signal none
        claims false = Passes-counted out k signal _ (
            Passes-attempt out k signal _ _
              (Passes-transactional out k signal _ Passes-publish_next) recovers)

    Passes-drain : (left : ℕ) (stats : Stats) → Passes out k signal (drain out cfg left stats)
    unfolding drain drain_unless next_round
    Passes-drain zero stats = Passes-pure out k signal stats
    Passes-drain (suc left) stats =
        Passes-bind out k signal _ _ (Passes-is_shutting_down out k signal)
          (drains (λ stats'. Passes-drain left stats'))
      where
        rounds :
            ((stats' : Stats) → Passes out k signal (drain out cfg left stats'))
            → (outcome : Option PublishOutcome)
            → Passes out k signal (next_round out cfg stats (drain out cfg left) outcome)
        rounds ih none = Passes-pure out k signal stats
        rounds ih (some o) = ih (tally o stats)

        drains :
            ((stats' : Stats) → Passes out k signal (drain out cfg left stats'))
            → (stopping : Bool)
            → Passes out k signal (drain_unless out cfg stats (drain out cfg left) stopping)
        drains ih true = Passes-pure out k signal stats
        drains ih false = Passes-bind out k signal _ _ Passes-claim_and_publish (rounds ih)

    Passes-cycle : (batch_size : ℕ) → Passes out k signal (cycle out cfg batch_size)
    unfolding cycle with_lag
    Passes-cycle batch_size = Passes-bind out k signal _ _ (Passes-drain batch_size _) (λ stats.
        Passes-bind out k signal _ _ (Passes-query out k signal lag)
          (λ seconds. Passes-pure out k signal (stats, seconds)))

    -- From a station that has seen what was signalled before it.
    stops :
        (rounds batch_size : ℕ) (s : Station)
        → (k < s.looks → s.coordinator.shutting_down ≡ true)
        → k < rounds + s.looks
        → 1 ≤ rounds
        → Stopped out (run_loop out cfg batch_size rounds s).0
    unfolding run_loop is_shutting_down
    stops zero batch_size s seen enough one = absurd (omega arith)
    stops (suc rounds) batch_size s seen enough one =
        looked (s.coordinator.shutting_down || out.signalled s.looks)
          ((Passes-is_shutting_down out k signal).at s) (λ u. stops rounds batch_size u)
      where
        rest : (Stats × ℕ) → Job Bool
        rest stats = run_loop out cfg batch_size rounds

        cycled :
            (t : Station) (r : Result PublishError (Stats × ℕ) × Station)
            → Counted out cfg batch_size t r
            → Stopped out (run_loop out cfg batch_size rounds r.1).0
            → Stopped out (((λ _. r) >>= rest) t).0
        cycled t (ok stats, u) c h = h
        cycled t (err e, u) c h = c

        looked :
            (flag : Bool)
            → IsLater out k signal s (record s {
              coordinator = record s.coordinator { shutting_down = flag };
              looks = s.looks + 1;
            })
            → ((u : Station)
                → (k < u.looks → u.coordinator.shutting_down ≡ true)
                → k < rounds + u.looks
                → 1 ≤ rounds
                → Stopped out (run_loop out cfg batch_size rounds u).0)
            → Stopped out
                (elim flag as (λ _. Job Bool) [
                  | true ↦ pure true
                  | false ↦ cycle out cfg batch_size >>= rest
                ]
                  (record s {
                    coordinator = record s.coordinator { shutting_down = flag };
                    looks = s.looks + 1;
                  })).0
        looked true l ih = refl
        looked false l ih =
            let t : Station = record s {
              coordinator = record s.coordinator { shutting_down = false };
              looks = s.looks + 1;
            } in
            let before : s.looks < k = ground (arith, l.flag seen) in
            let c = (Passes-cycle batch_size).at t in
            cycled t (cycle out cfg batch_size t) (cycle-Counted out cfg batch_size t)
              (ih _ (c.flag (λ after. l.flag seen after)) (omega (arith, c.looks)) (omega arith))

    -- A shutdown that is signalled before a look which is still to come is seen within as many rounds
    -- as there are looks up to it, whatever the broker does, unless a statement on the database fails
    -- and the loop throws its error.
    pub run_loop-stops :
        (batch_size : ℕ) (s : Station)
        → s.looks ≤ k
        → Stopped out (run_loop out cfg batch_size (k + 1 - s.looks) s).0
    run_loop-stops batch_size s early =
        stops (k + 1 - s.looks) batch_size s (λ past. absurd (omega arith)) (omega arith)
          (omega arith)
