-- ===== src/Messaging/Publisher/Rounds.antt =====
-- The rounds of `cycle` in src/messaging/outbox-publisher.ts: what every claim keeps, a pass keeps.
use jungle_backend_challenge.Prelude.{ℕ, zero, suc, refl, Bool, true, false, Option, none, some}
use jungle_backend_challenge.Prelude.Results.{Result, ok, err}
use jungle_backend_challenge.Database.Tx.{World}
use jungle_backend_challenge.Database.Tx
use jungle_backend_challenge.Messaging.Outbox.{lag}
use jungle_backend_challenge.Messaging.Jobs.{Outside, Station, PublishError, Job, ◌>>=◌, pure}
use jungle_backend_challenge.Messaging.Publisher.{
  PublishOutcome, PublisherConfig, claim_and_publish, Stats, tally, next_round, drain_unless, drain,
  with_lag, cycle,
}
use jungle_backend_challenge.Messaging.Publisher.Attempts.{IsQuiet, Claimed, look-bind, query-bind}
use jungle_backend_challenge.Messaging.Publisher.Claims.{claim_and_publish-Claimed}

module _ (out : Outside) (cfg : PublisherConfig) where
  -- A pass keeps what a look and a claim keep.
  module _ (P : Station → Type 0) (quiet : (s t : Station) → IsQuiet s t → P s → P t)
      (claim : (s : Station) (r : Result PublishError (Option PublishOutcome) × Station)
        → Claimed out cfg s r
        → P s
        → P r.1) where
    next_round-keeps :
        (stats : Stats) (rounds : Stats → Job Stats) (s : Station)
        (r : Result PublishError (Option PublishOutcome) × Station)
        → P r.1
        → ((stats' : Stats) (t : Station) → P t → P (rounds stats' t).1)
        → P (((λ _. r) >>= next_round out cfg stats rounds) s).1
    unfolding next_round
    next_round-keeps stats rounds s (ok none, t) p ih = p
    next_round-keeps stats rounds s (ok (some o), t) p ih = ih (tally o stats) t p
    next_round-keeps stats rounds s (err e, t) p ih = p

    drain_unless-keeps :
        (stats : Stats) (rounds : Stats → Job Stats) (stopping : Bool) (s : Station)
        → P s
        → ((stats' : Stats) (t : Station) → P t → P (rounds stats' t).1)
        → P (drain_unless out cfg stats rounds stopping s).1
    unfolding drain_unless
    drain_unless-keeps stats rounds true s p ih = p
    drain_unless-keeps stats rounds false s p ih =
        next_round-keeps stats rounds s (claim_and_publish out cfg s)
          (claim s _ (claim_and_publish-Claimed out cfg s) p) ih

    drain-keeps : (left : ℕ) (stats : Stats) (s : Station) → P s → P (drain out cfg left stats s).1
    unfolding drain
    drain-keeps zero stats s h = h
    drain-keeps (suc left) stats s h =
        look-bind out (λ (r : Result PublishError Stats × Station). P r.1)
          (drain_unless out cfg stats (drain out cfg left)) s
          λ stopping t q.
            drain_unless-keeps stats (drain out cfg left) stopping t (quiet s t q h)
              (λ stats' u p. drain-keeps left stats' u p)

    pub cycle-keeps : (batch_size : ℕ) (s : Station) → P s → P (cycle out cfg batch_size s).1
    unfolding cycle with_lag lag Tx.◌>>=◌
    cycle-keeps batch_size s h = go (drain out cfg batch_size _ s) (drain-keeps batch_size _ s h)
      where
        go :
            (r : Result PublishError Stats × Station)
            → P r.1
            → P (((λ _. r) >>= with_lag out cfg) s).1
        go (ok stats, t) p =
            query-bind out (λ (r : Result PublishError (Stats × ℕ) × Station). P r.1) lag
              (λ seconds. pure (stats, seconds)) t
              (λ e failing. quiet t _ (record { world = refl; accepted = refl }) p)
              (quiet t _ (record { world = refl; accepted = refl }) p)
        go (err e, t) p = p
