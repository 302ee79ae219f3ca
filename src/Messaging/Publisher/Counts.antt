-- ===== src/Messaging/Publisher/Counts.antt =====
-- What `cycle` of src/messaging/outbox-publisher.ts returns.
use jungle_backend_challenge.Prelude.{
  ℕ, zero, suc, ◌+◌, ◌≤◌, ◌≡◌, ap, Bool, true, false, Option, none, some, List, subst, length, inl,
  inr, arith,
}
use jungle_backend_challenge.Prelude.Results.{Result, ok, err}
use jungle_backend_challenge.Database.Tx
use jungle_backend_challenge.Messaging.Outbox.{lag}
use jungle_backend_challenge.Messaging.Jobs.{
  EventMessage, Outside, Station, PublishError, Job, ◌>>=◌, pure,
}
use jungle_backend_challenge.Messaging.Publisher.{
  PublishOutcome, published, failed, PublisherConfig, claim_and_publish, Stats, tally, next_round,
  drain_unless, drain, with_lag, cycle,
}
use jungle_backend_challenge.Messaging.Publisher.Attempts.{
  IsFailure, Claimed, look-bind, query-bind,
}
use jungle_backend_challenge.Messaging.Publisher.Claims.{claim_and_publish-Claimed}

-- The statistics of a pass over at most so many rows, which started when the broker had
-- accepted so many messages.
pub record Adds (start : List EventMessage) (before : Stats) (rows : ℕ) (after : Stats)
    (t : Station) : Type 0 where
  pub sum :
      after.processed_rows + before.published_rows + before.failed_rows
      ≡ before.processed_rows + after.published_rows + after.failed_rows
  pub most : after.processed_rows ≤ before.processed_rows + rows
  pub accepted : after.published_rows + length start ≤ before.published_rows + length t.accepted

module _ (out : Outside) (cfg : PublisherConfig) where
  -- The statistics of the rounds add up, or a statement failed.
  abbrev Returns : List EventMessage → Stats → ℕ → Result PublishError Stats × Station → Type 0
  Returns start before rows (ok after, t) = Adds start before rows after t
  Returns start before rows (err e, t) = IsFailure out e

  -- So does what a pass over a batch returns.
  abbrev pub Counted : ℕ → Station → Result PublishError (Stats × ℕ) × Station → Type 0
  Counted batch_size s (ok (stats, seconds), t) =
      (stats.processed_rows ≡ stats.published_rows + stats.failed_rows)
      × (stats.processed_rows ≤ batch_size)
      × (stats.published_rows + length s.accepted ≤ length t.accepted)
  Counted batch_size s (err e, t) = IsFailure out e

  next_round-Returns :
      (s : Station) (before : Stats) (rows : ℕ) (rounds : Stats → Job Stats) (u : Station)
      (r : Result PublishError (Option PublishOutcome) × Station)
      → Claimed out cfg s r
      → ((stats : Stats) (t : Station) → Returns t.accepted stats rows (rounds stats t))
      → Returns s.accepted before (suc rows) (((λ _. r) >>= next_round out cfg before rounds) u)
  unfolding next_round tally
  next_round-Returns s before rows rounds u (ok none, t) c ih = elim c.accepted [
    | inl same ↦ record {
      sum = omega arith;
      most = omega arith;
      accepted = omega (arith, ap (length {0}) same);
    }
    | inr (row, due, more) ↦ record {
      sum = omega arith;
      most = omega arith;
      accepted = omega (arith, ap (length {0}) more);
    }
  ]
  next_round-Returns s before rows rounds u (ok (some published), t) c ih =
      go (rounds (tally published before) t) (ih (tally published before) t)
    where
      go :
          (r : Result PublishError Stats × Station)
          → Returns t.accepted (tally published before) rows r
          → Returns s.accepted before (suc rows) r
      go (ok after, v) a = record {
        sum = omega (arith, a.sum);
        most = omega (arith, a.most);
        accepted = omega (arith, a.accepted, ap (length {0}) c.accepted);
      }
      go (err e, v) a = a
  next_round-Returns s before rows rounds u (ok (some failed), t) c ih =
      go (rounds (tally failed before) t) (ih (tally failed before) t)
    where
      grown : length s.accepted ≤ length t.accepted
      grown = elim c.accepted [
        | inl same ↦ omega (arith, ap (length {0}) same)
        | inr more ↦ omega (arith, ap (length {0}) more)
      ]

      go :
          (r : Result PublishError Stats × Station)
          → Returns t.accepted (tally failed before) rows r
          → Returns s.accepted before (suc rows) r
      go (ok after, v) a = record {
        sum = omega (arith, a.sum);
        most = omega (arith, a.most);
        accepted = omega (arith, a.accepted, grown);
      }
      go (err e, v) a = a
  next_round-Returns s before rows rounds u (err e, t) c ih = c.failure

  drain_unless-Returns :
      (before : Stats) (rows : ℕ) (rounds : Stats → Job Stats) (stopping : Bool) (s : Station)
      → ((stats : Stats) (t : Station) → Returns t.accepted stats rows (rounds stats t))
      → Returns s.accepted before (suc rows) (drain_unless out cfg before rounds stopping s)
  unfolding drain_unless
  drain_unless-Returns before rows rounds true s ih = record {
    sum = omega arith;
    most = omega arith;
    accepted = omega arith;
  }
  drain_unless-Returns before rows rounds false s ih =
      next_round-Returns s before rows rounds s (claim_and_publish out cfg s)
        (claim_and_publish-Claimed out cfg s) ih

  drain-Returns :
      (rows : ℕ) (before : Stats) (s : Station)
      → Returns s.accepted before rows (drain out cfg rows before s)
  unfolding drain
  drain-Returns zero before s = record {
    sum = omega arith;
    most = omega arith;
    accepted = omega arith;
  }
  drain-Returns (suc rows) before s =
      look-bind out (Returns s.accepted before (suc rows))
        (drain_unless out cfg before (drain out cfg rows)) s
        λ stopping t q.
          subst
            (λ start.
              Returns start before (suc rows)
                (drain_unless out cfg before (drain out cfg rows) stopping t))
            q.accepted
            (drain_unless-Returns before rows (drain out cfg rows) stopping t
              (λ stats u. drain-Returns rows stats u))

  -- A pass returns unless a statement on the database fails, whose error it then throws. It returns
  -- statistics in which every processed row is published or failed, there are at most as many as the
  -- batch holds, and the broker has accepted a message for each row that counts as published.
  pub cycle-Counted :
      (batch_size : ℕ) (s : Station) → Counted batch_size s (cycle out cfg batch_size s)
  unfolding cycle with_lag lag Tx.◌>>=◌
  cycle-Counted batch_size s = go (drain out cfg batch_size _ s) (drain-Returns batch_size _ s)
    where
      go :
          (r : Result PublishError Stats × Station)
          → Returns s.accepted
              (record { processed_rows = 0; published_rows = 0; failed_rows = 0 })
              batch_size
              r
          → Counted batch_size s (((λ _. r) >>= with_lag out cfg) s)
      go (ok stats, t) a =
          query-bind out (Counted batch_size s) lag (λ seconds. pure (stats, seconds)) t
            (λ e failing. failing)
            (omega (arith, a.sum), omega (arith, a.most), omega (arith, a.accepted))
      go (err e, t) a = a
