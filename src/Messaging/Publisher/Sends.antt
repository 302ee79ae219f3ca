-- ===== src/Messaging/Publisher/Sends.antt =====
-- The transaction of a claim in src/messaging/outbox-publisher.ts, from its send to its end.
use jungle_backend_challenge.Prelude.{
  ◌+◌, ◌≡◌, refl, sym, ap, subst, Bool, true, false, Option, none, some, ◌∷◌, ◌⊎◌, inl, inr,
  if◌then◌else◌,
}
use jungle_backend_challenge.Prelude.Results.{Result, ok, err}
use jungle_backend_challenge.Domain.Errors.{Thrown}
use jungle_backend_challenge.Database.Rows.{OutboxRow, Db}
use jungle_backend_challenge.Database.Tx.{World, Tx}
use jungle_backend_challenge.Database.Tx
use jungle_backend_challenge.Messaging.Outbox.{first_claimable, claim_due, mark_published}
use jungle_backend_challenge.Messaging.SendErrors.{SendError}
use jungle_backend_challenge.Messaging.Jobs.{
  Outside, Station, PublishError, send_failed, database, ◌>>=◌, pure, rolled_back, closed, ended,
}
use jungle_backend_challenge.Messaging.Publisher.{
  PublishOutcome, published, failed, event_message, injected, answered, deliver, as_failure,
  wrapped, send_unless, mark_if_sent, publish_unless, publish_claimed, send_message, publish_next,
}
use jungle_backend_challenge.Messaging.Publisher.Attempts.{
  IsQuiet, IsQuiet-trans, Due, IsUntouched, IsPublished, IsRefused, IsUnsent, Attempted, look-bind,
  query-bind, untouched,
}

module _ (out : Outside) where
  -- Once the event is sent or refused.
  abbrev Sent : OutboxRow → Station → Result PublishError Bool × Station → Type 0
  Sent row s (ok true, t) =
      (t.world ≡ s.world) × (t.accepted ≡ event_message out.iso row ∷ s.accepted)
  Sent row s (ok false, t) = IsQuiet s t
  Sent row s (err (send_failed r reason message), t) =
      (r ≡ row) × IsUnsent out row reason message s t
  Sent row s (err (database e), t) = ⊥

  abbrev Delivered : OutboxRow → Station → Result SendError (Unit {0}) × Station → Type 0
  Delivered row s (ok done, t) =
      (t.world ≡ s.world) × (t.accepted ≡ event_message out.iso row ∷ s.accepted)
  Delivered row s (err e, t) =
      IsRefused out row e
      × (t.world ≡ s.world)
      × ((t.accepted ≡ s.accepted) ⊎ (t.accepted ≡ event_message out.iso row ∷ s.accepted))

  deliver-Delivered :
      (row : OutboxRow) (s t : Station) → IsQuiet s t → Delivered row s (deliver out row t)
  unfolding deliver answered
  deliver-Delivered row s t q =
      go (out.fault row.event_id) refl (out.refusal t.sends (event_message out.iso row)) refl
    where
      go :
          (fault : Bool)
          → out.fault row.event_id ≡ fault
          → (refusal : Option SendError) → out.refusal t.sends (event_message out.iso row) ≡ refusal
          → Delivered row s (if fault then (err injected, t) else answered out row refusal t)
      go true f r e = (inl (f, refl), q.world, inl q.accepted)
      go false f none e = (q.world, ap (λ l. event_message out.iso row ∷ l) q.accepted)
      go false f (some error) e = (inr (t.sends, e), q.world, kept (out.kept t.sends))
        where
          kept :
              (b : Bool)
              → ((if b then event_message out.iso row ∷ t.accepted else t.accepted) ≡ s.accepted)
                ⊎ ((if b then event_message out.iso row ∷ t.accepted else t.accepted)
                    ≡ event_message out.iso row ∷ s.accepted)
          kept true = inr (ap (λ l. event_message out.iso row ∷ l) q.accepted)
          kept false = inl q.accepted

  as_failure-Sent :
      (row : OutboxRow) (s : Station) (r : Result SendError (Unit {0}) × Station)
      → Delivered row s r
      → Sent row s (as_failure out row r)
  unfolding as_failure
  as_failure-Sent row s (ok done, t) d = d
  as_failure-Sent row s (err e, t) d = (
    refl,
    record {
      error = e;
      refused = d.0;
      for_reason = refl;
      for_message = refl;
      world = d.1;
      accepted = d.2;
    },
  )

  wrapped-Sent : (row : OutboxRow) (s t : Station) → IsQuiet s t → Sent row s (wrapped out row t)
  unfolding wrapped
  wrapped-Sent row s t q = as_failure-Sent row s (deliver out row t) (deliver-Delivered row s t q)

  send_message-Sent :
      (row : OutboxRow) (s t : Station) → IsQuiet s t → Sent row s (send_message out row t)
  unfolding send_message send_unless
  send_message-Sent row s t q = look-bind out (Sent row s) (send_unless out row) t go
    where
      go :
          (stopping : Bool) (u : Station)
          → IsQuiet t u
          → Sent row s (send_unless out row stopping u)
      go true u q' = IsQuiet-trans q q'
      go false u q' = wrapped-Sent row s u (IsQuiet-trans q q')

  mark_if_sent-Attempted :
      (row : OutboxRow) (s : Station) (r : Result PublishError Bool × Station)
      → Due s row
      → Sent row s r
      → Attempted out s (((λ _. r) >>= mark_if_sent out row) s)
  unfolding mark_published Tx.◌>>=◌ mark_if_sent
  mark_if_sent-Attempted row s (ok true, t) due sent =
      query-bind out (Attempted out s) (mark_published row.id) (λ _. pure (some published)) t
        (λ e _. record { world = sent.0; accepted = inr (row, due, sent.1) })
        (record { row = row; due = due; accepted = sent.1; world = rw sent.0 refl })
  mark_if_sent-Attempted row s (ok false, t) due sent = untouched out sent
  mark_if_sent-Attempted row s (err (send_failed r reason message), t) due sent =
      subst (λ r. Due s r × IsUnsent out r reason message s t) (sym sent.0) (due, sent.1)
  mark_if_sent-Attempted row s (err (database e), t) due sent = absurd sent

  publish_claimed-Attempted :
      (row : OutboxRow) (s t : Station)
      → IsQuiet s t
      → Due s row
      → Attempted out s (publish_claimed out (some row) t)
  unfolding publish_claimed publish_unless
  publish_claimed-Attempted row s t q due =
      look-bind out (Attempted out s) (publish_unless out row) t go
    where
      go :
          (stopping : Bool) (u : Station)
          → IsQuiet t u
          → Attempted out s (publish_unless out row stopping u)
      go true u q' = untouched out (IsQuiet-trans q q')
      go false u q' =
          mark_if_sent-Attempted row s (send_message out row u) due
            (send_message-Sent row s u (IsQuiet-trans q q'))

  pub publish_next-Attempted : (s t : Station) → IsQuiet s t → Attempted out s (publish_next out t)
  unfolding publish_next claim_due Tx.◌>>=◌ publish_claimed
  publish_next-Attempted s t q =
      query-bind out (Attempted out s) claim_due (publish_claimed out) t
        (λ e _. record { world = q.world; accepted = inl q.accepted })
        (go (first_claimable t.world.now t.world.db.outbox) refl)
    where
      go :
          (claimed : Option OutboxRow)
          → first_claimable t.world.now t.world.db.outbox ≡ claimed
          → Attempted out s
              (publish_claimed out claimed (record t { statements = t.statements + 1 }))
      go none e = record { world = q.world; accepted = inl q.accepted }
      go (some row) e =
          publish_claimed-Attempted row s (record t { statements = t.statements + 1 })
            (record { world = q.world; accepted = q.accepted })
            (subst (λ (w : World). first_claimable w.now w.db.outbox ≡ some row) q.world e)

  -- The end of the transaction: what a lost commit has written is undone.
  undone :
      (s t u : Station) (db : Db)
      → IsQuiet s t
      → u.world ≡ record s.world { db = db }
      → (rolled_back t.world u).world ≡ s.world
  undone s t u db q e = rw (e, q.world) refl

  closed-untouched :
      (s t u : Station) (lost : Option Thrown)
      → IsQuiet s t
      → IsUntouched out s u
      → Attempted out s (closed {A = Option PublishOutcome} t.world none lost u)
  unfolding closed
  closed-untouched s t u none q a = record { world = a.world; accepted = a.accepted }
  closed-untouched s t u (some e) q a = record {
    world = undone s t u _ q a.world;
    accepted = a.accepted;
  }

  closed-published :
      (s t u : Station) (lost : Option Thrown)
      → IsQuiet s t
      → IsPublished out s u
      → Attempted out s (closed t.world (some published) lost u)
  unfolding closed
  closed-published s t u none q a = record {
    row = a.row;
    due = a.due;
    accepted = a.accepted;
    world = a.world;
  }
  closed-published s t u (some e) q a = record {
    world = undone s t u _ q a.world;
    accepted = inr (a.row, a.due, a.accepted);
  }

  pub ended-Attempted :
      (s t : Station) (r : Result PublishError (Option PublishOutcome) × Station)
      → IsQuiet s t
      → Attempted out s r
      → Attempted out s (ended out t.world r)
  unfolding ended
  ended-Attempted s t (ok none, u) q a = closed-untouched s t u (out.lost_commit u.transactions) q a
  ended-Attempted s t (ok (some published), u) q a =
      closed-published s t u (out.lost_commit u.transactions) q a
  ended-Attempted s t (ok (some failed), u) q a = absurd a
  ended-Attempted s t (err (send_failed row reason message), u) q a = (
    a.0,
    record {
      error = a.1.error;
      refused = a.1.refused;
      for_reason = a.1.for_reason;
      for_message = a.1.for_message;
      world = undone s t u _ q a.1.world;
      accepted = a.1.accepted;
    },
  )
  ended-Attempted s t (err (database e), u) q a = record {
    world = undone s t u _ q a.world;
    accepted = a.accepted;
  }
