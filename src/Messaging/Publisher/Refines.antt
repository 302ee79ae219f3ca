-- ===== src/Messaging/Publisher/Refines.antt =====
-- What src/messaging/outbox-publisher.ts promises, without attempts, times, transactions and the
-- shutdown: a set of events that wait, and messages that are sent while they wait.
use jungle_backend_challenge.Prelude.{
  ℕ, ◌≡◌, refl, sym, ap, ◌∙◌, subst, ◌⊎◌, inl, inr, Bool, Bool-cases, true, false, String, Option,
  none, some, List, [], ◌∷◌, map, update_where, Has, here, there, arith, if◌then◌else◌,
}
use jungle_backend_challenge.Prelude.Results.{Result, ok, err}
use jungle_backend_challenge.Database.Rows.{OutboxRow}
use jungle_backend_challenge.Database.Tables.{has_key}
use jungle_backend_challenge.Database.Tx.{World}
use jungle_backend_challenge.Messaging.Outbox.{
  outbox_id, is_pending, is_claimable, comes_before, first_claimable, published_row, failed_row,
}
use jungle_backend_challenge.Messaging.Jobs.{EventMessage, Outside, Station, PublishError}
use jungle_backend_challenge.Messaging.Publisher.{
  PublishOutcome, published, failed, PublisherConfig, event_message, cycle,
}
use jungle_backend_challenge.Messaging.Publisher.Attempts.{
  IsUntouched, IsStuck-IsUntouched, Claimed, Due,
}
use jungle_backend_challenge.Messaging.Publisher.Cycles.{first_claimable-Has}
use jungle_backend_challenge.Messaging.Publisher.Rounds.{cycle-keeps}

-- An event, with the one message that may be sent for it.
pub record Entry : Type 0 where
  pub id : String
  pub message : EventMessage
  pub waits : Bool

pub record Delivery : Type 0 where
  pub entries : List Entry
  pub sent : List EventMessage

abbrev pub settled : Entry → Entry
settled e = record e { waits = false }

abbrev pub entry_key : Entry → String
entry_key e = e.id

-- The message of an event that waits is sent, and the event may then be settled.
pub data Step : Delivery → Delivery → Type 0 where
  send :
      {d : Delivery} (e : Entry)
      → Has e d.entries
      → e.waits ≡ true
      → Step d (record d { sent = e.message ∷ d.sent })
  complete :
      {d : Delivery} (e : Entry)
      → Has e d.entries
      → e.waits ≡ true
      → Step d (record {
        entries = update_where (has_key entry_key e.id) settled d.entries;
        sent = e.message ∷ d.sent;
      })

pub data Steps : Delivery → Delivery → Type 0 where
  stay : {d : Delivery} → Steps d d
  step : {a b c : Delivery} → Steps a b → Step b c → Steps a c

Has-map : {A B : Type 0} (f : A → B) (x : A) (xs : List A) → Has x xs → Has (f x) (map f xs)
Has-map f x [] h = elim h [ ]
Has-map f x (y ∷ ys) (here e) = here (ap f e)
Has-map f x (y ∷ ys) (there h) = there (Has-map f x ys h)

first_claimable-is_pending :
    (now : ℕ) (rows : List OutboxRow) (r : OutboxRow)
    → first_claimable now rows ≡ some r
    → is_pending r.status ≡ true
unfolding first_claimable is_claimable
first_claimable-is_pending now [] r e = cc
first_claimable-is_pending now (x ∷ xs) r e =
    go (is_claimable now x) (first_claimable now xs) refl e (first_claimable-is_pending now xs)
  where
    same :
        (s : OutboxRow)
        → is_pending s.status ≡ true
        → ◌≡◌ {A = Option OutboxRow} (some s) (some r)
        → is_pending r.status ≡ true
    same s h e = cc

    go :
        (b : Bool) (rest : Option OutboxRow)
        → is_claimable now x ≡ b
        → (if b
            then elim rest [ none ↦ some x | some s ↦ if comes_before s x then some s else some x ]
            else rest)
          ≡ some r
        → ((s : OutboxRow) → rest ≡ some s → is_pending s.status ≡ true)
        → is_pending r.status ≡ true
    go false rest claim e k = k r e
    go true none claim e k = same x (ground (arith, claim)) e
    go true (some s) claim e k = elim (Bool-cases (comes_before s x)) [
      | inl first ↦ k r (cc)
      | inr later ↦ same x (ground (arith, claim)) cc
    ]

module _ (iso : ℕ → String) where
  abbrev pub view : OutboxRow → Entry
  view r = record { id = r.id; message = event_message iso r; waits = is_pending r.status }

  abbrev pub delivery : List OutboxRow → List EventMessage → Delivery
  delivery rows accepted = record { entries = map view rows; sent = accepted }

  view-published :
      (k : String) (now : ℕ) (rows : List OutboxRow)
      → map view (update_where (has_key outbox_id k) (published_row now) rows)
        ≡ update_where (has_key entry_key k) settled (map view rows)
  unfolding event_message
  view-published k now [] = refl
  view-published k now (r ∷ rs) = ground (arith, view-published k now rs)

  view-failed :
      (k : String) (now delay : ℕ) (message : String) (rows : List OutboxRow)
      → map view (update_where (has_key outbox_id k) (failed_row now delay message) rows)
        ≡ map view rows
  unfolding event_message
  view-failed k now delay message [] = refl
  view-failed k now delay message (r ∷ rs) = ground (arith, view-failed k now delay message rs)

module _ (out : Outside) (cfg : PublisherConfig) where
  -- The abstract view of a station.
  abbrev pub seen : Station → Delivery
  seen s = delivery out.iso s.world.db.outbox s.accepted

  seen_as :
      (start : Delivery) (t : Station) (rows : List OutboxRow) (accepted : List EventMessage)
      → t.world.db.outbox ≡ rows
      → t.accepted ≡ accepted
      → Steps start (delivery out.iso rows accepted)
      → Steps start (seen t)
  seen_as start t rows accepted e a p =
      subst (λ d. Steps start d)
        (ap (λ l. delivery out.iso l accepted) (sym e)
          ∙ ap (λ l. delivery out.iso t.world.db.outbox l) (sym a))
        p

  Due-waits :
      (s : Station) (row : OutboxRow)
      → Due s row
      → Has (view out.iso row) (map (view out.iso) s.world.db.outbox)
        × (is_pending row.status ≡ true)
  Due-waits s row due = (
    Has-map (view out.iso) row _ (first_claimable-Has s.world.now s.world.db.outbox row due),
    first_claimable-is_pending s.world.now s.world.db.outbox row due,
  )

  untouched-Steps :
      (start : Delivery) (s t : Station)
      → IsUntouched out s t
      → Steps start (seen s)
      → Steps start (seen t)
  untouched-Steps start s t c p = elim c.accepted [
    | inl same ↦ seen_as start t _ _ (ap (λ (w : World). w.db.outbox) c.world) same p
    | inr (row, due, more) ↦
        seen_as start t _ _ (ap (λ (w : World). w.db.outbox) c.world) more
          (step p (send (view out.iso row) (Due-waits s row due).0 (Due-waits s row due).1))
  ]

  -- A due event whose send failed, which the broker may have accepted.
  refused-Steps :
      (start : Delivery) (s : Station) (row : OutboxRow) (accepted : List EventMessage)
      → Due s row
      → (accepted ≡ s.accepted) ⊎ (accepted ≡ event_message out.iso row ∷ s.accepted)
      → Steps start (seen s)
      → Steps start (delivery out.iso s.world.db.outbox accepted)
  refused-Steps start s row accepted due (inl same) p =
      subst (λ l. Steps start (delivery out.iso s.world.db.outbox l)) (sym same) p
  refused-Steps start s row accepted due (inr more) p =
      subst (λ l. Steps start (delivery out.iso s.world.db.outbox l)) (sym more)
        (step p (send (view out.iso row) (Due-waits s row due).0 (Due-waits s row due).1))

  Claimed-Steps :
      (start : Delivery) (s : Station) (r : Result PublishError (Option PublishOutcome) × Station)
      → Claimed out cfg s r
      → Steps start (seen s)
      → Steps start (seen r.1)
  Claimed-Steps start s (ok none, t) c p = untouched-Steps start s t c p
  Claimed-Steps start s (ok (some published), t) c p =
      seen_as start t _ _ (ap (λ (w : World). w.db.outbox) c.world) c.accepted (
        subst
          (λ l.
            Steps start (record { entries = l; sent = event_message out.iso c.row ∷ s.accepted }))
          (sym (view-published out.iso c.row.id s.world.now s.world.db.outbox))
          (step p (
            complete (view out.iso c.row) (Due-waits s c.row c.due).0 (Due-waits s c.row c.due).1)))
  Claimed-Steps start s (ok (some failed), t) c p =
      seen_as start t _ _ (ap (λ (w : World). w.db.outbox) c.world) refl (
        subst (λ l. Steps start (record { entries = l; sent = t.accepted }))
          (sym (view-failed out.iso c.row.id _ _ _ s.world.db.outbox))
          (refused-Steps start s c.row t.accepted c.due c.accepted p))
  Claimed-Steps start s (err e, t) c p = untouched-Steps start s t (IsStuck-IsUntouched out c) p

  -- A pass over the outbox, whatever the database, the broker and the shutdown do, is a sequence of
  -- steps of the abstract delivery: it sends messages of waiting events only, each event always
  -- with the same message, and settles an event only in the step that sends its message.
  pub cycle-Steps :
      (batch_size : ℕ) (s : Station) → Steps (seen s) (seen (cycle out cfg batch_size s).1)
  cycle-Steps batch_size s =
      cycle-keeps out cfg (λ t. Steps (seen s) (seen t))
        (λ t u q p. seen_as (seen s) u _ _ (ap (λ (w : World). w.db.outbox) q.world) q.accepted p)
        (λ t r c p. Claimed-Steps (seen s) t r c p) batch_size s stay
