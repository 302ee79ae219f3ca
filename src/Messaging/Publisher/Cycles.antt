-- ===== src/Messaging/Publisher/Cycles.antt =====
-- `cycle` of src/messaging/outbox-publisher.ts: what a pass over the due rows keeps.
use jungle_backend_challenge.Prelude.{
  ℕ, ◌≡◌, refl, sym, ap, ◌∙◌, subst, Bool, true, false, String, ◌==◌, eq_iff, eq_refl, Option, none,
  some, List, [], ◌∷◌, map, any, ◌⊎◌, inl, inr, Bool-cases, update_where, arith, if◌then◌else◌, Has,
  here, there,
}
use jungle_backend_challenge.Prelude.Results.{Result, ok, err}
use jungle_backend_challenge.Domain.Events.{IntegrationEvent}
use jungle_backend_challenge.Database.Rows.{OutboxRow, OutboxStatus}
use jungle_backend_challenge.Database.Tx.{World}
use jungle_backend_challenge.Database.Tables.{has_key, IsKeyed, update_where-IsKeyed}
use jungle_backend_challenge.Messaging.Outbox.{
  outbox_id, first_claimable, is_claimable, comes_before, published_row, failed_row,
}
use jungle_backend_challenge.Messaging.SendErrors.{text_of}
use jungle_backend_challenge.Messaging.Jobs.{EventMessage, Outside, Station, PublishError}
use jungle_backend_challenge.Messaging.Publisher.{
  PublishOutcome, published, failed, PublisherConfig, event_message, cycle,
}
use jungle_backend_challenge.Messaging.Publisher.Attempts.{
  IsQuiet, IsUntouched, IsStuck-IsUntouched, Claimed,
}
use jungle_backend_challenge.Messaging.Publisher.Rounds.{cycle-keeps}

-- What no statement of the publisher changes.
abbrev pub contents : OutboxRow → String × String × IntegrationEvent
contents r = (r.id, r.event_id, r.payload)

map-update_where :
    (k : String) (f : OutboxRow → OutboxRow) (rows : List OutboxRow)
    → ((r : OutboxRow) → contents (f r) ≡ contents r)
    → map contents (update_where (has_key outbox_id k) f rows) ≡ map contents rows
map-update_where k f [] same = refl
map-update_where k f (x ∷ xs) same = ground (arith, same x, map-update_where k f xs same)

pub first_claimable-Has :
    (now : ℕ) (rows : List OutboxRow) (r : OutboxRow)
    → first_claimable now rows ≡ some r
    → Has r rows
unfolding first_claimable
first_claimable-Has now [] r e = cc
first_claimable-Has now (x ∷ xs) r e =
    go (is_claimable now x) (first_claimable now xs) e (first_claimable-Has now xs)
  where
    go :
        (b : Bool) (rest : Option OutboxRow)
        → (if b
            then elim rest [ none ↦ some x | some s ↦ if comes_before s x then some s else some x ]
            else rest)
          ≡ some r
        → ((s : OutboxRow) → rest ≡ some s → Has s xs)
        → Has r (x ∷ xs)
    go false rest e k = there (k r e)
    go true none e k = here cc
    go true (some s) e k = elim (Bool-cases (comes_before s x)) [
      | inl first ↦ there (k r (cc))
      | inr later ↦ here (cc)
    ]

Has-any :
    (x : OutboxRow) (rows : List OutboxRow) → Has x rows → any (has_key outbox_id x.id) rows ≡ true
Has-any x [] h = elim h [ ]
Has-any x (y ∷ ys) (here e) = rw (← e) (rw (eq_refl x.id) refl)
Has-any x (y ∷ ys) (there h) = ground (arith, Has-any x ys h)

not_later :
    (z y : OutboxRow) (zs : List OutboxRow)
    → any (has_key outbox_id z.id) zs ≡ false
    → z.id ≡ y.id
    → Has y zs
    → ⊥
not_later z y zs new same h =
    cc (Has-any y zs h, subst (λ k. any (has_key outbox_id k) zs ≡ false) same new)

-- Two rows of a keyed table with one key are one row.
Has-unique :
    (rows : List OutboxRow) (x y : OutboxRow)
    → IsKeyed outbox_id rows
    → Has x rows
    → Has y rows
    → x.id ≡ y.id
    → x ≡ y
Has-unique [] x y keyed h k same = elim h [ ]
Has-unique (z ∷ zs) x y keyed (here e) (here f) same = e ∙ sym f
Has-unique (z ∷ zs) x y keyed (here e) (there k) same =
    absurd (not_later z y zs keyed.0 (ap outbox_id (sym e) ∙ same) k)
Has-unique (z ∷ zs) x y keyed (there h) (here f) same =
    absurd (not_later z x zs keyed.0 (ap outbox_id (sym f) ∙ sym same) h)
Has-unique (z ∷ zs) x y keyed (there h) (there k) same = Has-unique zs x y keyed.1 h k same

module _ (iso : ℕ → String) where
  -- A row that says PUBLISHED has its event among those that the broker accepted.
  abbrev pub IsSent : List EventMessage → OutboxRow → OutboxStatus → Type 0
  IsSent accepted r OutboxStatus.published = Has (event_message iso r) accepted
  IsSent accepted r _ = Unit

  abbrev pub AllSent : List EventMessage → List OutboxRow → Type 0
  AllSent accepted [] = Unit
  AllSent accepted (r ∷ rs) = IsSent accepted r r.status × AllSent accepted rs

  IsSent-more :
      (m : EventMessage) (accepted : List EventMessage) (r : OutboxRow) (status : OutboxStatus)
      → IsSent accepted r status
      → IsSent (m ∷ accepted) r status
  IsSent-more m accepted r OutboxStatus.published h = there h
  IsSent-more m accepted r OutboxStatus.pending h = tt
  IsSent-more m accepted r OutboxStatus.failed h = tt

  AllSent-more :
      (m : EventMessage) (accepted : List EventMessage) (rows : List OutboxRow)
      → AllSent accepted rows
      → AllSent (m ∷ accepted) rows
  AllSent-more m accepted [] h = tt
  AllSent-more m accepted (r ∷ rs) h =
      (IsSent-more m accepted r r.status h.0, AllSent-more m accepted rs h.1)

  -- A mark changes the rows of one key; all others stay as they are.
  AllSent-update_where :
      (k : String) (f : OutboxRow → OutboxRow) (accepted : List EventMessage)
      (rows : List OutboxRow)
      → ((x : OutboxRow)
          → Has x rows
          → x.id ≡ k
          → IsSent accepted x x.status
          → IsSent accepted (f x) (f x).status)
      → AllSent accepted rows
      → AllSent accepted (update_where (has_key outbox_id k) f rows)
  AllSent-update_where k f accepted [] mark h = tt
  AllSent-update_where k f accepted (x ∷ xs) mark h =
      let rest = AllSent-update_where k f accepted xs (λ y m. mark y (there m)) h.1 in
      elim (Bool-cases (x.id == k)) [
        | inl e ↦ rw e (mark x (here refl) ((eq_iff x.id k).0 e) h.0, rest)
        | inr e ↦ rw e (h.0, rest)
      ]

-- Identifiers are a key, and a published row's event has reached the broker.
pub record IsDelivered (out : Outside) (s : Station) : Type 0 where
  pub keyed : IsKeyed outbox_id s.world.db.outbox
  pub sent : AllSent out.iso s.accepted s.world.db.outbox

-- What `cycle` may rely on in its loop: a step keeps `P`.
module _ (out : Outside) (cfg : PublisherConfig) where
  of_parts :
      (s : Station) (rows : List OutboxRow) (accepted : List EventMessage)
      → s.world.db.outbox ≡ rows
      → s.accepted ≡ accepted
      → IsKeyed outbox_id rows
      → AllSent out.iso accepted rows
      → IsDelivered out s
  of_parts s rows accepted e a keyed sent = record {
    keyed = subst (IsKeyed outbox_id) (sym e) keyed;
    sent =
        subst (λ l. AllSent out.iso l s.world.db.outbox) (sym a)
          (subst (AllSent out.iso accepted) (sym e) sent);
  }

  untouched-IsDelivered :
      (s t : Station) → IsUntouched out s t → IsDelivered out s → IsDelivered out t
  unfolding event_message
  untouched-IsDelivered s t c d = elim c.accepted [
    | inl same ↦
        of_parts t s.world.db.outbox s.accepted (ap (λ (w : World). w.db.outbox) c.world) same
          d.keyed d.sent
    | inr (row, due, more) ↦
        of_parts t s.world.db.outbox (event_message out.iso row ∷ s.accepted)
          (ap (λ (w : World). w.db.outbox) c.world) more d.keyed
          (AllSent-more out.iso _ s.accepted _ d.sent)
  ]

  -- What the broker has accepted by the way leaves what was sent.
  sent-still :
      (row : OutboxRow) (s : Station) (accepted : List EventMessage)
      → (accepted ≡ s.accepted) ⊎ (accepted ≡ event_message out.iso row ∷ s.accepted)
      → IsDelivered out s
      → AllSent out.iso accepted s.world.db.outbox
  sent-still row s accepted (inl same) d =
      subst (λ l. AllSent out.iso l s.world.db.outbox) (sym same) d.sent
  sent-still row s accepted (inr more) d =
      subst (λ l. AllSent out.iso l s.world.db.outbox) (sym more)
        (AllSent-more out.iso _ s.accepted _ d.sent)

  Claimed-IsDelivered :
      (s : Station) (r : Result PublishError (Option PublishOutcome) × Station)
      → Claimed out cfg s r
      → IsDelivered out s
      → IsDelivered out r.1
  unfolding event_message
  Claimed-IsDelivered s (ok none, t) c d = untouched-IsDelivered s t c d
  Claimed-IsDelivered s (ok (some published), t) c d =
      of_parts t _ _ (ap (λ (w : World). w.db.outbox) c.world) c.accepted
        (update_where-IsKeyed outbox_id (published_row s.world.now) (λ r. refl) c.row.id _ d.keyed)
        (AllSent-update_where out.iso c.row.id (published_row s.world.now) _ s.world.db.outbox
          (λ x m e h. here (
            ap (event_message out.iso) (
              Has-unique s.world.db.outbox x c.row d.keyed m
                (first_claimable-Has s.world.now s.world.db.outbox c.row c.due) e)))
          (AllSent-more out.iso _ s.accepted _ d.sent))
  Claimed-IsDelivered s (ok (some failed), t) c d =
      of_parts t _ t.accepted (ap (λ (w : World). w.db.outbox) c.world) refl
        (update_where-IsKeyed outbox_id _ (λ r. refl) c.row.id _ d.keyed)
        (AllSent-update_where out.iso c.row.id _ t.accepted s.world.db.outbox
          (λ x m e h. still_sent x x.status h) (sent-still c.row s t.accepted c.accepted d))
    where
      still_sent :
          (x : OutboxRow) (status : OutboxStatus)
          → IsSent out.iso t.accepted x status
          → IsSent out.iso t.accepted
              (failed_row s.world.now c.delay (text_of c.error.message) x)
              status
      still_sent x OutboxStatus.published h = h
      still_sent x OutboxStatus.pending h = tt
      still_sent x OutboxStatus.failed h = tt
  Claimed-IsDelivered s (err e, t) c d = untouched-IsDelivered s t (IsStuck-IsUntouched out c) d

  Claimed-contents :
      (s : Station) (r : Result PublishError (Option PublishOutcome) × Station)
      → Claimed out cfg s r
      → map contents r.1.world.db.outbox ≡ map contents s.world.db.outbox
  Claimed-contents s (ok none, t) c = ap (λ (w : World). map contents w.db.outbox) c.world
  Claimed-contents s (ok (some published), t) c =
      ap (λ (w : World). map contents w.db.outbox) c.world
      ∙ map-update_where c.row.id (published_row s.world.now) s.world.db.outbox (λ r. refl)
  Claimed-contents s (ok (some failed), t) c =
      ap (λ (w : World). map contents w.db.outbox) c.world
      ∙ map-update_where c.row.id _ s.world.db.outbox (λ r. refl)
  Claimed-contents s (err e, t) c = ap (λ (w : World). map contents w.db.outbox) c.world

  -- A pass over the outbox, however it ends: it neither adds, drops, reorders nor changes an event,
  -- and if every row that says PUBLISHED had been accepted by the broker, so it is afterwards.
  pub cycle-IsDelivered :
      (batch_size : ℕ) (s : Station)
      → IsDelivered out s
      → IsDelivered out (cycle out cfg batch_size s).1
        × (map contents (cycle out cfg batch_size s).1.world.db.outbox
            ≡ map contents s.world.db.outbox)
  cycle-IsDelivered batch_size s d = (
    cycle-keeps out cfg (IsDelivered out) quiet Claimed-IsDelivered batch_size s d,
    cycle-keeps out cfg (λ t. map contents t.world.db.outbox ≡ map contents s.world.db.outbox)
        (λ t u q e. ap (λ (w : World). map contents w.db.outbox) q.world ∙ e)
        (λ t r c e. Claimed-contents t r c ∙ e) batch_size s refl,
  )
    where
      quiet : (t u : Station) → IsQuiet t u → IsDelivered out t → IsDelivered out u
      quiet t u q h =
          of_parts u t.world.db.outbox t.accepted (ap (λ (w : World). w.db.outbox) q.world)
            q.accepted h.keyed h.sent
