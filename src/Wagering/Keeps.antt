-- ===== src/Wagering/Keeps.antt =====
-- What database work keeps, one rule for each way to build it. A throw must not be the one that the
-- `catch` of a movement answers, `InsufficientFundsError`.
use jungle_backend_challenge.Prelude.{ℕ, ◌≡◌, refl, Bool, true, false, if◌then◌else◌, sym, subst}
use jungle_backend_challenge.Prelude.Results.{ok, err, ok-injective}
use jungle_backend_challenge.Domain.Errors.{Outcome, Thrown}
use jungle_backend_challenge.Database.Rows.{Db}
use jungle_backend_challenge.Database.Tx.{
  Env, World, Tx, ◌>>=◌, ◌>>◌, pure, throw, lift, reads, writes, clock, draw, refuse_if,
}
use jungle_backend_challenge.Wagering.Failures.{is_insufficient_funds}

-- What holds of the result and the tables if the work returns.
abbrev pub After : {A : Type 0} → (A → Db → Type 0) → Outcome A × World → Type 0
After P (ok a, w) = P a w.db
After P (err e, w) = is_insufficient_funds e ≡ false

abbrev pub OkThen : {A : Type 0} → (A → Type 0) → Outcome A → Type 0
OkThen P (ok a) = P a
OkThen P (err e) = is_insufficient_funds e ≡ false

-- The work keeps `P`, wherever it starts.
pub record Keeps {A : Type 0} (P : Db → Type 0) (m : Tx A) : Type 0 where
  pub at : (w : World) → P w.db → After (λ _. P) (m w)

pub OkThen-refuse_if :
    {A : Type 0} (P : A → Type 0) (b : Bool) (e : Thrown) (r : Outcome A)
    → is_insufficient_funds e ≡ false
    → (b ≡ false → OkThen P r)
    → OkThen P (refuse_if b e r)
unfolding refuse_if
OkThen-refuse_if P true e r h k = h
OkThen-refuse_if P false e r h k = k refl

-- The rest of the work starts where the first part returned.
pub After-bind :
    {A B : Type 0} (P : A → Db → Type 0) (Q : B → Db → Type 0) (m : Tx A) (f : A → Tx B) (w : World)
    → After P (m w)
    → ((a : A) (w' : World) → P a w'.db → After Q (f a w'))
    → After Q ((m >>= f) w)
unfolding ◌>>=◌
After-bind {A} {B} P Q m f w h k = go (m w) h
  where
    go :
        (r : Outcome A × World)
        → After P r
        → After Q (let (x, w') = r in elim x [ ok a ↦ f a w' | err e ↦ (err e, w') ])
    go (ok a, w') h = k a w' h
    go (err e, w') h = h

-- A first part whose outcome is known.
module _ {A B : Type 0} (Q : B → Db → Type 0) (m : Tx A) (f : A → Tx B) (w : World) where
  pub After-bind_ok :
      {a : A} {w' : World} → m w ≡ (ok a, w') → After Q (f a w') → After Q ((m >>= f) w)
  unfolding ◌>>=◌
  After-bind_ok e h =
      subst (λ r. After Q (let (x, w1) = r in elim x [ ok b ↦ f b w1 | err t ↦ (err t, w1) ]))
        (sym e) h

  pub After-bind_err :
      {e : Thrown} {w' : World}
      → m w ≡ (err e, w')
      → is_insufficient_funds e ≡ false
      → After Q ((m >>= f) w)
  unfolding ◌>>=◌
  After-bind_err e h =
      subst (λ r. After Q (let (x, w1) = r in elim x [ ok b ↦ f b w1 | err t ↦ (err t, w1) ]))
        (sym e) h

-- A domain call that throws no `InsufficientFundsError`, and the clock.
module _ {A B : Type 0} (Q : B → Db → Type 0) where
  pub After-lift_bind :
      (r : Outcome A) (f : A → Tx B) (w : World)
      → ((a : A) → r ≡ ok a → After Q (f a w))
      → ((e : Thrown) → r ≡ err e → is_insufficient_funds e ≡ false)
      → After Q ((lift r >>= f) w)
  unfolding ◌>>=◌
  After-lift_bind (ok a) f w k h = k a refl
  After-lift_bind (err e) f w k h = h e refl

  pub After-reads_bind :
      (g : Db → A) (f : A → Tx B) (w : World)
      → ((a : A) → g w.db ≡ a → After Q (f a w))
      → After Q ((reads g >>= f) w)
  unfolding ◌>>=◌
  After-reads_bind g f w k = k (g w.db) refl

pub After-clock_bind :
    {B : Type 0} (Q : B → Db → Type 0) (f : ℕ → Tx B) (w : World)
    → After Q (f w.now w)
    → After Q ((clock >>= f) w)
unfolding ◌>>=◌
After-clock_bind Q f w h = h

pub After-writes :
    (P : Db → Type 0) (f : Db → Outcome Db) (w : World)
    → OkThen P (f w.db)
    → After (λ _. P) (writes f w)
unfolding writes
After-writes P f w h = go (f w.db) h
  where
    go :
        (r : Outcome Db)
        → OkThen P r
        → After {A = Unit {0}}
            (λ _. P)
            (elim r [ ok db ↦ (ok tt, record w { db = db }) | err e ↦ (err e, w) ])
    go (ok db) h = h
    go (err e) h = h

module _ {P : Db → Type 0} where
  -- What neither writes nor throws.
  pub Keeps-reads : {A : Type 0} (g : Db → A) → Keeps P (reads g)
  unfolding reads
  Keeps-reads g = record { at = λ _ kept. kept }

  pub Keeps-clock : Keeps P clock
  unfolding clock
  Keeps-clock = record { at = λ _ kept. kept }

  pub Keeps-draw : {D : Type 0} (env : Env D) → Keeps P (draw env)
  unfolding draw
  Keeps-draw env = record { at = λ _ kept. kept }

  pub Keeps-pure : {A : Type 0} (result : A) → Keeps P (pure result)
  unfolding pure
  Keeps-pure result = record { at = λ _ kept. kept }

  -- What may throw.
  pub Keeps-throw :
      {A : Type 0} (e : Thrown) → is_insufficient_funds e ≡ false → Keeps P (throw {A = A} e)
  unfolding throw
  Keeps-throw e other = record { at = λ _ _. other }

  pub Keeps-lift : {A : Type 0} (r : Outcome A) → OkThen (λ _. Unit) r → Keeps P (lift r)
  unfolding lift
  Keeps-lift (err e) other = record { at = λ _ _. other }
  Keeps-lift (ok result) _ = record { at = λ _ kept. kept }

  pub Keeps-writes :
      (f : Db → Outcome Db) → ((db : Db) → P db → OkThen P (f db)) → Keeps P (writes f)
  Keeps-writes f k = record { at = λ w h. After-writes P f w (k w.db h) }

  pub Keeps-bind :
      {A B : Type 0} (m : Tx A) (f : A → Tx B)
      → Keeps P m
      → ((a : A) → Keeps P (f a))
      → Keeps P (m >>= f)
  Keeps-bind m f km kf = record {
    at = λ w h. After-bind (λ _. P) (λ _. P) m f w (km.at w h) (λ a w' h'. (kf a).at w' h');
  }

  pub Keeps-if :
      {A : Type 0} (test : Bool) (taken other : Tx A)
      → (test ≡ true → Keeps P taken)
      → (test ≡ false → Keeps P other)
      → Keeps P (if test then taken else other)
  Keeps-if false taken other on_true on_false = on_false refl
  Keeps-if true taken other on_true on_false = on_true refl

pub ruleset keeps_rules = (
  Keeps-pure, Keeps-throw, Keeps-lift, Keeps-reads, Keeps-clock, Keeps-draw, Keeps-bind, Keeps-if,
)

-- Two facts of one outcome, and what follows from a fact.
pub After-and :
    {A : Type 0} {P Q R : A → Db → Type 0} (r : Outcome A × World)
    → After P r
    → After Q r
    → ((a : A) (db : Db) → P a db → Q a db → R a db)
    → After R r
After-and (ok a, w) h k f = f a w.db h k
After-and (err e, w) h k f = h

-- A first part that returns nothing of interest.
pub After-then :
    {A : Type 0} (Q : A → Db → Type 0) (m : Tx (Unit {0})) (k : Tx A) (w : World)
    → Keeps (λ _. Unit {0}) m
    → ((w' : World) → After Q (k w'))
    → After Q ((m >> k) w)
After-then Q m k w h f = After-bind (λ _ _. Unit {0}) Q m _ w (h.at w tt) λ _ w' _. f w'

-- What holds of work that returned.
pub After-ok :
    {A : Type 0} (P : A → Db → Type 0) (r : Outcome A × World) {a : A}
    → After P r
    → r.0 ≡ ok a
    → P a r.1.db
After-ok P (ok b, w) h e = subst (λ c. P c w.db) (ok-injective e) h
After-ok P (err t, w) h e = cc
