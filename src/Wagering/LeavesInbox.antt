-- ===== src/Wagering/LeavesInbox.antt =====
-- Nothing that `execute` of src/wagering/process-wager.ts does reads or writes the table `inbox`.
mod Statements
pub mod Commands
use jungle_backend_challenge.Prelude.{
  ◌≡◌, refl, ◌∙◌, Bool, true, false, String, Option, none, some, if◌then◌else◌,
}
use jungle_backend_challenge.Prelude.Results.{ok, err}
use jungle_backend_challenge.Domain.Errors.{Outcome, Thrown}
use jungle_backend_challenge.Database.Rows.{Db}
use jungle_backend_challenge.Database.Tx.{
  Env, World, Tx, ◌>>=◌, ◌>>◌, pure, throw, lift, reads, writes, clock, draw, attempt,
  transactional, refuse_if,
}

pub record LeavesInbox {A : Type 0} (m : Tx A) : Type 0 where
  pub same : (w : World) → (m w).1.db.inbox ≡ w.db.inbox

-- A write whose tables, if there are any, have the inbox that it found.
abbrev pub KeptBy : Db → Outcome Db → Type 0
KeptBy db (ok db') = db'.inbox ≡ db.inbox
KeptBy db (err e) = Unit

pub KeptBy-refuse_if :
    (db : Db) (b : Bool) (e : Thrown) (r : Outcome Db) → KeptBy db r → KeptBy db (refuse_if b e r)
unfolding refuse_if
KeptBy-refuse_if db true e r h = tt
KeptBy-refuse_if db false e r h = h

pub LeavesInbox-writes :
    (f : Db → Outcome Db) → ((db : Db) → KeptBy db (f db)) → LeavesInbox (writes f)
unfolding writes
LeavesInbox-writes f h = record { same = λ w. go w (f w.db) (h w.db) }
  where
    go : (w : World) (r : Outcome Db) → KeptBy w.db r → (writes (λ _. r) w).1.db.inbox ≡ w.db.inbox
    go w (ok db) k = k
    go w (err e) k = refl

module _ {A : Type 0} where
  pub LeavesInbox-pure : (a : A) → LeavesInbox (pure a)
  unfolding pure
  LeavesInbox-pure a = record { same = λ w. refl }

  pub LeavesInbox-throw : (e : Thrown) → LeavesInbox {A = A} (throw e)
  unfolding throw
  LeavesInbox-throw e = record { same = λ w. refl }

  pub LeavesInbox-lift : (r : Outcome A) → LeavesInbox (lift r)
  unfolding lift
  LeavesInbox-lift r = record { same = λ w. refl }

  pub LeavesInbox-reads : (f : Db → A) → LeavesInbox (reads f)
  unfolding reads
  LeavesInbox-reads f = record { same = λ w. refl }

  pub LeavesInbox-if :
      (b : Bool) (m n : Tx A) → LeavesInbox m → LeavesInbox n → LeavesInbox (if b then m else n)
  LeavesInbox-if true m n h k = h
  LeavesInbox-if false m n h k = k

  pub LeavesInbox-transactional : (m : Tx A) → LeavesInbox m → LeavesInbox (transactional m)
  unfolding transactional
  LeavesInbox-transactional m h = record { same = λ w. go w (m w) (h.same w) }
    where
      go :
          (w : World) (r : Outcome A × World)
          → r.1.db.inbox ≡ w.db.inbox
          → (transactional (λ _. r) w).1.db.inbox ≡ w.db.inbox
      go w (ok a, v) e = e
      go w (err t, v) e = refl

  pub LeavesInbox-attempt :
      (m : Tx A) (recover : Thrown → Tx A)
      → LeavesInbox m
      → ((e : Thrown) → LeavesInbox (recover e))
      → LeavesInbox (attempt m recover)
  unfolding attempt
  LeavesInbox-attempt m recover h k = record { same = λ w. go w (m w) (h.same w) }
    where
      go :
          (w : World) (r : Outcome A × World)
          → r.1.db.inbox ≡ w.db.inbox
          → (attempt (λ _. r) recover w).1.db.inbox ≡ w.db.inbox
      go w (ok a, v) e = e
      go w (err t, v) e = (k t).same v ∙ e

pub LeavesInbox-clock : LeavesInbox clock
unfolding clock
LeavesInbox-clock = record { same = λ w. refl }

pub LeavesInbox-draw : {D : Type 0} (env : Env D) → LeavesInbox (draw env)
unfolding draw
LeavesInbox-draw env = record { same = λ w. refl }

pub LeavesInbox-bind :
    {A B : Type 0} (m : Tx A) (f : A → Tx B)
    → LeavesInbox m
    → ((a : A) → LeavesInbox (f a))
    → LeavesInbox (m >>= f)
unfolding ◌>>=◌
LeavesInbox-bind {A} m f h k = record { same = λ w. go w (m w) (h.same w) }
  where
    go :
        (w : World) (r : Outcome A × World)
        → r.1.db.inbox ≡ w.db.inbox
        → (((λ _. r) >>= f) w).1.db.inbox ≡ w.db.inbox
    go w (ok a, v) e = (k a).same v ∙ e
    go w (err t, v) e = e

pub LeavesInbox-Option :
    {A B : Type 0} (missing : Tx B) (found : A → Tx B) (o : Option A)
    → LeavesInbox missing
    → ((a : A) → LeavesInbox (found a))
    → LeavesInbox (elim o [ none ↦ missing | some a ↦ found a ])
LeavesInbox-Option missing found none h k = h
LeavesInbox-Option missing found (some a) h k = k a

pub ruleset leaves_rules = (
  LeavesInbox-pure, LeavesInbox-throw, LeavesInbox-lift, LeavesInbox-reads, LeavesInbox-clock,
  LeavesInbox-draw, LeavesInbox-bind, LeavesInbox-if, LeavesInbox-attempt,
  LeavesInbox-transactional, LeavesInbox-Option,
)
