-- ===== src/Wagering/Atomic.antt =====
-- What the transaction and the `catch` of src/wagering/process-wager.ts leave behind.
use jungle_backend_challenge.Prelude.{
  ◌+◌, ◌≡◌, refl, Bool, true, false, String, Option, none, some, if◌then◌else◌, find, arith, ap,
  sym, subst, ◌⊎◌, inr, inl,
}
use jungle_backend_challenge.Prelude.Results.{ok, err, ok-injective}
use jungle_backend_challenge.Domain.Errors.{Outcome, Thrown}
use jungle_backend_challenge.Database.Rows.{Db, WagerRow}
use jungle_backend_challenge.Database.Tx.{
  Env, World, Tx, ◌>>=◌, throw, lift, attempt, transactional,
}
use jungle_backend_challenge.Wagering.Types.{SubmitInput, SubmitResult}
use jungle_backend_challenge.Wagering.Payload.{normalize_wager_input, make_result}
use jungle_backend_challenge.Wagering.ProcessWager.{
  work, answer_from, replay_from_persisted, handle_failure, submit, execute,
}
use jungle_backend_challenge.Wagering.Repository.{by_idempotency_key}
use jungle_backend_challenge.Wagering.Keeps.{After}

-- Work that leaves the world as it is, whichever way it ends.
pub record IsReadOnly {A : Type 0} (m : Tx A) : Type 0 where
  pub same : (w : World) → (m w).1 ≡ w

module _ {A : Type 0} where
  pub IsReadOnly-throw : (e : Thrown) → IsReadOnly {A = A} (throw e)
  unfolding throw
  IsReadOnly-throw e = record { same = λ w. refl }

  pub IsReadOnly-if :
      (b : Bool) (m n : Tx A) → IsReadOnly m → IsReadOnly n → IsReadOnly (if b then m else n)
  IsReadOnly-if true m n h k = h
  IsReadOnly-if false m n h k = k

-- Work goes on in the same world after a part that only reads.
pub After-readonly_bind :
    {A B : Type 0} (P : A → Db → Type 0) (Q : B → Db → Type 0) (m : Tx A) (f : A → Tx B) (w : World)
    → IsReadOnly m
    → After P (m w)
    → ((a : A) → P a w.db → After Q (f a w))
    → After Q ((m >>= f) w)
unfolding ◌>>=◌
After-readonly_bind {A} P Q m f w quiet h k = go (m w) (quiet.same w) h
  where
    go :
        (r : Outcome A × World)
        → r.1 ≡ w
        → After P r
        → After Q (let (x, w') = r in elim x [ ok a ↦ f a w' | err e ↦ (err e, w') ])
    go (ok a, w') e h' =
        subst (λ v. After Q (f a v)) (sym e) (k a (subst (λ (v : World). P a v.db) e h'))
    go (err t, w') e h' = h'

-- A transaction under a `catch` that only reads.
module _ {A : Type 0} (m : Tx A) (recover : Thrown → Tx A)
    (quiet : (e : Thrown) → IsReadOnly (recover e)) where
  pub transactional-After :
      (P : Db → Type 0) (w : World)
      → P w.db
      → After (λ _. P) (m w)
      → P (attempt (transactional m) recover w).1.db
  unfolding attempt transactional
  transactional-After P w h k = go (m w) k
    where
      go :
          (r : Outcome A × World)
          → After (λ _. P) r
          → P (attempt (transactional (λ _. r)) recover w).1.db
      go (ok a, w') h' = h'
      go (err e, w') h' = subst (λ (v : World). P v.db) (sym ((quiet e).same _)) h

  pub transactional-throws :
      (e : Thrown) (w : World)
      → (attempt (transactional m) recover w).0 ≡ err e
      → (attempt (transactional m) recover w).1.db ≡ w.db
  unfolding attempt transactional
  transactional-throws e w h = go (m w) h
    where
      go :
          (r : Outcome A × World)
          → (attempt (transactional (λ _. r)) recover w).0 ≡ err e
          → (attempt (transactional (λ _. r)) recover w).1.db ≡ w.db
      go (ok a, w') h' = cc
      go (err t, w') h' = ap (λ (v : World). v.db) ((quiet t).same _)

  -- What returned is the work's, or the `catch`'s, which wrote nothing.
  pub transactional-ok :
      (Q : A → Db → Type 0) (R : A → Type 0) (a : A) (w : World)
      → After Q (m w)
      → ((e : Thrown) (v : World) → (recover e v).0 ≡ ok a → R a)
      → (attempt (transactional m) recover w).0 ≡ ok a
      → (R a × ((attempt (transactional m) recover w).1.db ≡ w.db))
        ⊎ Q a (attempt (transactional m) recover w).1.db
  unfolding attempt transactional
  transactional-ok Q R a w h k e = go (m w) h e
    where
      go :
          (r : Outcome A × World)
          → After Q r
          → (attempt (transactional (λ _. r)) recover w).0 ≡ ok a
          → (R a × ((attempt (transactional (λ _. r)) recover w).1.db ≡ w.db))
            ⊎ Q a (attempt (transactional (λ _. r)) recover w).1.db
      go (ok b, w') h' e' = inr (subst (λ c. Q c w'.db) (ok-injective e') h')
      go (err t, w') h' e' = inl (k t _ e', ap (λ (v : World). v.db) ((quiet t).same _))

module _ {D : Type 0} (env : Env D) where
  answer_from-IsReadOnly :
      (hash : String) (row : Option WagerRow) → IsReadOnly (answer_from env hash row)
  unfolding answer_from ◌>>=◌
  answer_from-IsReadOnly hash none = IsReadOnly-throw _
  answer_from-IsReadOnly hash (some row) = record { same = λ w. ground arith }

  pub handle_failure-IsReadOnly :
      (input : SubmitInput) (hash : String) (e : Thrown)
      → IsReadOnly (handle_failure env input hash e)
  unfolding handle_failure replay_from_persisted ◌>>=◌
  handle_failure-IsReadOnly input hash e = record {
    same = λ w. ground (
      arith,
      (answer_from-IsReadOnly hash
            (find (by_idempotency_key input.idempotency_key) w.db.wagers)).same
          w,
    );
  }

  answer_from-replays :
      (hash : String) (row : Option WagerRow) (r : SubmitResult) (w : World)
      → (answer_from env hash row w).0 ≡ ok r
      → r.idempotent_replay ≡ true
  unfolding answer_from throw ◌>>=◌ make_result
  answer_from-replays hash none r w h = cc
  answer_from-replays hash (some row) r w h = ground arith

  -- Whatever the `catch` returns is marked as a replay.
  pub handle_failure-replays :
      (input : SubmitInput) (hash : String) (r : SubmitResult) (e : Thrown) (w : World)
      → (handle_failure env input hash e w).0 ≡ ok r
      → r.idempotent_replay ≡ true
  unfolding handle_failure replay_from_persisted ◌>>=◌ throw
  handle_failure-replays input hash r e w h = ground (
    arith,
    answer_from-replays hash (find (by_idempotency_key input.idempotency_key) w.db.wagers) r w,
  )

  -- What the work keeps, and no other part of a command touches.
  pub submit-After :
      (P : Db → Type 0) (input : SubmitInput) (w : World)
      → P w.db
      → ((hash tx_id : String) (w' : World)
          → w'.db ≡ w.db
          → After (λ _. P) (work env input hash tx_id w'))
      → P (submit env input w).1.db
  unfolding submit ◌>>=◌
  submit-After P input w h k =
      transactional-After _ _ (handle_failure-IsReadOnly input _) P
        (record w { drawn = w.drawn + 1 }) h (k _ _ _ refl)

  -- A command that throws, for whatever reason, leaves every table as it was.
  pub execute-throws :
      (input : SubmitInput) (e : Thrown) (w : World)
      → (execute env input w).0 ≡ err e
      → (execute env input w).1.db ≡ w.db
  unfolding execute ◌>>=◌ submit
  execute-throws input e w h = go (normalize_wager_input env.dec input) h
    where
      go :
          (r : Outcome SubmitInput)
          → ((lift r >>= submit env) w).0 ≡ err e
          → ((lift r >>= submit env) w).1.db ≡ w.db
      go (ok i) h' = transactional-throws _ _ (handle_failure-IsReadOnly i _) e _ h'
      go (err t) h' = refl
