-- ===== src/Prelude/Lists.antt =====
-- Lists measured by native numbers, and predicates on their elements.
use Prim.Native.Nat.{ℕ, suc, ◌+◌}
use mathlib.Core.Path.{◌≡◌}
use mathlib.Core.Logic.{◌⊎◌, inl, inr}
use mathlib.Core.Bool.{true, Bool, false, ◌||◌}
use mathlib.Core.Option.{Option, none, some}
use mathlib.Core.List.{List, [], ◌∷◌, ◌++◌}
use native.Mathlib.Omega.{arith}
use jungle_backend_challenge.Prelude.Tests.{if◌then◌else◌}

module _ {ℓ} {A : Type ℓ} where
  abbrev pub length : List A → ℕ
  length [] = 0
  length (x ∷ xs) = suc (length xs)

  pub length-append : (xs ys : List A) → length (xs ++ ys) ≡ length xs + length ys
  length-append [] ys = omega arith
  length-append (x ∷ xs) ys = omega (arith, length-append xs ys)

  -- `rows.find(test)`, and the first row of a SELECT.
  abbrev pub find : (A → Bool) → List A → Option A
  find p [] = none
  find p (x ∷ xs) = if p x then some x else find p xs

  abbrev pub any : (A → Bool) → List A → Bool
  any p [] = false
  any p (x ∷ xs) = p x || any p xs

  -- An UPDATE of the rows that pass a test.
  abbrev pub update_where : (A → Bool) → (A → A) → List A → List A
  update_where p f [] = []
  update_where p f (x ∷ xs) = (if p x then f x else x) ∷ update_where p f xs

  abbrev pub keep : (A → Bool) → List A → List A
  keep p [] = []
  keep p (x ∷ xs) = if p x then x ∷ keep p xs else keep p xs

-- The list has the element.
pub data Has {ℓ} {A : Type ℓ} (x : A) : List A → Type ℓ where
  here : {y : A} {ys : List A} → x ≡ y → Has x (y ∷ ys)
  there : {y : A} {ys : List A} → Has x ys → Has x (y ∷ ys)

module _ {ℓ} {A : Type ℓ} where
  pub find-Has : (p : A → Bool) (rows : List A) (r : A) → find p rows ≡ some r → Has r rows
  find-Has p [] r e = cc
  find-Has p (x ∷ xs) r e = go (p x) e (find-Has p xs r)
    where
      go :
          (b : Bool)
          → (if b then some x else find p xs) ≡ some r
          → (find p xs ≡ some r → Has r xs)
          → Has r (x ∷ xs)
      go true h k = here cc
      go false h k = there (k h)

  Has-cases : {r y : A} {ys : List A} → Has r (y ∷ ys) → (r ≡ y) ⊎ Has r ys
  Has-cases (here e) = inl e
  Has-cases (there h) = inr h

  pub keep-Has : (p : A → Bool) (rows : List A) (r : A) → Has r (keep p rows) → Has r rows
  keep-Has p [] r h = h
  keep-Has p (x ∷ xs) r h = go (p x) h (keep-Has p xs r)
    where
      go :
          (b : Bool)
          → Has r (if b then x ∷ keep p xs else keep p xs)
          → (Has r (keep p xs) → Has r xs)
          → Has r (x ∷ xs)
      go true h k = elim (Has-cases h) [ inl e ↦ here e | inr h' ↦ there (k h') ]
      go false h k = there (k h)
