-- ===== src/Database/Tables.antt =====
-- Tables with a primary key: finding, updating and inserting rows.
use jungle_backend_challenge.Prelude.{
  ◌≡◌, refl, Bool, true, false, String, ◌==◌, eq_iff, eq_refl, Option, none, some, List, [], ◌∷◌,
  find, any, update_where, if◌then◌else◌, arith, Option-cases, ◌⊎◌, ◌≢◌, inl, inr, ap,
}

module _ {A : Type 0} (key : A → String) where
  abbrev pub has_key : String → A → Bool
  has_key k r = key r == k

  -- No two rows have the same key.
  abbrev pub IsKeyed : List A → Type 0
  IsKeyed [] = Unit
  IsKeyed (r ∷ rs) = (any (has_key (key r)) rs ≡ false) × IsKeyed rs

  pub find-key : (k : String) (rs : List A) (r : A) → find (has_key k) rs ≡ some r → key r ≡ k
  find-key k [] r h = ground arith
  find-key k (x ∷ rs) r h = ground (arith, find-key k rs r, eq_iff (key x) k)

  pub find-any :
      (p : A → Bool) (rs : List A) (r : A) → find p rs ≡ some r → any (has_key (key r)) rs ≡ true
  find-any p [] r e = ground arith
  find-any p (x ∷ rs) r e =
      ground (arith, find-any p rs r, eq_refl (key r), ap (λ (o : Option A). head_key o) e)
    where
      head_key : Option A → Option String
      head_key none = none
      head_key (some y) = some (key y)

  -- A row that some test finds is the row of its key.
  pub find-has_key :
      (p : A → Bool) (rs : List A) (r : A)
      → IsKeyed rs
      → find p rs ≡ some r
      → find (has_key (key r)) rs ≡ some r
  find-has_key p [] r h e = ground arith
  find-has_key p (x ∷ rs) r h e = ground (
    arith,
    find-has_key p rs r h.1,
    find-any p rs r,
    eq_refl (key r),
    eq_iff (key x) (key r),
    find-any p rs r,
  )

  pub find-any_lem : (p : A → Bool) (rs : List A) (r : A) → find p rs ≡ some r → any p rs ≡ true
  find-any_lem p [] r e = ground arith
  find-any_lem p (x ∷ rs) r e = ground (arith, find-any_lem p rs r)

  pub find-passes : (p : A → Bool) (rs : List A) (r : A) → find p rs ≡ some r → p r ≡ true
  find-passes p [] r e = ground arith
  find-passes p (x ∷ rs) r e = ground (arith, find-passes p rs r)

  module _ (f : A → A) (same : (r : A) → key (f r) ≡ key r) where
    pub any-update_where :
        (j k : String) (rs : List A)
        → any (has_key j) (update_where (has_key k) f rs) ≡ any (has_key j) rs
    any-update_where j k [] = refl
    any-update_where j k (x ∷ rs) = ground (arith, any-update_where j k rs, same x)

    pub update_where-IsKeyed :
        (k : String) (rs : List A) → IsKeyed rs → IsKeyed (update_where (has_key k) f rs)
    update_where-IsKeyed k [] h = tt
    update_where-IsKeyed k (x ∷ rs) h =
        ground (arith, any-update_where (key x) k rs, update_where-IsKeyed k rs h.1, same x)

    pub find-update_where :
        (j k : String) (rs : List A)
        → find (has_key j) (update_where (has_key k) f rs)
          ≡ elim (find (has_key j) rs) [ none ↦ none | some r ↦ some (if j == k then f r else r) ]
    find-update_where j k [] = refl
    find-update_where j k (x ∷ rs) =
        ground
          (arith, find-update_where j k rs, same x, eq_iff (key x) k, eq_iff (key x) j, eq_iff j k)

    -- A row that is found after an update: it was there, and the update changed it or did not.
    pub found-update_where :
        (j k : String) (rs : List A) (w : A)
        → find (has_key j) (update_where (has_key k) f rs) ≡ some w
        → (r : A) × (find (has_key j) rs ≡ some r) × (((j ≡ k) × (w ≡ f r)) ⊎ ((j ≢ k) × (w ≡ r)))
    found-update_where j k rs w e = elim (Option-cases (find (has_key j) rs)) [
      | inl missing ↦ absurd (ground (arith, find-update_where j k rs))
      | inr (r, found) ↦ (r, found, ground (arith, find-update_where j k rs, eq_iff j k))
    ]
