-- ===== src/Wallets/Pages/Order.antt =====
-- The order of the pages of src/wallets/ledger.repository.ts, and the sorting by it.
use text.Mathlib.TextEquality.{Char-path}
use jungle_backend_challenge.Prelude.{
  ℕ, ◌≡◌, refl, sym, ap, ◌∙◌, ◌⊎◌, inl, inr, ◌≢◌, Bool, true, false, ◌||◌, String, codes, eq_true,
  List, [], ◌∷◌, keep, any, ltb, nat_eq, Bool-cases, arith, if◌then◌else◌,
}
use jungle_backend_challenge.Database.Rows.{LedgerRow}
use jungle_backend_challenge.Database.Tables.{has_key, IsKeyed}
use jungle_backend_challenge.Wallets.Pages.{codes_lt, is_before, insert_entry, newest_first}

pub false_if_not : (b : Bool) → (b ≢ true) → b ≡ false
false_if_not true h = absurd (h refl)
false_if_not false h = refl

codes_lt_irrefl : (s : List ℕ) → codes_lt s s ≡ false
unfolding codes_lt
codes_lt_irrefl [] = refl
codes_lt_irrefl (c ∷ s) = ground (arith, codes_lt_irrefl s)

codes_lt_trans : (s t u : List ℕ) → codes_lt s t ≡ true → codes_lt t u ≡ true → codes_lt s u ≡ true
unfolding codes_lt
codes_lt_trans [] [] u h k = absurd (ground arith)
codes_lt_trans [] (d ∷ t) [] h k = absurd (ground arith)
codes_lt_trans [] (d ∷ t) (e ∷ u) h k = refl
codes_lt_trans (c ∷ s) [] u h k = absurd (ground arith)
codes_lt_trans (c ∷ s) (d ∷ t) [] h k = absurd (ground arith)
codes_lt_trans (c ∷ s) (d ∷ t) (e ∷ u) h k = ground (arith, codes_lt_trans s t u)

codes_lt_total : (s t : List ℕ) → s ≢ t → (codes_lt s t ≡ true) ⊎ (codes_lt t s ≡ true)
unfolding codes_lt
codes_lt_total [] [] h = absurd (h refl)
codes_lt_total [] (d ∷ t) h = inl refl
codes_lt_total (c ∷ s) [] h = inr refl
codes_lt_total (c ∷ s) (d ∷ t) h = elim (Bool-cases (nat_eq c d)) [
  | inl e ↦ elim (codes_lt_total s t (λ same. h (ground (arith)))) [
    | inl l ↦ inl (ground arith)
    | inr r ↦ inr (ground arith)
  ]
  | inr e ↦ elim (Bool-cases (ltb c d)) [ inl l ↦ inl (ground arith) | inr r ↦ inr (ground arith) ]
]

-- The first row is older.
abbrev pub older : LedgerRow → LedgerRow → Bool
older r s = is_before r s.created_at s.id

pub older_irrefl : (r : LedgerRow) → older r r ≡ false
unfolding is_before
older_irrefl r = ground (arith, codes_lt_irrefl (codes r.id))

pub older_trans : (r s t : LedgerRow) → older r s ≡ true → older s t ≡ true → older r t ≡ true
unfolding is_before
older_trans r s t h k = ground (arith, codes_lt_trans (codes r.id) (codes s.id) (codes t.id))

older_total : (r s : LedgerRow) → codes r.id ≢ codes s.id → older r s ≡ false → older s r ≡ true
unfolding is_before
older_total r s ne h = elim (codes_lt_total (codes r.id) (codes s.id) ne) [
  | inl l ↦ ground arith
  | inr g ↦ ground arith
]

codes-injective : (s t : String) → codes s ≡ codes t → s ≡ t
codes-injective String.[] String.[] e = refl
codes-injective String.[] (String.◌∷◌ d t) e = absurd (ground arith)
codes-injective (String.◌∷◌ c s) String.[] e = absurd (ground arith)
codes-injective (String.◌∷◌ c s) (String.◌∷◌ d t) e =
    cc (Char-path c d (ground arith), codes-injective s t (ground arith))

abbrev pub entry_id : LedgerRow → String
entry_id r = r.id

-- Every row of the list is older.
abbrev pub AllOlder : LedgerRow → List LedgerRow → Type 0
AllOlder r [] = Unit
AllOlder r (s ∷ rest) = (older s r ≡ true) × AllOlder r rest

abbrev pub IsSorted : List LedgerRow → Type 0
IsSorted [] = Unit
IsSorted (r ∷ rest) = AllOlder r rest × IsSorted rest

AllOlder-trans :
    (r s : LedgerRow) (rows : List LedgerRow) → older s r ≡ true → AllOlder s rows → AllOlder r rows
AllOlder-trans r s [] h k = tt
AllOlder-trans r s (x ∷ xs) h k = (older_trans x s r k.0 h, AllOlder-trans r s xs h k.1)

AllOlder-insert :
    (x r : LedgerRow) (rows : List LedgerRow)
    → older r x ≡ true
    → AllOlder x rows
    → AllOlder x (insert_entry r rows)
unfolding insert_entry
AllOlder-insert x r [] h k = (h, tt)
AllOlder-insert x r (s ∷ rest) h k = elim (Bool-cases (older r s)) [
  | inl e ↦ rw e (k.0, AllOlder-insert x r rest h k.1)
  | inr e ↦ rw e (h, k)
]

insert-IsSorted :
    (r : LedgerRow) (rows : List LedgerRow)
    → any (has_key entry_id r.id) rows ≡ false
    → IsSorted rows
    → IsSorted (insert_entry r rows)
unfolding insert_entry
insert-IsSorted r [] new h = (tt, tt)
insert-IsSorted r (s ∷ rest) new h = elim (Bool-cases (older r s)) [
  | inl e ↦ rw e (AllOlder-insert s r rest e h.0, insert-IsSorted r rest (ground arith) h.1)
  | inr e ↦
      let after =
        older_total r s
          (λ same. ground (arith, eq_true s.id r.id (sym (codes-injective r.id s.id same)))) e in
      rw e ((after, AllOlder-trans r s rest after h.0), h)
]

any-insert :
    (k : String) (r : LedgerRow) (rows : List LedgerRow)
    → any (has_key entry_id k) (insert_entry r rows)
      ≡ (has_key entry_id k r || any (has_key entry_id k) rows)
unfolding insert_entry
any-insert k r [] = refl
any-insert k r (s ∷ rest) = ground (arith, any-insert k r rest)

any-newest_first :
    (k : String) (rows : List LedgerRow)
    → any (has_key entry_id k) (newest_first rows) ≡ any (has_key entry_id k) rows
unfolding newest_first
any-newest_first k [] = refl
any-newest_first k (r ∷ rs) =
    any-insert k r (newest_first rs) ∙ ap (λ b. has_key entry_id k r || b) (any-newest_first k rs)

pub newest_first-IsSorted :
    (rows : List LedgerRow) → IsKeyed entry_id rows → IsSorted (newest_first rows)
unfolding newest_first
newest_first-IsSorted [] h = tt
newest_first-IsSorted (r ∷ rs) h =
    insert-IsSorted r (newest_first rs) (any-newest_first r.id rs ∙ h.0)
      (newest_first-IsSorted rs h.1)

front-keep :
    (p : LedgerRow → Bool) (r s : LedgerRow) (rows : List LedgerRow)
    → older r s ≡ false
    → AllOlder s rows
    → insert_entry r (keep p rows) ≡ r ∷ keep p rows
unfolding insert_entry
front-keep p r s [] e h = refl
front-keep p r s (x ∷ xs) e h = elim (Bool-cases (p x)) [
  | inl holds ↦
      let newer = false_if_not (older r x) (λ o. ground (arith, older_trans r x s o h.0)) in
      rw holds (rw newer refl)
  | inr fails ↦ rw fails (front-keep p r s xs e h.1)
]

-- Filtering before the sort or after it.
pub keep-insert :
    (p : LedgerRow → Bool) (r : LedgerRow) (rows : List LedgerRow)
    → IsSorted rows
    → keep p (insert_entry r rows) ≡ (if p r then insert_entry r (keep p rows) else keep p rows)
unfolding insert_entry
keep-insert p r [] h = ground arith
keep-insert p r (s ∷ rest) h = elim (Bool-cases (older r s)) [
  | inl e ↦ rw e (ground (arith, keep-insert p r rest h.1))
  | inr e ↦ rw e (ground (arith, front-keep p r s rest e h.0))
]
