-- ===== src/Wallets/Pages/Filters.antt =====
-- Filtering and sorting the rows of a page of src/wallets/ledger.repository.ts.
use jungle_backend_challenge.Prelude.{
  ◌≡◌, refl, ap, ◌∙◌, inl, inr, Bool, true, false, ◌&&◌, String, List, [], ◌∷◌, ◌++◌, keep, any,
  Bool-cases, arith,
}
use jungle_backend_challenge.Database.Rows.{LedgerRow}
use jungle_backend_challenge.Database.Tables.{has_key, IsKeyed}
use jungle_backend_challenge.Wallets.Pages.{insert_entry, newest_first, to_date}
use jungle_backend_challenge.Wallets.Pages.Order.{
  entry_id, older, older_irrefl, older_trans, AllOlder, IsSorted, keep-insert,
  newest_first-IsSorted, false_if_not,
}

-- The times of all rows are whole milliseconds.
abbrev pub AllWhole : List LedgerRow → Type 0
AllWhole [] = Unit
AllWhole (r ∷ rest) = (to_date r.created_at ≡ r.created_at) × AllWhole rest

pub AllWhole-keep :
    (p : LedgerRow → Bool) (rows : List LedgerRow) → AllWhole rows → AllWhole (keep p rows)
AllWhole-keep p [] h = tt
AllWhole-keep p (r ∷ rest) h = elim (Bool-cases (p r)) [
  | inl e ↦ rw e (h.0, AllWhole-keep p rest h.1)
  | inr e ↦ rw e (AllWhole-keep p rest h.1)
]

AllWhole-insert :
    (r : LedgerRow) (rows : List LedgerRow)
    → to_date r.created_at ≡ r.created_at
    → AllWhole rows
    → AllWhole (insert_entry r rows)
unfolding insert_entry
AllWhole-insert r [] e h = (e, tt)
AllWhole-insert r (s ∷ rest) e h = elim (Bool-cases (older r s)) [
  | inl o ↦ rw o (h.0, AllWhole-insert r rest e h.1)
  | inr o ↦ rw o (e, h)
]

pub AllWhole-newest_first : (rows : List LedgerRow) → AllWhole rows → AllWhole (newest_first rows)
unfolding newest_first
AllWhole-newest_first [] h = tt
AllWhole-newest_first (r ∷ rs) h =
    AllWhole-insert r (newest_first rs) h.0 (AllWhole-newest_first rs h.1)

pub whole_at :
    (xs : List LedgerRow) (r : LedgerRow) (ys : List LedgerRow)
    → AllWhole (xs ++ r ∷ ys)
    → to_date r.created_at ≡ r.created_at
whole_at [] r ys h = h.0
whole_at (x ∷ xs) r ys h = whole_at xs r ys h.1

any-keep :
    (p : LedgerRow → Bool) (k : String) (rows : List LedgerRow)
    → any (has_key entry_id k) rows ≡ false
    → any (has_key entry_id k) (keep p rows) ≡ false
any-keep p k [] h = refl
any-keep p k (r ∷ rest) h = ground (arith, any-keep p k rest)

pub IsKeyed-keep :
    (p : LedgerRow → Bool) (rows : List LedgerRow)
    → IsKeyed entry_id rows
    → IsKeyed entry_id (keep p rows)
IsKeyed-keep p [] h = tt
IsKeyed-keep p (r ∷ rest) h = elim (Bool-cases (p r)) [
  | inl e ↦ rw e (any-keep p r.id rest h.0, IsKeyed-keep p rest h.1)
  | inr e ↦ rw e (IsKeyed-keep p rest h.1)
]

pub keep-newest_first :
    (p : LedgerRow → Bool) (rows : List LedgerRow)
    → IsKeyed entry_id rows
    → keep p (newest_first rows) ≡ newest_first (keep p rows)
unfolding newest_first
keep-newest_first p [] h = refl
keep-newest_first p (r ∷ rs) h =
    keep-insert p r (newest_first rs) (newest_first-IsSorted rs h.1)
    ∙ ground (arith, keep-newest_first p rs h.1)

pub keep-and :
    (p q : LedgerRow → Bool) (rows : List LedgerRow)
    → keep (λ r. p r && q r) rows ≡ keep q (keep (λ r. p r && true) rows)
keep-and p q [] = refl
keep-and p q (r ∷ rest) = ground (arith, keep-and p q rest)

keep-AllOlder :
    (r : LedgerRow) (rows : List LedgerRow) → AllOlder r rows → keep (λ x. older x r) rows ≡ rows
keep-AllOlder r [] h = refl
keep-AllOlder r (x ∷ xs) h = rw h.0 (ap (λ l. x ∷ l) (keep-AllOlder r xs h.1))

AllOlder-at :
    (x : LedgerRow) (xs : List LedgerRow) (r : LedgerRow) (ys : List LedgerRow)
    → AllOlder x (xs ++ r ∷ ys)
    → older r x ≡ true
AllOlder-at x [] r ys h = h.0
AllOlder-at x (y ∷ xs) r ys h = AllOlder-at x xs r ys h.1

-- What is older than a row of a sorted list is what comes after it.
pub keep-older :
    (xs : List LedgerRow) (r : LedgerRow) (ys : List LedgerRow)
    → IsSorted (xs ++ r ∷ ys)
    → keep (λ x. older x r) (xs ++ r ∷ ys) ≡ ys
keep-older [] r ys h = rw (older_irrefl r) (keep-AllOlder r ys h.0)
keep-older (x ∷ xs) r ys h =
    let newer =
      false_if_not (older x r)
        (λ o. ground (arith, older_trans x r x o (AllOlder-at x xs r ys h.0), older_irrefl x)) in
    rw newer (keep-older xs r ys h.1)
