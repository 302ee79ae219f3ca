-- ===== src/Wallets/Pages/Walk.antt =====
-- Reading the ledger of a wallet page by page, along the cursors of src/wallets/ledger.repository.ts.
use jungle_backend_challenge.Prelude.{
  ℕ, zero, suc, ◌+◌, ◌≤◌, ◌<◌, ◌≡◌, refl, sym, ap, ◌∙◌, subst, inl, inr, Bool, true, false, ◌&&◌,
  String, ◌==◌, Option, none, some, List, [], ◌∷◌, ◌++◌, keep, length, nat_eq, Bool-cases, arith,
}
use mathlib.Core.List.{append_assoc, append-nil}
use jungle_backend_challenge.Database.Rows.{LedgerRow}
use jungle_backend_challenge.Database.Tables.{IsKeyed}
use jungle_backend_challenge.Wallets.Pages.{
  is_before, newest_first, take, Position, to_date, last_entry, next_of, listed, page_of,
}
use jungle_backend_challenge.Wallets.Pages.Filters.{
  AllWhole, AllWhole-keep, AllWhole-newest_first, whole_at, IsKeyed-keep, keep-newest_first,
  keep-and, keep-older,
}
use jungle_backend_challenge.Wallets.Pages.Order.{entry_id, older, IsSorted, newest_first-IsSorted}

-- A client that asks for page after page, and for so many at most: the entries that it has seen.
unfoldable pub walk : ℕ → String → Option Position → ℕ → List LedgerRow → List LedgerRow
walk zero wallet cursor limit rows = []
walk (suc pages) wallet cursor limit rows =
    let page = page_of wallet cursor limit rows in
    page.entries
    ++ elim page.next_cursor [ none ↦ [] | some c ↦ walk pages wallet (some c) limit rows ]

-- The rows after a page.
drop : ℕ → List LedgerRow → List LedgerRow
drop zero rows = rows
drop (suc n) [] = []
drop (suc n) (r ∷ rows) = drop n rows

take-drop : (n : ℕ) (rows : List LedgerRow) → take n rows ++ drop n rows ≡ rows
unfolding take drop
take-drop zero rows = refl
take-drop (suc n) [] = refl
take-drop (suc n) (r ∷ rows) = ap (λ l. r ∷ l) (take-drop n rows)

-- A page that is not full holds all rows.
take_short :
    (n : ℕ) (rows : List LedgerRow) → nat_eq (length (take n rows)) n ≡ false → take n rows ≡ rows
unfolding take
take_short zero rows h = absurd (ground arith)
take_short (suc n) [] h = refl
take_short (suc n) (r ∷ rows) h = ap (λ l. r ∷ l) (take_short n rows (ground arith))

length-drop :
    (n : ℕ) (rows : List LedgerRow) → length (take n rows) + length (drop n rows) ≡ length rows
unfolding take drop
length-drop zero rows = omega arith
length-drop (suc n) [] = refl
length-drop (suc n) (r ∷ rows) = omega (arith, length-drop n rows)

-- A list that is not empty ends in its last entry.
last_split :
    (rows : List LedgerRow)
    → 1 ≤ length rows
    → (r : LedgerRow) × (ys : List LedgerRow) × (last_entry rows ≡ some r) × (rows ≡ ys ++ r ∷ [])
unfolding last_entry
last_split [] h = absurd (omega arith)
last_split (r ∷ []) h = (r, [], refl, refl)
last_split (r ∷ s ∷ rest) h =
    let (l, ys, e, split) = last_split (s ∷ rest) (omega arith) in
    (l, r ∷ ys, e, ap (λ l. r ∷ l) split)

split_at :
    (xs ys : List LedgerRow) (r : LedgerRow) (zs : List LedgerRow) (n : ℕ)
    → take n zs ≡ ys ++ r ∷ []
    → xs ++ zs ≡ (xs ++ ys) ++ r ∷ drop n zs
split_at xs ys r zs n split =
    ap (λ l. xs ++ l)
      (sym (take-drop n zs) ∙ ap (λ l. l ++ drop n zs) split ∙ append_assoc ys (r ∷ []) (drop n zs))
    ∙ sym (append_assoc xs ys (r ∷ drop n zs))

module _ (wallet : String) (rows : List LedgerRow) where
  -- What a cursor leaves of the list of a keyed table with whole milliseconds.
  listed_after :
      (xs : List LedgerRow) (r : LedgerRow) (ys : List LedgerRow)
      → IsKeyed entry_id rows
      → AllWhole rows
      → listed wallet none rows ≡ xs ++ r ∷ ys
      → listed wallet (some (record { at = to_date r.created_at; id = r.id })) rows ≡ ys
  unfolding listed
  listed_after xs r ys keyed whole e =
      let mine : LedgerRow → Bool = λ x. x.wallet_id == wallet in
      let base = keep (λ x. mine x && true) rows in
      let at = whole_at xs r ys (
        subst AllWhole e
          (AllWhole-newest_first base (AllWhole-keep (λ x. mine x && true) rows whole))) in
      let sorted =
        subst IsSorted e
          (newest_first-IsSorted base (IsKeyed-keep (λ x. mine x && true) rows keyed)) in
      ap (λ t. newest_first (keep (λ x. mine x && is_before x t r.id) rows)) at
      ∙ ap newest_first (keep-and mine (λ x. older x r) rows)
      ∙ sym
          (keep-newest_first (λ x. older x r) base (IsKeyed-keep (λ x. mine x && true) rows keyed))
      ∙ ap (keep (λ x. older x r)) e
      ∙ keep-older xs r ys sorted

  -- From a cursor at which so many rows are left.
  walk_from :
      (pages : ℕ) (cursor : Option Position) (limit : ℕ) (xs zs : List LedgerRow)
      → 1 ≤ limit
      → IsKeyed entry_id rows
      → AllWhole rows
      → listed wallet none rows ≡ xs ++ zs
      → listed wallet cursor rows ≡ zs
      → length zs < pages
      → walk pages wallet cursor limit rows ≡ zs
  unfolding walk page_of next_of
  walk_from zero cursor limit xs zs one keyed whole all left enough = absurd (omega arith)
  walk_from (suc pages) cursor limit xs zs one keyed whole all left enough =
      rw left (elim (Bool-cases (nat_eq (length (take limit zs)) limit)) [
        | inl full ↦ rw full (
            let (r, ys, e, split) = last_split (take limit zs) (ground arith) in
            let rest = drop limit zs in
            let here = all ∙ split_at xs ys r zs limit split in
            let after = here ∙ sym (append_assoc (xs ++ ys) (r ∷ []) rest) in
            rw e (
              ap (λ l. take limit zs ++ l)
                (walk_from pages _ limit ((xs ++ ys) ++ r ∷ []) rest one keyed whole after
                  (listed_after (xs ++ ys) r rest keyed whole here)
                  (ground (arith, length-drop limit zs)))
              ∙ take-drop limit zs))
        | inr short ↦ rw short (append-nil (take limit zs) ∙ take_short limit zs short)
      ])

  -- A client that follows the cursors of a table with distinct identifiers, whose times are whole
  -- milliseconds, with a limit of at least one, reads in one page more than there are entries
  -- exactly what one query without a limit lists, each entry older than those before it.
  pub walk-listed :
      (limit : ℕ)
      → 1 ≤ limit
      → IsKeyed entry_id rows
      → AllWhole rows
      → (walk (length (listed wallet none rows) + 1) wallet none limit rows
          ≡ listed wallet none rows)
        × IsSorted (listed wallet none rows)
  unfolding listed
  walk-listed limit one keyed whole = (
    walk_from _ none limit [] (listed wallet none rows) one keyed whole refl refl (omega arith),
    newest_first-IsSorted (keep (λ r. r.wallet_id == wallet && true) rows)
        (IsKeyed-keep (λ r. r.wallet_id == wallet && true) rows keyed),
  )
