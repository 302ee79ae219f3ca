-- ===== src/Wallets/Pages.antt =====
-- src/wallets/ledger.repository.ts: `pageLedger`. A Date keeps the milliseconds of a time, and so
-- does the cursor that is made of it.
pub mod Order
mod Filters
pub mod Walk
use jungle_backend_challenge.Prelude.{
  ℕ, zero, suc, ◌+◌, ◌-◌, ◌*◌, ◌/◌, min, Bool, true, false, ◌&&◌, ◌||◌, String, ◌==◌, codes, Option,
  none, some, List, [], ◌∷◌, keep, length, leb, ltb, nat_eq, if◌then◌else◌,
}
use jungle_backend_challenge.Database.Rows.{LedgerRow}
use jungle_backend_challenge.Database.Tx.{Tx, ◌>>=◌, pure, reads}

-- `clampLimit`; none stands for a number that is no natural number.
unfoldable pub clamp_limit : Option ℕ → ℕ
clamp_limit none = 50
clamp_limit (some n) = if ltb n 1 then 50 else min n 100

-- The order of two UUIDs is that of their texts.
unfoldable pub codes_lt : List ℕ → List ℕ → Bool
codes_lt [] [] = false
codes_lt [] (d ∷ t) = true
codes_lt (c ∷ s) [] = false
codes_lt (c ∷ s) (d ∷ t) = ltb c d || (nat_eq c d && codes_lt s t)

-- `(created_at, id) < (?, ?)`
unfoldable pub is_before : LedgerRow → ℕ → String → Bool
unfolding codes_lt
is_before r at id =
    ltb r.created_at at || (nat_eq r.created_at at && codes_lt (codes r.id) (codes id))

-- `ORDER BY created_at DESC, id DESC`
unfoldable pub insert_entry : LedgerRow → List LedgerRow → List LedgerRow
unfolding is_before
insert_entry r [] = r ∷ []
insert_entry r (s ∷ rest) =
    if is_before r s.created_at s.id then s ∷ insert_entry r rest else r ∷ s ∷ rest

unfoldable pub newest_first : List LedgerRow → List LedgerRow
unfolding insert_entry
newest_first [] = []
newest_first (r ∷ rs) = insert_entry r (newest_first rs)

unfoldable pub take : ℕ → List LedgerRow → List LedgerRow
take zero rows = []
take (suc n) [] = []
take (suc n) (r ∷ rows) = r ∷ take n rows

-- A cursor that has been decoded: its time, in whole milliseconds, and its identifier.
pub record Position : Type 0 where
  pub at : ℕ
  pub id : String

-- `new Date(row.created_at)`
abbrev pub to_date : ℕ → ℕ
to_date t = t / 1000 * 1000

abbrev pub after_cursor : Option Position → LedgerRow → Bool
after_cursor none r = true
after_cursor (some p) r = is_before r p.at p.id

unfoldable pub last_entry : List LedgerRow → Option LedgerRow
last_entry [] = none
last_entry (r ∷ []) = some r
last_entry (r ∷ s ∷ rest) = last_entry (s ∷ rest)

-- `LedgerPage`, with the rows that `toView` shows.
pub record LedgerPage : Type 0 where
  pub entries : List LedgerRow
  pub next_cursor : Option Position

unfoldable pub next_of : ℕ → List LedgerRow → Option Position
unfolding last_entry
next_of limit rows =
    if nat_eq (length rows) limit
    then elim (last_entry rows) [
      | none ↦ none
      | some r ↦ some (record { at = to_date r.created_at; id = r.id })
    ]
    else none

-- The rows of the wallet, newest first, that come after the cursor.
unfoldable pub listed : String → Option Position → List LedgerRow → List LedgerRow
unfolding newest_first is_before
listed wallet cursor rows =
    newest_first (keep (λ r. r.wallet_id == wallet && after_cursor cursor r) rows)

unfoldable pub page_of : String → Option Position → ℕ → List LedgerRow → LedgerPage
unfolding listed next_of take
page_of wallet cursor limit rows =
    let entries = take limit (listed wallet cursor rows) in
    record { entries = entries; next_cursor = next_of limit entries }

unfoldable pub page_ledger : String → Option Position → Option ℕ → Tx LedgerPage
unfolding page_of clamp_limit
page_ledger wallet cursor limit = reads (λ db. page_of wallet cursor (clamp_limit limit) db.ledger)
