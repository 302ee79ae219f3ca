-- ===== src/Wallets/Ledger/Reconciles.antt =====
-- `reconcile` of src/wallets/ledger.repository.ts against the sums of the ledger.
use jungle_backend_challenge.Prelude.{
  ℕ, ◌+◌, ◌-◌, ◌≡◌, refl, sym, ap, ◌∙◌, subst, ◌≢◌, ◌↔◌, ◌⊎◌, inl, inr, true, false, ◌&&◌, String,
  ◌==◌, codes, eq_iff, some, List, [], ◌∷◌, find, leb, if◌then◌else◌, leb→le, Bool-cases, arith,
}
use jungle_backend_challenge.Prelude.Results.{ok}
use jungle_backend_challenge.Domain.Amount.{cents}
use jungle_backend_challenge.Domain.Amount.Print.{show_cents, show_decimals, cents-show_cents}
use jungle_backend_challenge.Domain.LedgerEntry.{LedgerDirection, debit, credit}
use jungle_backend_challenge.Database.Rows.{WalletRow, LedgerRow}
use jungle_backend_challenge.Database.Tables.{has_key, find-key}
use jungle_backend_challenge.Database.Tx.{World, ◌>>=◌}
use jungle_backend_challenge.Wagering.Repository.{wallet_key}
use jungle_backend_challenge.Wagering.Books.{IsSound, total, entries, same_direction}
use jungle_backend_challenge.Wallets.Ledger.{
  counted_in, sum_entries, signed_text, Reconciliation, reconciliation, reconcile_found, reconcile,
}

-- The sum of the query and the totals of the books.
sum_entries_lem :
    (id : String) (rows : List LedgerRow)
    → ((sum_entries id rows).plus ≡ total credit id rows)
      × ((sum_entries id rows).minus ≡ total debit id rows)
      × ((sum_entries id rows).count ≡ entries id rows)
unfolding sum_entries total entries
sum_entries_lem id [] = (refl, refl, refl)
sum_entries_lem id (r ∷ rs) =
    go (Bool-cases (r.wallet_id == id)) r.direction (sum_entries_lem id rs)
  where
    go :
        ((r.wallet_id == id) ≡ true) ⊎ ((r.wallet_id == id) ≡ false)
        → (d : LedgerDirection)
        → ((sum_entries id rs).plus ≡ total credit id rs)
          × ((sum_entries id rs).minus ≡ total debit id rs)
          × ((sum_entries id rs).count ≡ entries id rs)
        → let s =
            if r.wallet_id == id
            then counted_in d (cents r.value_amount) (sum_entries id rs)
            else sum_entries id rs in
          (s.plus
            ≡ (if r.wallet_id == id && same_direction d credit then cents r.value_amount else 0)
              + total credit id rs)
          × (s.minus
              ≡ (if r.wallet_id == id && same_direction d debit then cents r.value_amount else 0)
                + total debit id rs)
          × (s.count ≡ (if r.wallet_id == id then 1 else 0) + entries id rs)
    go (inl e) credit (p, m, c) = rw e (omega arith, omega arith, omega arith)
    go (inl e) debit (p, m, c) = rw e (omega arith, omega arith, omega arith)
    go (inr e) d (p, m, c) = rw e (omega arith, omega arith, omega arith)

-- The text of a difference is zero's exactly if there is none.
negative_text : (n : ℕ) → String.◌∷◌ "-" (show_cents n) ≢ "0.00"
negative_text n e = absurd (omega (arith, ap first e))
  where
    first : String → ℕ
    first s = elim (codes s) [ [] ↦ 0 | c ∷ _ ↦ c ]

zero_text : show_cents 0 ≡ "0.00"
unfolding show_cents show_decimals
zero_text = refl

signed_text-zero : (plus minus : ℕ) → (signed_text plus minus ≡ "0.00") ↔ (plus ≡ minus)
unfolding signed_text cents
signed_text-zero plus minus = elim (Bool-cases (leb minus plus)) [
  | inl e ↦ rw e (
    (λ h. omega (arith, zero_difference (plus - minus) h, leb→le minus plus e)),
    (λ h. rw h (ap show_cents (omega arith) ∙ zero_text)),
  )
  | inr e ↦ rw e (
    (λ h. absurd (negative_text (minus - plus) h)),
    (λ h. absurd (ground (arith, leb→le minus plus))),
  )
]
  where
    zero_difference : (n : ℕ) → show_cents n ≡ "0.00" → n ≡ 0
    zero_difference n h = sym (cents-show_cents n) ∙ ap cents h

-- The reconciliation of a stored wallet returns, with the stored balance, the number of its
-- entries, and a difference of 0.00, which it calls consistent, exactly if the balance is the
-- credits of the ledger less the debits.
pub reconcile_lem :
    (id : String) (w : WalletRow) (v : World)
    → find (has_key wallet_key id) v.db.wallets ≡ some w
    → (r : Reconciliation) × (reconcile id v ≡ (ok r, v))
      × ((r.consistent ≡ true)
          ↔ (cents w.balance_amount + total debit id v.db.ledger ≡ total credit id v.db.ledger))
      × ((r.consistent ≡ true) ↔ (r.difference.amount ≡ "0.00"))
      × (r.stored_balance.amount ≡ w.balance_amount)
      × (r.checked_entries ≡ entries id v.db.ledger)
unfolding reconcile ◌>>=◌ reconcile_found reconciliation
reconcile_lem id w v found =
    let s = sum_entries id v.db.ledger in
    let (plus, minus, count) = sum_entries_lem id v.db.ledger in
    let zero = signed_text-zero (cents w.balance_amount + s.minus) s.plus in
    let same = eq_iff (signed_text (cents w.balance_amount + s.minus) s.plus) "0.00" in
    (
      reconciliation w s,
      ap (λ o. reconcile_found id s o v) found,
      ((λ h. omega (arith, zero.0 (same.0 h))), (λ h. same.1 (zero.1 (omega arith)))),
      same,
      refl,
      count,
    )

-- On sound books every stored wallet reconciles: the difference is 0.00.
pub reconcile-IsSound :
    (id : String) (w : WalletRow) (v : World)
    → IsSound v.db
    → find (has_key wallet_key id) v.db.wallets ≡ some w
    → (r : Reconciliation) × (reconcile id v ≡ (ok r, v))
      × (r.consistent ≡ true)
      × (r.difference.amount ≡ "0.00")
reconcile-IsSound id w v h found =
    let (r, e, balanced, zero, stored, count) = reconcile_lem id w v found in
    let same : w.id ≡ id = find-key wallet_key id v.db.wallets w found in
    let b = balanced.1 (
      subst (λ k. cents w.balance_amount + total debit k v.db.ledger ≡ total credit k v.db.ledger)
        same (h.balanced id w found).balance) in
    (r, e, b, zero.0 b)
