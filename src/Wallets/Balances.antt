-- ===== src/Wallets/Balances.antt =====
-- The books with the row of a new wallet, as src/infrastructure/database/wallet.repository.ts writes
-- it: with no entry, or with one credit of its balance.
use jungle_backend_challenge.Prelude.{
  ℕ, ◌<◌, ◌≡◌, ◌≢◌, refl, sym, ap, ◌∙◌, subst, Bool, true, false, String, ◌==◌, List, [], ◌∷◌, some,
  find, any, arith, Bool-cases, inl, inr,
}
use jungle_backend_challenge.Domain.Amount.{cents}
use jungle_backend_challenge.Domain.Money.{Money}
use jungle_backend_challenge.Domain.Money.Laws.{IsMoney}
use jungle_backend_challenge.Domain.LedgerEntry.{LedgerDirection, debit, credit}
use jungle_backend_challenge.Database.Rows.{Db, WalletRow, LedgerRow, numeric_limit}
use jungle_backend_challenge.Database.Tables.{has_key, find-any}
use jungle_backend_challenge.Wagering.Repository.{wallet_key}
use jungle_backend_challenge.Wagering.Repository.Movements.{arithmetic_holds}
use jungle_backend_challenge.Wagering.Books.{IsBalanced, IsSound, total}
use jungle_backend_challenge.Wagering.Books.Movement.{total-own, other-IsBalanced}
use jungle_backend_challenge.Wallets.Creation.{new_wallet}

-- No entry names the wallet.
abbrev pub is_named : String → List LedgerRow → Bool
is_named id ledger = any (λ r. r.wallet_id == id) ledger

total-unnamed :
    (d : LedgerDirection) (id : String) (ledger : List LedgerRow)
    → is_named id ledger ≡ false
    → total d id ledger ≡ 0
unfolding total
total-unnamed d id [] h = refl
total-unnamed d id (r ∷ rs) h = ground (arith, total-unnamed d id rs)

-- Every wallet of a table with a new row is balanced if the new row and the old ones are.
with_new-IsBalanced :
    (rows : List WalletRow) (ledger : List LedgerRow) (wallet : WalletRow)
    → any (has_key wallet_key wallet.id) rows ≡ false
    → IsBalanced ledger wallet
    → ((id : String) (w : WalletRow)
        → find (has_key wallet_key id) rows ≡ some w
        → wallet.id ≢ w.id
        → IsBalanced ledger w)
    → (id : String) (w : WalletRow) → find (has_key wallet_key id) (wallet ∷ rows) ≡ some w
    → IsBalanced ledger w
with_new-IsBalanced rows ledger wallet fresh own others id w f =
    elim (Bool-cases (wallet.id == id)) [
      | inl same ↦ subst (IsBalanced ledger) (ground arith) own
      | inr differs ↦
          let old : find (has_key wallet_key id) rows ≡ some w = ground arith in
          others id w old λ e. absurd (
            ground (
              arith,
              find-any wallet_key (has_key wallet_key id) rows w old,
              ap (λ s. any (has_key wallet_key s) rows) e,
            ))
    ]

module _ (db : Db) (id player : String) (balance : Money) (now : ℕ) (h : IsSound db)
    (money : IsMoney balance) (small : cents balance.amount < numeric_limit)
    (fresh : any (has_key wallet_key id) db.wallets ≡ false)
    (unnamed : is_named id db.ledger ≡ false) where
  -- The wallet opens with nothing.
  pub empty-IsSound :
      balance.amount ≡ "0.00"
      → IsSound (record db { wallets = new_wallet id player balance now ∷ db.wallets })
  unfolding cents
  empty-IsSound zero_amount = record {
    keyed = (fresh, h.keyed);
    balanced =
        with_new-IsBalanced db.wallets db.ledger (new_wallet id player balance now) fresh
          (record {
            scale = money.scale;
            code = money.code;
            currency = refl;
            limit = small;
            balance =
                rw
                  (
                    zero_amount,
                    total-unnamed debit id db.ledger unnamed,
                    total-unnamed credit id db.ledger unnamed,
                  )
                  refl;
          })
          (λ k w f _. h.balanced k w f);
    entries_hold = h.entries_hold;
  }

  -- The wallet opens with one credit of its balance.
  pub opened-IsSound :
      (e : LedgerRow)
      → e.wallet_id ≡ id
      → e.direction ≡ credit
      → e.value_amount ≡ balance.amount
      → arithmetic_holds e.direction
          (cents e.value_amount)
          (cents e.balance_before_amount)
          (cents e.balance_after_amount)
        ≡ true
      → IsSound (record db {
        wallets = new_wallet id player balance now ∷ db.wallets;
        ledger = e ∷ db.ledger;
      })
  opened-IsSound e own dir value holds = record {
    keyed = (fresh, h.keyed);
    balanced =
        with_new-IsBalanced db.wallets (e ∷ db.ledger) (new_wallet id player balance now) fresh
          (record {
            scale = money.scale;
            code = money.code;
            currency = refl;
            limit = small;
            balance = ground (
              arith,
              total-own debit id e db.ledger own,
              total-own credit id e db.ledger own,
              total-unnamed debit id db.ledger unnamed,
              total-unnamed credit id db.ledger unnamed,
              ap cents value,
            );
          })
          (λ k w f ne. other-IsBalanced w e db.ledger (h.balanced k w f) (λ p. ne (sym own ∙ p)));
    entries_hold = (holds, h.entries_hold);
  }
