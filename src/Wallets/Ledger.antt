-- ===== src/Wallets/Ledger.antt =====
-- src/wallets/ledger.repository.ts: `reconcile`. Sums are exact, as NUMERIC is; the signs of a sum are kept apart.
pub mod Reconciles
use jungle_backend_challenge.Prelude.{
  ℕ, zero, suc, ◌+◌, ◌-◌, ◌%◌, min, Bool, true, false, ◌&&◌, ◌||◌, not, String, ◌==◌, codes, Option,
  none, some, List, [], ◌∷◌, map, find, keep, length, leb, ltb, nat_eq, if◌then◌else◌,
}
use Prim.Native.String.{◌++◌}
use jungle_backend_challenge.Domain.Errors.{failure}
use jungle_backend_challenge.Domain.Amount.{cents}
use jungle_backend_challenge.Domain.Amount.Print.{show_cents}
use jungle_backend_challenge.Domain.Money.{MoneyProps}
use jungle_backend_challenge.Domain.LedgerEntry.{LedgerDirection, debit, credit}
use jungle_backend_challenge.Database.Rows.{WalletRow, LedgerRow}
use jungle_backend_challenge.Database.Tables.{has_key}
use jungle_backend_challenge.Database.Tx.{Tx, ◌>>=◌, pure, throw, reads}
use jungle_backend_challenge.Wagering.Repository.{wallet_key}

-- `SUM(CASE WHEN direction = 'CREDIT' THEN value ELSE -value END)` and `COUNT(le.id)`
pub record Sum : Type 0 where
  pub plus : ℕ
  pub minus : ℕ
  pub count : ℕ

abbrev pub counted_in : LedgerDirection → ℕ → Sum → Sum
counted_in credit value s = record s { plus = s.plus + value; count = s.count + 1 }
counted_in debit value s = record s { minus = s.minus + value; count = s.count + 1 }

-- The LEFT JOIN: the rows of the wallet.
unfoldable pub sum_entries : String → List LedgerRow → Sum
sum_entries id [] = record { plus = 0; minus = 0; count = 0 }
sum_entries id (r ∷ rs) =
    if r.wallet_id == id
    then counted_in r.direction (cents r.value_amount) (sum_entries id rs)
    else sum_entries id rs

-- The text of a NUMERIC with two decimals that may be negative.
unfoldable pub signed_text : ℕ → ℕ → String
signed_text plus minus =
    if leb minus plus then show_cents (plus - minus) else String.◌∷◌ "-" (show_cents (minus - plus))

-- `COALESCE(SUM(…), 0)`, which has no decimals where there is no row
unfoldable pub computed_text : Sum → String
unfolding signed_text
computed_text s = if nat_eq s.count 0 then "0" else signed_text s.plus s.minus

-- `ReconciliationResult`
pub record Reconciliation : Type 0 where
  pub wallet_id : String
  pub stored_balance : MoneyProps
  pub calculated_balance : MoneyProps
  pub difference : MoneyProps
  pub consistent : Bool
  pub checked_entries : ℕ

unfoldable pub reconciliation : WalletRow → Sum → Reconciliation
unfolding computed_text signed_text
reconciliation w s =
    let divergence = signed_text (cents w.balance_amount + s.minus) s.plus in
    record {
      wallet_id = w.id;
      stored_balance = record { amount = w.balance_amount; currency = w.balance_currency };
      calculated_balance = record { amount = computed_text s; currency = w.balance_currency };
      difference = record { amount = divergence; currency = w.balance_currency };
      consistent = divergence == "0.00";
      checked_entries = s.count;
    }

unfoldable pub reconcile_found : String → Sum → Option WalletRow → Tx Reconciliation
unfolding reconciliation
reconcile_found id sum none = throw (failure ("wallet " ++ (id ++ " not found")))
reconcile_found id sum (some w) = pure (reconciliation w sum)

unfoldable pub reconcile : String → Tx Reconciliation
unfolding reconcile_found sum_entries
reconcile id = do
  sum ← reads (λ db. sum_entries id db.ledger)
  wallet ← reads (λ db. find (has_key wallet_key id) db.wallets)
  reconcile_found id sum wallet
