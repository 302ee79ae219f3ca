-- ===== src/Domain/Wallet.antt =====
-- src/domain/wallet.ts: `class Wallet`.
pub mod Laws
use jungle_backend_challenge.Prelude.{
  ℕ, ◌+◌, Bool, true, false, ◌&&◌, String, ◌==◌, Option, none, some, if◌then◌else◌,
}
use jungle_backend_challenge.Prelude.Results.{ok, err, ◌>>=◌}
use jungle_backend_challenge.Domain.Errors.{Outcome, domain, currency_mismatch, insufficient_funds}
use jungle_backend_challenge.Domain.Decimal.{DecimalOps}
use jungle_backend_challenge.Domain.Money
use jungle_backend_challenge.Domain.Money.{Money}
use jungle_backend_challenge.Domain.LedgerEntry.{
  LedgerDirection, debit, credit, LedgerEntry, candidate, record_entry,
}

-- `WalletSnapshot`, the only field of a `Wallet`.
pub record Wallet : Type 0 where
  pub id : String
  pub player_id : String
  pub currency : String
  pub balance : Money
  pub version : ℕ
  pub created_at : ℕ
  pub updated_at : ℕ

pub record OpenResult : Type 0 where
  pub wallet : Wallet
  pub opening : Option LedgerEntry

-- What `debit` and `credit` return.
pub record Applied : Type 0 where
  pub wallet : Wallet
  pub entry : LedgerEntry

unfoldable pub is_debit : LedgerDirection → Bool
is_debit debit = true
is_debit credit = false

module _ {D : Type 0} (dec : DecimalOps D) where
  -- `Wallet.open(props)`
  unfoldable pub open_wallet : String → String → String → Money → ℕ → Outcome OpenResult
  open_wallet id player_id currency initial_balance opened_at =
      let wallet : Wallet = record {
        id = id;
        player_id = player_id;
        currency = currency;
        balance = initial_balance;
        version = 1;
        created_at = opened_at;
        updated_at = opened_at;
      } in
      if Money.is_zero dec initial_balance
      then ok (record { wallet = wallet; opening = none })
      else do
        zero_balance ← Money.create dec (record { amount = "0"; currency = currency })
        opening ← record_entry dec credit initial_balance zero_balance id id opened_at
        ok (record { wallet = wallet; opening = some opening })

  -- `Wallet.apply`
  unfoldable pub apply : LedgerDirection → Wallet → Money → String → ℕ → Outcome Applied
  unfolding is_debit
  apply direction wallet value transaction_id at =
      if value.currency == wallet.currency
      then (if is_debit direction
            && dec.is_negative (candidate dec direction wallet.balance.amount value.amount)
          then err (domain (insufficient_funds wallet.balance.amount value.amount))
          else do
            entry ← record_entry dec direction value wallet.balance wallet.id transaction_id at
            ok (record {
              wallet = record wallet {
                balance = entry.balance_after;
                version = wallet.version + 1;
                updated_at = at;
              };
              entry = entry;
            }))
      else err (domain (currency_mismatch wallet.currency value.currency))

  unfoldable pub debit_wallet : Wallet → Money → String → ℕ → Outcome Applied
  debit_wallet = apply debit

  unfoldable pub credit_wallet : Wallet → Money → String → ℕ → Outcome Applied
  credit_wallet = apply credit
