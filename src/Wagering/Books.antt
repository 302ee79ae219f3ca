-- ===== src/Wagering/Books.antt =====
-- The books: what the ledger says of each wallet, and when the two agree.
pub mod Movement
pub mod Store
pub mod Frame
pub mod Statuses
pub mod Processing
pub mod Commands
pub mod Settled
pub mod Outcome
pub mod Retries
use jungle_backend_challenge.Prelude.{
  ℕ, ◌+◌, ◌<◌, ◌≡◌, Bool, true, false, ◌&&◌, String, ◌==◌, codes, List, [], ◌∷◌, some, find,
  if◌then◌else◌,
}
use jungle_backend_challenge.Domain.Amount.{cents, currency_pattern}
use jungle_backend_challenge.Domain.Amount.Print.{show_cents}
use jungle_backend_challenge.Domain.LedgerEntry.{LedgerDirection, debit, credit}
use jungle_backend_challenge.Database.Rows.{Db, WalletRow, LedgerRow, numeric_limit}
use jungle_backend_challenge.Database.Tables.{has_key, IsKeyed}
use jungle_backend_challenge.Wagering.Repository.{wallet_key}
use jungle_backend_challenge.Wagering.Repository.Movements.{arithmetic_holds}

abbrev pub same_direction : LedgerDirection → LedgerDirection → Bool
same_direction debit debit = true
same_direction credit credit = true
same_direction _ _ = false

-- The sum of the values of a wallet's entries in one direction, in hundredths.
unfoldable pub total : LedgerDirection → String → List LedgerRow → ℕ
total d id [] = 0
total d id (r ∷ rs) =
    (if r.wallet_id == id && same_direction r.direction d then cents r.value_amount else 0)
    + total d id rs

-- The number of a wallet's entries.
unfoldable pub entries : String → List LedgerRow → ℕ
entries id [] = 0
entries id (r ∷ rs) = (if r.wallet_id == id then 1 else 0) + entries id rs

-- A wallet's balance is money in its currency that NUMERIC(18,2) holds, and it is the credits of
-- the ledger less the debits. Every movement has raised the version.
pub record IsBalanced (ledger : List LedgerRow) (w : WalletRow) : Type 0 where
  pub scale : w.balance_amount ≡ show_cents (cents w.balance_amount)
  pub code : currency_pattern (codes w.balance_currency) ≡ true
  pub currency : w.balance_currency ≡ w.currency
  pub limit : cents w.balance_amount < numeric_limit
  pub balance : cents w.balance_amount + total debit w.id ledger ≡ total credit w.id ledger

-- An entry leads from its balance before to its balance after.
abbrev pub AllHold : List LedgerRow → Type 0
AllHold [] = Unit
AllHold (r ∷ rs) =
    (arithmetic_holds r.direction (cents r.value_amount) (cents r.balance_before_amount)
        (cents r.balance_after_amount)
      ≡ true)
    × AllHold rs

pub record IsSound (db : Db) : Type 0 where
  pub keyed : IsKeyed wallet_key db.wallets
  pub balanced :
      (id : String) (w : WalletRow)
      → find (has_key wallet_key id) db.wallets ≡ some w
      → IsBalanced db.ledger w
  pub entries_hold : AllHold db.ledger
