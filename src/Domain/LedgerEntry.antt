-- ===== src/Domain/LedgerEntry.antt =====
-- src/domain/ledger-entry.ts: `class LedgerEntry`.
pub mod Laws
use jungle_backend_challenge.Prelude.{ℕ, Bool, ◌||◌, String, if◌then◌else◌}
use jungle_backend_challenge.Prelude.Results.{ok, err, ◌>>=◌}
use jungle_backend_challenge.Domain.Errors.{Outcome, domain, invalid_ledger_entry}
use jungle_backend_challenge.Domain.Decimal.{DecimalOps}
use jungle_backend_challenge.Domain.Money
use jungle_backend_challenge.Domain.Money.{Money}

pub data LedgerDirection : Type 0 where
  debit credit : LedgerDirection

-- `LedgerEntryProps`; times are milliseconds
pub record LedgerEntry : Type 0 where
  pub direction : LedgerDirection
  pub value : Money
  pub balance_before : Money
  pub balance_after : Money
  pub wallet_id : String
  pub transaction_id : String
  pub created_at : ℕ

module _ {D : Type 0} (dec : DecimalOps D) where
  -- The Decimal that both `record` and `Wallet.apply` compute from two amounts.
  unfoldable pub candidate : LedgerDirection → String → String → D
  candidate debit balance value = dec.minus (dec.parse balance) (dec.parse value)
  candidate credit balance value = dec.plus (dec.parse balance) (dec.parse value)

  -- `LedgerEntry.record(props)`
  unfoldable pub record_entry :
      LedgerDirection → Money → Money → String → String → ℕ → Outcome LedgerEntry
  record_entry direction value balance_before wallet_id transaction_id at =
      if Money.is_zero dec value || Money.is_negative dec value
      then err (domain (invalid_ledger_entry "ledger value must be positive" value.amount))
      else (let c = candidate direction balance_before.amount value.amount in
          if dec.is_negative c
          then err
              (domain (invalid_ledger_entry "resulting balance would be negative" (dec.to_fixed c)))
          else do
            balance_after ←
                Money.create dec
                  (record { amount = dec.to_fixed c; currency = balance_before.currency })
            ok (record {
              direction = direction;
              value = value;
              balance_before = balance_before;
              balance_after = balance_after;
              wallet_id = wallet_id;
              transaction_id = transaction_id;
              created_at = at;
            }))
