-- ===== src/Domain/Money.antt =====
-- src/domain/money.ts: `class Money`, over the operations of decimal.js.
pub mod Laws
pub mod Texts
use jungle_backend_challenge.Prelude.{Bool, String, codes, ◌==◌, if◌then◌else◌}
use jungle_backend_challenge.Prelude.Results.{ok, err, ◌>>=◌, ◌>>◌}
use jungle_backend_challenge.Domain.Errors.{
  Outcome, MoneyField, domain, invalid_money, currency_mismatch,
}
use jungle_backend_challenge.Domain.Amount.{amount_pattern, currency_pattern}
use jungle_backend_challenge.Domain.Decimal.{DecimalOps}

pub record MoneyProps : Type 0 where
  pub amount : String
  pub currency : String

-- The instance of the class: its two fields, which only `create` and `rehydrate` set.
pub record Money : Type 0 where
  pub amount : String
  pub currency : String

unfoldable pub rehydrate : MoneyProps → Money
rehydrate props = record { amount = props.amount; currency = props.currency }

unfoldable pub to_json : Money → MoneyProps
to_json m = record { amount = m.amount; currency = m.currency }

-- `assertSameCurrency`
unfoldable pub assert_same_currency : Money → Money → Outcome (Unit {0})
assert_same_currency m other =
    if m.currency == other.currency
    then ok tt
    else err (domain (currency_mismatch m.currency other.currency))

module _ {D : Type 0} (dec : DecimalOps D) where
  unfoldable pub create : MoneyProps → Outcome Money
  create props =
      if amount_pattern (codes props.amount)
      then (if currency_pattern (codes props.currency)
          then ok
              (record { amount = dec.to_fixed (dec.parse props.amount); currency = props.currency })
          else err (domain (invalid_money MoneyField.currency props.currency)))
      else err (domain (invalid_money MoneyField.amount props.amount))

  unfoldable pub add : Money → Money → Outcome Money
  unfolding assert_same_currency
  add m other = do
    assert_same_currency m other
    create (record {
      amount = dec.to_fixed (dec.plus (dec.parse m.amount) (dec.parse other.amount));
      currency = m.currency;
    })

  unfoldable pub sub : Money → Money → Outcome Money
  unfolding assert_same_currency
  sub m other = do
    assert_same_currency m other
    create (record {
      amount = dec.to_fixed (dec.minus (dec.parse m.amount) (dec.parse other.amount));
      currency = m.currency;
    })

  unfoldable pub eq : Money → Money → Outcome Bool
  unfolding assert_same_currency
  eq m other = do
    assert_same_currency m other
    ok (dec.equals (dec.parse m.amount) (dec.parse other.amount))

  unfoldable pub gte : Money → Money → Outcome Bool
  unfolding assert_same_currency
  gte m other = do
    assert_same_currency m other
    ok (dec.gte (dec.parse m.amount) (dec.parse other.amount))

  unfoldable pub gt : Money → Money → Outcome Bool
  unfolding assert_same_currency
  gt m other = do
    assert_same_currency m other
    ok (dec.gt (dec.parse m.amount) (dec.parse other.amount))

  unfoldable pub is_zero : Money → Bool
  is_zero m = dec.is_zero (dec.parse m.amount)

  unfoldable pub is_negative : Money → Bool
  is_negative m = dec.is_negative (dec.parse m.amount)
