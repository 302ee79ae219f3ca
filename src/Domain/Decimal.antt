-- ===== src/Domain/Decimal.antt =====
-- The part of decimal.js that src/domain/money.ts, ledger-entry.ts and wallet.ts call. The package
-- is not part of the repository: its operations are an argument of all that uses them, and
-- `IsDecimal` states its documented behaviour on amounts, with the default precision of 20 digits.
pub mod Exact
use jungle_backend_challenge.Prelude.{
  ℕ, ◌+◌, ◌-◌, ◌≤◌, ◌<◌, ◌^◌, ◌≡◌, Bool, false, String, leb, ltb, nat_eq,
}
use jungle_backend_challenge.Domain.Amount.{IsAmount, cents}
use jungle_backend_challenge.Domain.Amount.Print.{show_cents}

pub record DecimalOps (D : Type 0) : Type 0 where
  -- `new Decimal(text)`
  pub parse : String → D
  -- `toFixed(2)`
  pub to_fixed : D → String
  pub plus : D → D → D
  pub minus : D → D → D
  pub equals : D → D → Bool
  pub gte : D → D → Bool
  pub gt : D → D → Bool
  pub is_zero : D → Bool
  pub is_negative : D → Bool

-- Results of up to 20 significant digits are exact.
abbrev pub precision : ℕ
precision = 10 ^ 20

pub record IsDecimal {D : Type 0} (ops : DecimalOps D) : Type 0 where
  pub to_fixed-parse : (s : String) → IsAmount s → ops.to_fixed (ops.parse s) ≡ show_cents (cents s)
  pub to_fixed-plus :
      (s t : String)
      → IsAmount s
      → IsAmount t
      → cents s + cents t < precision
      → ops.to_fixed (ops.plus (ops.parse s) (ops.parse t)) ≡ show_cents (cents s + cents t)
  pub to_fixed-minus :
      (s t : String)
      → IsAmount s
      → IsAmount t
      → cents s < precision
      → cents t ≤ cents s
      → ops.to_fixed (ops.minus (ops.parse s) (ops.parse t)) ≡ show_cents (cents s - cents t)
  pub to_fixed-minus_negative :
      (s t : String)
      → IsAmount s
      → IsAmount t
      → cents t < precision
      → cents s < cents t
      → ops.to_fixed (ops.minus (ops.parse s) (ops.parse t))
        ≡ String.◌∷◌ "-" (show_cents (cents t - cents s))
  pub is_negative-minus :
      (s t : String)
      → IsAmount s
      → IsAmount t
      → ops.is_negative (ops.minus (ops.parse s) (ops.parse t)) ≡ ltb (cents s) (cents t)
  pub is_negative-plus :
      (s t : String)
      → IsAmount s
      → IsAmount t
      → ops.is_negative (ops.plus (ops.parse s) (ops.parse t)) ≡ false
  pub is_negative-parse : (s : String) → IsAmount s → ops.is_negative (ops.parse s) ≡ false
  pub is_zero-parse : (s : String) → IsAmount s → ops.is_zero (ops.parse s) ≡ nat_eq (cents s) 0
