-- ===== src/Domain/Decimal/Exact.antt =====
-- Exact decimals of two places as a sign and a number of hundredths, which stand for decimal.js in
-- the tests.
use jungle_backend_challenge.Prelude.{
  ℕ, ◌+◌, ◌-◌, refl, Bool, true, false, String, leb, nat_eq, if◌then◌else◌, arith, not,
}
use jungle_backend_challenge.Domain.Amount.{cents}
use jungle_backend_challenge.Domain.Amount.Print.{show_cents}
use jungle_backend_challenge.Domain.Decimal.{DecimalOps, IsDecimal}

pub data Signed : Type 0 where
  plus : ℕ → Signed
  -- a number below zero, by its distance from zero
  minus : ℕ → Signed

abbrev sum : Signed → Signed → Signed
sum (plus a) (plus b) = plus (a + b)
sum (plus a) (minus b) = if leb b a then plus (a - b) else minus (b - a)
sum (minus a) (plus b) = if leb a b then plus (b - a) else minus (a - b)
sum (minus a) (minus b) = minus (a + b)

abbrev negate : Signed → Signed
negate (plus a) = if nat_eq a 0 then plus 0 else minus a
negate (minus a) = plus a

abbrev below_zero : Signed → Bool
below_zero (plus a) = false
below_zero (minus a) = true

abbrev nothing : Signed → Bool
nothing (plus a) = nat_eq a 0
nothing (minus a) = false

abbrev print : Signed → String
print (plus a) = show_cents a
print (minus a) = String.◌∷◌ "-" (show_cents a)

abbrev pub exact : DecimalOps Signed
exact = record {
  parse = λ s. plus (cents s);
  to_fixed = print;
  plus = sum;
  minus = λ a b. sum a (negate b);
  equals = λ a b. nothing (sum a (negate b));
  gte = λ a b. not (below_zero (sum a (negate b)));
  gt = λ a b. below_zero (sum b (negate a));
  is_zero = nothing;
  is_negative = below_zero;
}

pub exact-IsDecimal : IsDecimal exact
exact-IsDecimal = record {
  to_fixed-parse = λ s h. refl;
  to_fixed-plus = λ s t h k b. refl;
  to_fixed-minus = λ s t h k b c. ground arith;
  to_fixed-minus_negative = λ s t h k b c. ground arith;
  is_negative-minus = λ s t h k. ground arith;
  is_negative-plus = λ s t h k. refl;
  is_negative-parse = λ s h. refl;
  is_zero-parse = λ s h. refl;
}
