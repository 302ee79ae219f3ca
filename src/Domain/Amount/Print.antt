-- ===== src/Domain/Amount/Print.antt =====
-- Lemmas on the text with two decimals of a number of hundredths, and on reading it back.
use jungle_backend_challenge.Prelude.{
  ℕ, zero, suc, ◌+◌, ◌*◌, ◌/◌, ◌%◌, ◌≤◌, ◌<◌, ◌≡◌, refl, ◌∙◌, true, false, String, Char, code,
  codes, nat_eq, if◌then◌else◌, arith, Bool-cases, inl, inr, ap,
}
use jungle_backend_challenge.Domain.Amount.{
  fraction_pattern, digits_pattern, amount_pattern, IsAmount, value_from, cents,
}

unfoldable pub digit_char : ℕ → Char
digit_char zero = "0"
digit_char (suc zero) = "1"
digit_char (suc (suc zero)) = "2"
digit_char (suc (suc (suc zero))) = "3"
digit_char (suc (suc (suc (suc zero)))) = "4"
digit_char (suc (suc (suc (suc (suc zero))))) = "5"
digit_char (suc (suc (suc (suc (suc (suc zero)))))) = "6"
digit_char (suc (suc (suc (suc (suc (suc (suc zero))))))) = "7"
digit_char (suc (suc (suc (suc (suc (suc (suc (suc zero)))))))) = "8"
digit_char (suc (suc (suc (suc (suc (suc (suc (suc (suc n))))))))) = "9"

code-digit_char : (d : ℕ) → d < 10 → code (digit_char d) ≡ b'0' + d
unfolding digit_char
code-digit_char zero h = refl
code-digit_char (suc zero) h = refl
code-digit_char (suc (suc zero)) h = refl
code-digit_char (suc (suc (suc zero))) h = refl
code-digit_char (suc (suc (suc (suc zero)))) h = refl
code-digit_char (suc (suc (suc (suc (suc zero))))) h = refl
code-digit_char (suc (suc (suc (suc (suc (suc zero)))))) h = refl
code-digit_char (suc (suc (suc (suc (suc (suc (suc zero))))))) h = refl
code-digit_char (suc (suc (suc (suc (suc (suc (suc (suc zero)))))))) h = refl
code-digit_char (suc (suc (suc (suc (suc (suc (suc (suc (suc zero))))))))) h = refl
code-digit_char (suc (suc (suc (suc (suc (suc (suc (suc (suc (suc n)))))))))) h =
    absurd (omega arith)

-- The digits of a number before `out`; none for zero. A fuel above the number is enough.
unfoldable pub emit : ℕ → ℕ → String → String
unfolding digit_char
emit zero n out = out
emit (suc fuel) n out =
    let rest = emit fuel (n / 10) (String.◌∷◌ (digit_char (n % 10)) out) in
    if nat_eq n 0 then out else rest

unfoldable pub show_decimals : ℕ → String
unfolding digit_char
show_decimals n =
    String.◌∷◌ "."
      (String.◌∷◌ (digit_char (n / 10 % 10)) (String.◌∷◌ (digit_char (n % 10)) String.[]))

-- What `toFixed(2)` and a column NUMERIC(18,2) show of a number of hundredths.
unfoldable pub show_cents : ℕ → String
show_cents n =
    if nat_eq (n / 100) 0
    then String.◌∷◌ "0" (show_decimals n)
    else emit (suc (n / 100)) (n / 100) (show_decimals n)

value_from-emit :
    (fuel n : ℕ) (out : String)
    → n < fuel
    → value_from 0 (codes (emit fuel n out)) ≡ value_from n (codes out)
unfolding emit value_from
value_from-emit zero n out h = absurd (omega arith)
value_from-emit (suc fuel) n out h = ground (
  arith,
  value_from-emit fuel (n / 10) (String.◌∷◌ (digit_char (n % 10)) out),
  code-digit_char (n % 10) (omega arith),
)

value-show_decimals : (n m : ℕ) → value_from m (codes (show_decimals n)) ≡ m * 100 + n % 100
unfolding show_decimals value_from
value-show_decimals n m =
    ground
      (arith, code-digit_char (n / 10 % 10) (omega arith), code-digit_char (n % 10) (omega arith))

value-zero_before :
    (out : String) → value_from 0 (codes (String.◌∷◌ "0" out)) ≡ value_from 0 (codes out)
unfolding value_from
value-zero_before out = refl

-- An amount's text with two decimals stands for the number it was printed from.
pub cents-show_cents : (n : ℕ) → cents (show_cents n) ≡ n
unfolding cents show_cents
cents-show_cents n = elim (Bool-cases (nat_eq (n / 100) 0)) [
  | inl small ↦
      rw small (value-zero_before (show_decimals n) ∙ value-show_decimals n 0 ∙ ground arith)
  | inr large ↦ rw large (
      value_from-emit (suc (n / 100)) (n / 100) (show_decimals n) (omega arith)
      ∙ value-show_decimals n (n / 100)
      ∙ omega arith)
]

digits_pattern-emit :
    (fuel n : ℕ) (out : String)
    → digits_pattern (codes out) ≡ true
    → digits_pattern (codes (emit fuel n out)) ≡ true
unfolding emit digits_pattern
digits_pattern-emit zero n out h = h
digits_pattern-emit (suc fuel) n out h = ground (
  arith,
  digits_pattern-emit fuel (n / 10) (String.◌∷◌ (digit_char (n % 10)) out),
  code-digit_char (n % 10) (omega arith),
)

emit_zero : (fuel : ℕ) (out : String) → emit fuel 0 out ≡ out
unfolding emit
emit_zero zero out = refl
emit_zero (suc fuel) out = refl

digits_pattern-digit :
    (d : ℕ) (out : String)
    → d < 10
    → digits_pattern (codes (String.◌∷◌ (digit_char d) out)) ≡ digits_pattern (codes out)
unfolding digits_pattern
digits_pattern-digit d out h = ground (arith, code-digit_char d h)

single_digit : (n : ℕ) → nat_eq (n / 10) 0 ≡ true → n / 10 ≡ 0
single_digit n h = ground arith

ten_le : (n : ℕ) → nat_eq (n / 10) 0 ≡ false → 10 ≤ n
ten_le n h = ground arith

amount_pattern-emit :
    (fuel n : ℕ) (out : String)
    → 0 < n
    → n < fuel
    → digits_pattern (codes out) ≡ true
    → amount_pattern (codes (emit fuel n out)) ≡ true
unfolding emit amount_pattern
amount_pattern-emit zero n out pos h p = absurd (omega arith)
amount_pattern-emit (suc fuel) n out pos h p =
    let out' : String = String.◌∷◌ (digit_char (n % 10)) out in
    elim (Bool-cases (nat_eq (n / 10) 0)) [
      | inl last ↦ ground (
        arith,
        emit_zero fuel out',
        code-digit_char (n % 10) (omega arith),
        ap (λ (k : ℕ). emit fuel k out') (single_digit n last),
      )
      | inr more ↦ ground (
        arith,
        amount_pattern-emit fuel (n / 10) out',
        digits_pattern-digit (n % 10) out,
        ten_le n more,
      )
    ]

fraction-show_decimals : (n : ℕ) → fraction_pattern (codes (show_decimals n)) ≡ true
unfolding fraction_pattern show_decimals
fraction-show_decimals n =
    ground
      (arith, code-digit_char (n / 10 % 10) (omega arith), code-digit_char (n % 10) (omega arith))

digits-show_decimals : (n : ℕ) → digits_pattern (codes (show_decimals n)) ≡ true
unfolding digits_pattern show_decimals
digits-show_decimals n =
    ground
      (arith, code-digit_char (n / 10 % 10) (omega arith), code-digit_char (n % 10) (omega arith))

-- The text of a number of hundredths is an amount that the pattern accepts.
pub show_cents-IsAmount : (n : ℕ) → IsAmount (show_cents n)
unfolding show_cents
show_cents-IsAmount n = elim (Bool-cases (nat_eq (n / 100) 0)) [
  | inl small ↦ rw small (unfold amount_pattern in fraction-show_decimals n)
  | inr large ↦ rw large (
      amount_pattern-emit (suc (n / 100)) (n / 100) (show_decimals n) (ground arith) (omega arith)
        (digits-show_decimals n))
]
