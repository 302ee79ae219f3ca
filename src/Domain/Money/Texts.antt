-- ===== src/Domain/Money/Texts.antt =====
-- The texts that `Money.create` of src/domain/money.ts accepts, by a grammar of their own.
use jungle_backend_challenge.Prelude.{
  ℕ, ◌+◌, ◌-◌, ◌*◌, ◌≤◌, ◌<◌, ◌≡◌, refl, sym, subst, true, false, codes, List, [], ◌∷◌, nat_eq,
  is_digit, arith, Bool-cases, inl, inr,
}
use jungle_backend_challenge.Prelude.Results.{ok, err}
use jungle_backend_challenge.Domain.Errors.{Outcome, MoneyField, domain, invalid_money}
use jungle_backend_challenge.Domain.Amount.{
  fraction_pattern, digits_pattern, amount_pattern, currency_pattern, decimals_value, value_from,
  cents,
}
use jungle_backend_challenge.Domain.Decimal.{DecimalOps, IsDecimal}
use jungle_backend_challenge.Domain.Money.{MoneyProps, Money, create}
use jungle_backend_challenge.Domain.Money.Laws.{of_cents, create-patterns}

abbrev pub IsDigit : ℕ → Type 0
IsDigit c = (b'0' ≤ c) × (c ≤ b'9')

-- After the units: nothing, or a point and one or two digits. The number is in hundredths.
pub data Fraction (units : ℕ) : List ℕ → ℕ → Type 0 where
  whole : Fraction units [] (units * 100)
  tenths : {d : ℕ} → IsDigit d → Fraction units (b'.' ∷ d ∷ []) (units * 100 + (d - b'0') * 10)
  hundredths :
      {d e : ℕ}
      → IsDigit d
      → IsDigit e
      → Fraction units (b'.' ∷ d ∷ e ∷ []) (units * 100 + (d - b'0') * 10 + (e - b'0'))

-- Digits that follow units, and a fraction.
pub data Digits : ℕ → List ℕ → ℕ → Type 0 where
  done : {units n : ℕ} {s : List ℕ} → Fraction units s n → Digits units s n
  digit :
      {units n c : ℕ} {s : List ℕ}
      → IsDigit c
      → Digits (units * 10 + (c - b'0')) s n
      → Digits units (c ∷ s) n

-- A decimal text without a sign and without leading zeros, with at most two decimals, and the number
-- of hundredths that it stands for.
pub data IsWorth : List ℕ → ℕ → Type 0 where
  below_one : {n : ℕ} {s : List ℕ} → Fraction 0 s n → IsWorth (b'0' ∷ s) n
  from_one : {c n : ℕ} {s : List ℕ} → b'0' < c → c ≤ b'9' → Digits 0 (c ∷ s) n → IsWorth (c ∷ s) n

-- Three letters from A to Z.
pub data IsCode : List ℕ → Type 0 where
  letters :
      {a b c : ℕ}
      → (b'A' ≤ a) × (a ≤ b'Z')
      → (b'A' ≤ b) × (b ≤ b'Z')
      → (b'A' ≤ c) × (c ≤ b'Z')
      → IsCode (a ∷ b ∷ c ∷ [])

fraction_pattern-Fraction :
    (units : ℕ) (s : List ℕ) → fraction_pattern s ≡ true → Fraction units s (value_from units s)
unfolding fraction_pattern value_from decimals_value
fraction_pattern-Fraction units [] h = whole
fraction_pattern-Fraction units (c ∷ []) h = ground arith
fraction_pattern-Fraction units (c ∷ d ∷ []) h =
    let point : b'.' ≡ c = ground arith in
    subst (λ c. Fraction units (c ∷ d ∷ []) (value_from units (c ∷ d ∷ []))) point
      (tenths (ground arith, ground arith))
fraction_pattern-Fraction units (c ∷ d ∷ e ∷ []) h =
    let point : b'.' ≡ c = ground arith in
    subst (λ c. Fraction units (c ∷ d ∷ e ∷ []) (value_from units (c ∷ d ∷ e ∷ []))) point
      (hundredths (ground arith, ground arith) (ground arith, ground arith))
fraction_pattern-Fraction units (c ∷ d ∷ e ∷ f ∷ s) h = ground arith

digits_pattern-Digits :
    (units : ℕ) (s : List ℕ) → digits_pattern s ≡ true → Digits units s (value_from units s)
unfolding digits_pattern value_from
digits_pattern-Digits units [] h = done whole
digits_pattern-Digits units (c ∷ s) h = elim (Bool-cases (is_digit c)) [
  | inl d ↦
      let other : nat_eq c b'.' ≡ false = ground arith in
      rw other (
        digit (ground arith, ground arith)
          (digits_pattern-Digits (units * 10 + (c - b'0')) s (ground arith)))
  | inr d ↦ done (fraction_pattern-Fraction units (c ∷ s) (ground arith))
]

amount_pattern-IsWorth : (s : List ℕ) → amount_pattern s ≡ true → IsWorth s (value_from 0 s)
unfolding amount_pattern digits_pattern value_from
amount_pattern-IsWorth [] h = ground arith
amount_pattern-IsWorth (c ∷ s) h = elim (Bool-cases (nat_eq c b'0')) [
  | inl zero ↦
      let same : b'0' ≡ c = ground arith in
      subst (λ c. IsWorth (c ∷ s) (value_from 0 (c ∷ s))) same
        (below_one (fraction_pattern-Fraction 0 s (ground arith)))
  | inr other ↦
      from_one (ground arith) (ground arith) (digits_pattern-Digits 0 (c ∷ s) (ground arith))
]

Fraction-pattern : {units n : ℕ} {s : List ℕ} → Fraction units s n → fraction_pattern s ≡ true
unfolding fraction_pattern
Fraction-pattern whole = refl
Fraction-pattern (tenths d) = ground arith
Fraction-pattern (hundredths d e) = ground arith

Fraction-digits : {units n : ℕ} {s : List ℕ} → Fraction units s n → digits_pattern s ≡ true
unfolding fraction_pattern digits_pattern
Fraction-digits whole = refl
Fraction-digits (tenths d) = ground arith
Fraction-digits (hundredths d e) = ground arith

Digits-pattern : {units n : ℕ} {s : List ℕ} → Digits units s n → digits_pattern s ≡ true
unfolding digits_pattern
Digits-pattern (done f) = Fraction-digits f
Digits-pattern (digit d more) = ground (arith, Digits-pattern more)

IsWorth-pattern : {n : ℕ} {s : List ℕ} → IsWorth s n → amount_pattern s ≡ true
unfolding amount_pattern digits_pattern
IsWorth-pattern (below_one f) = Fraction-pattern f
IsWorth-pattern (from_one d more ds) = ground (arith, Digits-pattern ds)

currency_pattern-IsCode : (s : List ℕ) → currency_pattern s ≡ true → IsCode s
unfolding currency_pattern
currency_pattern-IsCode [] h = ground arith
currency_pattern-IsCode (a ∷ []) h = ground arith
currency_pattern-IsCode (a ∷ b ∷ []) h = ground arith
currency_pattern-IsCode (a ∷ b ∷ c ∷ []) h =
    letters (ground arith, ground arith) (ground arith, ground arith) (ground arith, ground arith)
currency_pattern-IsCode (a ∷ b ∷ c ∷ d ∷ s) h = ground arith

IsCode-pattern : {s : List ℕ} → IsCode s → currency_pattern s ≡ true
unfolding currency_pattern
IsCode-pattern (letters a b c) = ground arith

-- What `create` makes of an amount and a currency.
pub data Created (p : MoneyProps) : Outcome Money → Type 0 where
  accepted :
      (n : ℕ)
      → IsWorth (codes p.amount) n
      → IsCode (codes p.currency)
      → Created p (ok (of_cents n p.currency))
  no_amount :
      ((n : ℕ) → ¬ IsWorth (codes p.amount) n)
      → Created p (err (domain (invalid_money MoneyField.amount p.amount)))
  no_currency :
      (n : ℕ)
      → IsWorth (codes p.amount) n
      → ¬ IsCode (codes p.currency)
      → Created p (err (domain (invalid_money MoneyField.currency p.currency)))

module _ {D : Type 0} (dec : DecimalOps D) (laws : IsDecimal dec) where
  -- `create` accepts exactly the decimal texts without a sign and without leading zeros that have at
  -- most two decimals, with a currency of three letters from A to Z, and keeps what the text is worth
  -- at two decimals; otherwise it throws, and names the amount if that is to blame, or else the
  -- currency.
  pub create_lem : (p : MoneyProps) → Created p (create dec p)
  unfolding cents
  create_lem p =
      subst (Created p) (sym (create-patterns dec laws p))
        (elim (Bool-cases (amount_pattern (codes p.amount))) [
          | inl a ↦ elim (Bool-cases (currency_pattern (codes p.currency))) [
            | inl c ↦
                rw (a, c) (accepted _ (amount_pattern-IsWorth _ a) (currency_pattern-IsCode _ c))
            | inr c ↦
                rw (a, c)
                  (no_currency _ (amount_pattern-IsWorth _ a) (λ code. cc (IsCode-pattern code)))
          ]
          | inr a ↦ rw a (no_amount (λ n worth. cc (IsWorth-pattern worth)))
        ])
