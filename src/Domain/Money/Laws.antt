-- ===== src/Domain/Money/Laws.antt =====
-- Lemmas on src/domain/money.ts: its arithmetic in terms of the hundredths that the
-- texts stand for.
use jungle_backend_challenge.Prelude.{
  ℕ, ◌+◌, ◌-◌, ◌≤◌, ◌<◌, ◌≡◌, refl, true, false, String, codes, ◌==◌, eq_iff, nat_eq, arith,
  Bool-cases, inl, inr, ◌∙◌, if◌then◌else◌, sym, subst,
}
use jungle_backend_challenge.Prelude.Results.{ok, err, ok-injective}
use jungle_backend_challenge.Domain.Errors.{MoneyField, domain, invalid_money, currency_mismatch}
use jungle_backend_challenge.Domain.Amount.{amount_pattern, currency_pattern, IsAmount, cents}
use jungle_backend_challenge.Domain.Amount.Print.{show_cents, cents-show_cents, show_cents-IsAmount}
use jungle_backend_challenge.Domain.Decimal.{DecimalOps, IsDecimal, precision}
use jungle_backend_challenge.Domain.Money.{
  MoneyProps, Money, create, add, sub, is_zero, is_negative,
}

-- What `create` guarantees: two decimals, and a code of three capital letters.
pub record IsMoney (m : Money) : Type 0 where
  pub scale : m.amount ≡ show_cents (cents m.amount)
  pub code : currency_pattern (codes m.currency) ≡ true

-- The money of a number of hundredths.
abbrev pub of_cents : ℕ → String → Money
of_cents n currency = record { amount = show_cents n; currency = currency }

pub IsAmount-of_scale : (s : String) → s ≡ show_cents (cents s) → IsAmount s
IsAmount-of_scale s h = rw h (show_cents-IsAmount (cents s))

pub IsMoney-amount : (m : Money) → IsMoney m → IsAmount m.amount
IsMoney-amount m h = IsAmount-of_scale m.amount h.scale

pub of_cents-IsMoney :
    (n : ℕ) (c : String) → currency_pattern (codes c) ≡ true → IsMoney (of_cents n c)
of_cents-IsMoney n c h = record { scale = rw cents-show_cents; code = h }

module _ {D : Type 0} (dec : DecimalOps D) (laws : IsDecimal dec) where
  pub create-ok :
      (a c : String)
      → IsAmount a
      → currency_pattern (codes c) ≡ true
      → create dec (record { amount = a; currency = c }) ≡ ok (of_cents (cents a) c)
  unfolding create
  create-ok a c h k = rw (h, k, laws.to_fixed-parse a h) refl

  pub create-show_cents :
      (n : ℕ) (c : String)
      → currency_pattern (codes c) ≡ true
      → create dec (record { amount = show_cents n; currency = c }) ≡ ok (of_cents n c)
  create-show_cents n c k =
      rw (create-ok (show_cents n) c (show_cents-IsAmount n) k) (rw cents-show_cents)

  pub create-patterns :
      (p : MoneyProps)
      → create dec p ≡ (
          if amount_pattern (codes p.amount)
          then (if currency_pattern (codes p.currency)
              then ok (of_cents (cents p.amount) p.currency)
              else err (domain (invalid_money MoneyField.currency p.currency)))
          else err (domain (invalid_money MoneyField.amount p.amount)))
  unfolding create
  create-patterns p = elim (Bool-cases (amount_pattern (codes p.amount))) [
    | inl h ↦ rw (h, laws.to_fixed-parse p.amount h) refl
    | inr h ↦ rw h refl
  ]

  pub create-IsMoney : (p : MoneyProps) (m : Money) → create dec p ≡ ok m → IsMoney m
  create-IsMoney p m h =
      let e = create-patterns p in
      elim (Bool-cases (amount_pattern (codes p.amount))) [
        | inl a ↦ elim (Bool-cases (currency_pattern (codes p.currency))) [
          | inl c ↦
              subst IsMoney (ok-injective (sym (create-ok p.amount p.currency a c) ∙ h))
                (of_cents-IsMoney (cents p.amount) p.currency c)
          | inr c ↦ ground arith
        ]
        | inr a ↦ ground arith
      ]

  -- Money of one currency adds up exactly, below the precision of decimal.js; two currencies do
  -- not mix.
  pub add_lem :
      (m n : Money)
      → IsMoney m
      → IsMoney n
      → cents m.amount + cents n.amount < precision
      → add dec m n ≡ (
          if m.currency == n.currency
          then ok (of_cents (cents m.amount + cents n.amount) m.currency)
          else err (domain (currency_mismatch m.currency n.currency)))
  unfolding add
  add_lem m n h k b =
      rw (laws.to_fixed-plus m.amount n.amount (IsMoney-amount m h) (IsMoney-amount n k) b)
        (rw (create-show_cents (cents m.amount + cents n.amount) m.currency h.code) (ground arith))

  -- Money of one currency below the precision of decimal.js subtracts exactly where the difference
  -- is not negative; two currencies do not mix.
  pub sub_lem :
      (m n : Money)
      → IsMoney m
      → IsMoney n
      → cents m.amount < precision
      → cents n.amount ≤ cents m.amount
      → sub dec m n ≡ (
          if m.currency == n.currency
          then ok (of_cents (cents m.amount - cents n.amount) m.currency)
          else err (domain (currency_mismatch m.currency n.currency)))
  unfolding sub
  sub_lem m n h k b le =
      rw (laws.to_fixed-minus m.amount n.amount (IsMoney-amount m h) (IsMoney-amount n k) b le)
        (rw (create-show_cents (cents m.amount - cents n.amount) m.currency h.code) (ground arith))

  -- In one currency and below the precision of decimal.js, a negative difference is no money: `sub`
  -- throws, with the text of the difference.
  pub sub_negative :
      (m n : Money)
      → IsMoney m
      → IsMoney n
      → m.currency ≡ n.currency
      → cents n.amount < precision
      → cents m.amount < cents n.amount
      → sub dec m n
        ≡ err (
            domain (
              invalid_money MoneyField.amount
                (String.◌∷◌ "-" (show_cents (cents n.amount - cents m.amount)))))
  unfolding sub create amount_pattern
  sub_negative m n h k e b lt =
      rw
        (laws.to_fixed-minus_negative m.amount n.amount (IsMoney-amount m h) (IsMoney-amount n k) b
          lt)
        (ground (arith, eq_iff m.currency n.currency))

  pub is_zero_lem : (m : Money) → IsMoney m → is_zero dec m ≡ nat_eq (cents m.amount) 0
  unfolding is_zero
  is_zero_lem m h = laws.is_zero-parse m.amount (IsMoney-amount m h)

  pub is_negative_lem : (m : Money) → IsMoney m → is_negative dec m ≡ false
  unfolding is_negative
  is_negative_lem m h = laws.is_negative-parse m.amount (IsMoney-amount m h)

  -- What `create` returns is worth what it was given.
  pub create-cents :
      (p : MoneyProps) (m : Money)
      → create dec p ≡ ok m
      → IsMoney m × (cents m.amount ≡ cents p.amount) × (m.currency ≡ p.currency)
  create-cents p m h = (
    create-IsMoney p m h,
    ground (arith, create-patterns p, cents-show_cents (cents p.amount)),
    ground (arith, create-patterns p),
  )
