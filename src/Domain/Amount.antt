-- ===== src/Domain/Amount.antt =====
-- The decimal texts that `AMOUNT_PATTERN` of src/domain/money.ts accepts, the number of hundredths
-- that such a text stands for, and the text with two decimals of a number of hundredths.
pub mod Print
use jungle_backend_challenge.Prelude.{
  ℕ, ◌+◌, ◌-◌, ◌*◌, ◌≡◌, Bool, true, false, ◌&&◌, List, [], ◌∷◌, String, codes, is_digit, is_upper,
  nat_eq, if◌then◌else◌,
}

-- `(\.\d{1,2})?$`
unfoldable pub fraction_pattern : List ℕ → Bool
fraction_pattern [] = true
fraction_pattern (c ∷ []) = false
fraction_pattern (c ∷ d ∷ []) = nat_eq c b'.' && is_digit d
fraction_pattern (c ∷ d ∷ e ∷ []) = nat_eq c b'.' && (is_digit d && is_digit e)
fraction_pattern (c ∷ d ∷ e ∷ _ ∷ _) = false

-- `\d*(\.\d{1,2})?$`: no digit can begin the fraction, so the digits are taken greedily.
unfoldable pub digits_pattern : List ℕ → Bool
unfolding fraction_pattern
digits_pattern [] = true
digits_pattern (c ∷ s) = if is_digit c then digits_pattern s else fraction_pattern (c ∷ s)

-- `^(0|[1-9]\d*)(\.\d{1,2})?$`
unfoldable pub amount_pattern : List ℕ → Bool
unfolding digits_pattern
amount_pattern [] = false
amount_pattern (c ∷ s) =
    if nat_eq c b'0' then fraction_pattern s else is_digit c && digits_pattern s

-- `^[A-Z]{3}$`
unfoldable pub currency_pattern : List ℕ → Bool
currency_pattern (a ∷ b ∷ c ∷ []) = is_upper a && (is_upper b && is_upper c)
currency_pattern _ = false

abbrev pub IsAmount : String → Type 0
IsAmount s = amount_pattern (codes s) ≡ true

-- The hundredths of `units` whole units and the decimals that follow the point.
unfoldable pub decimals_value : ℕ → List ℕ → ℕ
decimals_value units [] = units * 100
decimals_value units (d ∷ []) = units * 100 + (d - b'0') * 10
decimals_value units (d ∷ e ∷ _) = units * 100 + (d - b'0') * 10 + (e - b'0')

unfoldable pub value_from : ℕ → List ℕ → ℕ
unfolding decimals_value
value_from units [] = units * 100
value_from units (c ∷ s) =
    if nat_eq c b'.' then decimals_value units s else value_from (units * 10 + (c - b'0')) s

-- The hundredths that an amount stands for.
unfoldable pub cents : String → ℕ
unfolding value_from
cents s = value_from 0 (codes s)
