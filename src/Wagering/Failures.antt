-- ===== src/Wagering/Failures.antt =====
-- How src/wagering/process-wager.ts classifies what the database throws.
pub mod Search
use Prim.Native.String.{◌++◌}
use text.Mathlib.Text.{find?}
use jungle_backend_challenge.Prelude.{
  ℕ, ◌+◌, Bool, true, false, ◌&&◌, ◌||◌, String, ◌==◌, codes, Option, none, some, List, [], ◌∷◌,
  map, any, leb, nat_eq, if◌then◌else◌,
}
use jungle_backend_challenge.Domain.Errors.{
  DomainError, Thrown, ErrorInfo, MoneyField, domain, unprocessable, conflict, infrastructure,
  failure, driver, driver_caused, domain_error_code, invalid_money, currency_mismatch,
  insufficient_funds, invalid_ledger_entry, invalid_wager, invalid_wager_transition,
}

-- `text.includes(piece)`
abbrev pub includes : String → String → Bool
includes s piece = elim (find? s piece) [ none ↦ false | some _ ↦ true ]

unfoldable pub lower : ℕ → ℕ
lower c = if leb b'A' c && leb c b'Z' then c + 32 else c

unfoldable pub starts_with_codes : List ℕ → List ℕ → Bool
starts_with_codes [] s = true
starts_with_codes (p ∷ ps) [] = false
starts_with_codes (p ∷ ps) (c ∷ s) = nat_eq p c && starts_with_codes ps s

unfoldable pub contains_codes : List ℕ → List ℕ → Bool
unfolding starts_with_codes
contains_codes p [] = starts_with_codes p []
contains_codes p (c ∷ s) = starts_with_codes p (c ∷ s) || contains_codes p s

-- `/a|b|c/i.test(text)` for plain pieces in lower case.
unfoldable pub matches_any : List String → String → Bool
unfolding lower contains_codes
matches_any pieces text = any (λ p. contains_codes (codes p) (map lower (codes text))) pieces

-- The `message` of each error.
unfoldable pub domain_error_message : DomainError → String
domain_error_message (invalid_money MoneyField.amount v) = "Invalid Money amount: " ++ v
domain_error_message (invalid_money MoneyField.currency v) = "Invalid Money currency: " ++ v
domain_error_message (currency_mismatch e r) = "Currency mismatch: " ++ (e ++ (" vs " ++ r))
domain_error_message (insufficient_funds b d) = "Insufficient funds: " ++ (b ++ (" < " ++ d))
domain_error_message (invalid_ledger_entry reason _) = reason
domain_error_message (invalid_wager reason) = reason
domain_error_message (invalid_wager_transition f t) =
    "Cannot transition WagerTransaction from " ++ (f ++ (" to " ++ t))

abbrev pub or_else : Option String → Option String → Option String
or_else none b = b
or_else (some a) b = some a

abbrev pub one_of : List String → Option String → Bool
one_of codes none = false
one_of codes (some c) = any (λ k. c == k) codes

abbrev pub message_matches : List String → Option String → Bool
message_matches pieces none = false
message_matches pieces (some m) = matches_any pieces m

abbrev pub transient_states : List String
transient_states =
    "40001" ∷ "40P01" ∷ "55P03" ∷ "08000" ∷ "08003" ∷ "08006" ∷ "57P01" ∷ "57P03" ∷ []

abbrev pub transient_messages : List String
transient_messages = "econnreset" ∷ "econnrefused" ∷ "connection terminated" ∷ []

abbrev pub conflict_states : List String
conflict_states = "40001" ∷ "40P01" ∷ "55P03" ∷ []

abbrev pub conflict_messages : List String
conflict_messages =
    "deadlock detected" ∷ "could not obtain lock" ∷ "lock timeout" ∷ "serialization failure" ∷ []

-- The common shape of `isTransientPostgresError` and `isWalletLockConflict`: the SQLSTATE, then the
-- cause, then the message.
unfoldable pub classify : List String → List String → Thrown → Bool
unfolding domain_error_code domain_error_message matches_any
classify states pieces (domain e) =
    one_of states (some (domain_error_code e)) || matches_any pieces (domain_error_message e)
classify states pieces (unprocessable code message) =
    message_matches pieces (or_else message (some "Unprocessable Entity Exception"))
classify states pieces (conflict code message) = matches_any pieces message
classify states pieces (infrastructure cause) =
    one_of states (some "TRANSIENT_INFRASTRUCTURE")
    || classify states pieces cause
    || matches_any pieces "wager processing is temporarily unavailable"
classify states pieces (failure message) = matches_any pieces message
classify states pieces (driver i) =
    one_of states (or_else i.code i.sql_state) || message_matches pieces i.message
classify states pieces (driver_caused i cause) =
    one_of states (or_else i.code i.sql_state)
    || classify states pieces cause
    || message_matches pieces i.message

unfoldable pub is_transient_postgres_error : Thrown → Bool
unfolding classify
is_transient_postgres_error = classify transient_states transient_messages

unfoldable pub is_wallet_lock_conflict : Thrown → Bool
unfolding classify
is_wallet_lock_conflict = classify conflict_states conflict_messages

-- The constraint that a driver error names, in its field or in its message.
abbrev pub names_constraint : ErrorInfo → String → Bool
names_constraint i c =
    elim i.constraint [ none ↦ false | some k ↦ k == c ]
    || elim i.message [ none ↦ false | some m ↦ includes m c ]

abbrev pub has_code : ErrorInfo → String → Bool
has_code i c = elim i.code [ none ↦ false | some k ↦ k == c ]

unfoldable pub is_unique_violation : Thrown → String → Bool
is_unique_violation (driver i) c = has_code i "23505" && names_constraint i c
is_unique_violation (driver_caused i _) c = has_code i "23505" && names_constraint i c
is_unique_violation _ c = false

unfoldable pub is_foreign_key_violation : Thrown → String → Bool
is_foreign_key_violation (driver i) c = has_code i "23503" && names_constraint i c
is_foreign_key_violation (driver_caused i _) c = has_code i "23503" && names_constraint i c
is_foreign_key_violation _ c = false

unfoldable pub is_insufficient_funds : Thrown → Bool
is_insufficient_funds (domain (insufficient_funds _ _)) = true
is_insufficient_funds _ = false
