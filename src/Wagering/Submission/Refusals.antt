-- ===== src/Wagering/Submission/Refusals.antt =====
-- The reading of a command in src/wagering/dto/submit-wager.dto.ts refuses with one error only.
use jungle_backend_challenge.Prelude.{
  if◌then◌else◌, codes, [], ◌≡◌, refl, Bool, true, false, String, Option, none, ◌∷◌, arith, some,
}
use jungle_backend_challenge.Prelude.Results.{ok, err, ◌>>=◌}
use jungle_backend_challenge.Domain.Errors.{Outcome, unprocessable}
use jungle_backend_challenge.Domain.CanonicalJson.{Json, str, Fields, property, obj}
use jungle_backend_challenge.Wagering.Submission.{
  Formats, is_identifier, text_field, optional_identifier, object_field, only_keys, require,
  read_business, read_money, kind_of,
}
use jungle_backend_challenge.Wagering.Payload.{invalid_payload}
use jungle_backend_challenge.Domain.Amount.{amount_pattern, currency_pattern}

-- Refused for its shape, or read.
abbrev pub IsPlain : {A : Type 0} → Outcome A → Type 0
IsPlain (ok a) = Unit
IsPlain (err e) = e ≡ unprocessable "INVALID_PAYLOAD" none

IsPlain-bind :
    {A B : Type 0} (r : Outcome A) (f : A → Outcome B)
    → IsPlain r
    → ((a : A) → IsPlain (f a))
    → IsPlain (r >>= f)
IsPlain-bind (ok a) f h k = k a
IsPlain-bind (err e) f h k = h

IsPlain-if : {A : Type 0} (b : Bool) (a : A) → IsPlain (if b then ok a else invalid_payload)
IsPlain-if true a = tt
IsPlain-if false a = refl

IsPlain-require : (b : Bool) → IsPlain (require b)
IsPlain-require true = tt
IsPlain-require false = refl

text_field-IsPlain :
    (key : String) (check : String → Bool) (fs : Fields) → IsPlain (text_field key check fs)
unfolding text_field
text_field-IsPlain key check fs = go (property key fs)
  where
    go :
        (p : Option Json)
        → IsPlain {A = String} (elim p [
          | some (str s) ↦ if check s then ok s else invalid_payload
          | _ ↦ invalid_payload
        ])
    go none = refl
    go (some (str s)) = IsPlain-if (check s) s
    go (some _) = refl

optional_identifier-IsPlain : (key : String) (fs : Fields) → IsPlain (optional_identifier key fs)
unfolding optional_identifier
optional_identifier-IsPlain key fs = go (property key fs)
  where
    go :
        (p : Option Json)
        → IsPlain {A = Option String} (elim p [
          | none ↦ ok none
          | some (str s) ↦ if is_identifier s then ok (some s) else invalid_payload
          | _ ↦ invalid_payload
        ])
    go none = tt
    go (some (str s)) = IsPlain-if (is_identifier s) (some s)
    go (some _) = refl

object_field-IsPlain : (key : String) (fs : Fields) → IsPlain (object_field key fs)
unfolding object_field
object_field-IsPlain key fs = go (property key fs)
  where
    go :
        (p : Option Json)
        → IsPlain {A = Fields} (elim p [ some (obj inner) ↦ ok inner | _ ↦ invalid_payload ])
    go none = refl
    go (some (obj inner)) = tt
    go (some _) = refl

kind_of-IsPlain : (s : String) → IsPlain (kind_of s)
unfolding kind_of
kind_of-IsPlain s = ground arith

read_money-IsPlain : (fs : Fields) → IsPlain (read_money fs)
unfolding read_money
read_money-IsPlain fs =
    IsPlain-bind (text_field "amount" (λ s. amount_pattern (codes s)) fs) _
      (text_field-IsPlain _ _ fs)
      λ a.
        IsPlain-bind (text_field "currency" (λ s. currency_pattern (codes s)) fs) _
          (text_field-IsPlain _ _ fs)
          λ c.
            IsPlain-bind (require (only_keys ("amount" ∷ "currency" ∷ []) fs)) _ (IsPlain-require _)
              λ _. tt

-- A property that passes its check, and then the rest.
text-then :
    {B : Type 0} (key : String) (check : String → Bool) (fs : Fields) (f : String → Outcome B)
    → ((s : String) → IsPlain (f s))
    → IsPlain (text_field key check fs >>= f)
text-then key check fs f h =
    IsPlain-bind (text_field key check fs) f (text_field-IsPlain key check fs) h

pub read_business-IsPlain : (fmt : Formats) (fs : Fields) → IsPlain (read_business fmt fs)
unfolding read_business
read_business-IsPlain fmt fs = text-then "providerId" is_identifier fs _ λ _.
    text-then "externalTransactionId" is_identifier fs _ λ _.
      text-then "playerId" fmt.is_uuid fs _ λ _. text-then "walletId" fmt.is_uuid fs _ λ _.
        text-then "roundId" is_identifier fs _ λ _. text-then "gameId" is_identifier fs _ λ _.
          text-then "kind" (λ _. true) fs _
            λ kind. IsPlain-bind (kind_of kind) _ (kind_of-IsPlain kind) λ _.
              IsPlain-bind (object_field "money" fs) _ (object_field-IsPlain "money" fs) λ money.
                IsPlain-bind (read_money money) _ (read_money-IsPlain money) λ _.
                  IsPlain-bind (optional_identifier "referenceExternalTransactionId" fs) _
                    (optional_identifier-IsPlain "referenceExternalTransactionId" fs) λ _. tt
