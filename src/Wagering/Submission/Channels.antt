-- ===== src/Wagering/Submission/Channels.antt =====
-- One command by HTTP and by the queue: src/wagering/dto/submit-wager.dto.ts reads them alike.
use jungle_backend_challenge.Prelude.{
  if◌then◌else◌, inl, inr, sym, ap, Bool-cases, ◌≡◌, refl, Bool, true, false, ◌||◌, String, ◌==◌,
  eq_iff, Option, none, List, ◌∷◌, arith, any,
}
use jungle_backend_challenge.Prelude.Results.{ok, err, ◌>>=◌}
use jungle_backend_challenge.Domain.Errors.{Outcome}
use jungle_backend_challenge.Domain.Decimal.{DecimalOps}
use jungle_backend_challenge.Domain.CanonicalJson.{Json, str, Fields, end, field, property}
use jungle_backend_challenge.Wagering.Submission.Refusals.{IsPlain, read_business-IsPlain}
use jungle_backend_challenge.Wagering.Submission.{
  Formats, Business, is_identifier, text_field, optional_identifier, object_field, only_keys,
  require, reference_allowed, read_business, refined, business_keys, read_submit, read_wager_data,
  normalize_http_wager, normalize_sqs_wager,
}
use jungle_backend_challenge.Wagering.Payload.{invalid_payload}

-- Whether there is a property of the name.
abbrev pub has_field : String → Fields → Bool
has_field key end = false
has_field key (field k v rest) = (k == key) || has_field key rest

property-front :
    (key name : String) (v : Json) (fs : Fields)
    → (name == key) ≡ false
    → property key (field name v fs) ≡ property key fs
unfolding property
property-front key name v fs other = ground (arith)

property-absent : (key : String) (fs : Fields) → has_field key fs ≡ false → property key fs ≡ none
unfolding property
property-absent key end h = refl
property-absent key (field k v rest) h = ground (arith, property-absent key rest)

-- A property that is not among the keys is refused.
only_keys-foreign :
    (key : String) (keys : List String) (fs : Fields)
    → any (λ k. k == key) keys ≡ false
    → has_field key fs ≡ true
    → only_keys keys fs ≡ false
unfolding only_keys
only_keys-foreign key keys end foreign h = ground arith
only_keys-foreign key keys (field k v rest) foreign h = elim (Bool-cases (k == key)) [
  | inl e ↦ rw ((eq_iff k key).0 e, foreign) refl
  | inr e ↦ rw (only_keys-foreign key keys rest foreign (ground arith)) (ground arith)
]

only_keys-more :
    (key : String) (keys : List String) (fs : Fields)
    → has_field key fs ≡ false
    → only_keys (key ∷ keys) fs ≡ only_keys keys fs
unfolding only_keys
only_keys-more key keys end h = refl
only_keys-more key keys (field k v rest) h =
    ground (arith, only_keys-more key keys rest, eq_iff key k, eq_iff k key)

module _ (fmt : Formats) (k : String) (fs : Fields) where
  abbrev with_key : Fields
  with_key = field "idempotencyKey" (str k) fs

  text_field-front :
      (key : String) (check : String → Bool)
      → ("idempotencyKey" == key) ≡ false
      → text_field key check with_key ≡ text_field key check fs
  unfolding text_field property
  text_field-front key check other = rw (property-front key "idempotencyKey" (str k) fs other) refl

  business-front : read_business fmt with_key ≡ read_business fmt fs
  unfolding read_business object_field optional_identifier property
  business-front =
      rw
        (
          text_field-front "providerId" is_identifier refl,
          text_field-front "externalTransactionId" is_identifier refl,
          text_field-front "playerId" fmt.is_uuid refl,
          text_field-front "walletId" fmt.is_uuid refl,
          text_field-front "roundId" is_identifier refl,
          text_field-front "gameId" is_identifier refl,
          text_field-front "kind" (λ _. true) refl,
          property-front "money" "idempotencyKey" (str k) fs refl,
          property-front "referenceExternalTransactionId" "idempotencyKey" (str k) fs refl,
        )
        refl

  key-front :
      is_identifier k ≡ true
      → has_field "idempotencyKey" fs ≡ false
      → text_field "idempotencyKey" is_identifier with_key ≡ ok k
  unfolding text_field property
  key-front valid absent = rw (property-absent "idempotencyKey" fs absent, valid) refl

  has_key-refused : has_field "idempotencyKey" fs ≡ true → only_keys business_keys fs ≡ false
  has_key-refused h = only_keys-foreign "idempotencyKey" business_keys fs refl h

  -- Sent by HTTP under a valid key, a body that has an idempotency key of its own is refused; a body
  -- without one, and the same properties with that key as the data of a message, are both refused
  -- with the same error or both become the same command.
  pub sqs-http :
      {D : Type 0} (dec : DecimalOps D) (correlation_id : Option String)
      → is_identifier k ≡ true
      → (read_submit fmt fs >>= λ dto. normalize_http_wager dec dto k correlation_id) ≡ (
          if has_field "idempotencyKey" fs
          then invalid_payload
          else (read_wager_data fmt (field "idempotencyKey" (str k) fs) >>= λ dto.
              normalize_sqs_wager dec dto correlation_id))
  unfolding read_wager_data read_submit normalize_sqs_wager normalize_http_wager refined
  sqs-http dec correlation_id valid = elim (Bool-cases (has_field "idempotencyKey" fs)) [
    | inl has ↦ rw has (refused (read_business fmt fs) (read_business-IsPlain fmt fs) has)
    | inr absent ↦
        rw (absent, business-front, key-front valid absent) (sym (go absent (read_business fmt fs)))
  ]
    where
      refused :
          (r : Outcome Business)
          → IsPlain r
          → has_field "idempotencyKey" fs ≡ true
          → ((r >>= refined business_keys fs) >>= λ dto.
              normalize_http_wager dec dto k correlation_id)
            ≡ invalid_payload
      refused (err e) plain has = ap err plain
      refused (ok b) plain has = rw (has_key-refused has) refl

      checked :
          (b : Business) (x y : Bool)
          → (((require x >>= λ _. require y >>= λ _. ok b) >>= λ business.
                ok (record { idempotency_key = k; business = business }))
              >>= λ dto. normalize_sqs_wager dec dto correlation_id)
            ≡ ((require x >>= λ _. require y >>= λ _. ok b) >>= λ dto.
                normalize_http_wager dec dto k correlation_id)
      checked b false y = refl
      checked b true false = refl
      checked b true true = refl

      go :
          has_field "idempotencyKey" fs ≡ false
          → (r : Outcome Business)
          → ((r >>= λ b. ok k >>= λ key.
                refined ("idempotencyKey" ∷ business_keys) with_key b >>= λ business.
                ok (record { idempotency_key = key; business = business }))
              >>= λ dto. normalize_sqs_wager dec dto correlation_id)
            ≡ ((r >>= refined business_keys fs) >>= λ dto.
                normalize_http_wager dec dto k correlation_id)
      go absent (err e) = refl
      go absent (ok b) = rw (only_keys-more "idempotencyKey" business_keys fs absent) (
          checked b (only_keys business_keys fs)
            (reference_allowed b.kind b.reference_external_transaction_id))
