-- ===== src/Wagering/Submission.antt =====
-- src/wagering/dto/submit-wager.dto.ts: the schemas of a command and its normalisation, for HTTP
-- and for the queue. Lengths count code points.
mod Refusals
pub mod Channels
use jungle_backend_challenge.Prelude.{
  ℕ, Bool, true, false, ◌&&◌, ◌||◌, not, String, ◌==◌, codes, truthy, Option, none, some, List, [],
  ◌∷◌, any, length, leb, if◌then◌else◌,
}
use jungle_backend_challenge.Prelude.Results.{Result, ok, err, ◌>>=◌, ◌>>◌}
use jungle_backend_challenge.Domain.Errors.{Outcome}
use jungle_backend_challenge.Domain.Amount.{amount_pattern, currency_pattern}
use jungle_backend_challenge.Domain.Decimal.{DecimalOps}
use jungle_backend_challenge.Domain.Money
use jungle_backend_challenge.Domain.Money.{MoneyProps}
use jungle_backend_challenge.Domain.WagerTransaction.{
  WagerType, bet, win, loss, refund, rollback, opening,
}
use jungle_backend_challenge.Domain.CanonicalJson.{Json, str, obj, Fields, end, field, property}
use jungle_backend_challenge.Wagering.Payload.{invalid_payload}
use jungle_backend_challenge.Wagering.Types.{SubmitInput}

-- JSON.parse, which throws on some texts, and the formats of zod: `uuid` and `datetime` with an
-- offset.
pub record Formats : Type 0 where
  pub parse : String → Option Json
  pub is_uuid : String → Bool
  pub is_datetime : String → Bool

-- The properties of `WagerBusinessObject`: `SubmitWagerDto`.
pub record Business : Type 0 where
  pub provider_id : String
  pub external_transaction_id : String
  pub player_id : String
  pub wallet_id : String
  pub round_id : String
  pub game_id : String
  pub kind : WagerType
  pub money : MoneyProps
  pub reference_external_transaction_id : Option String

-- `SqsWagerDataDto`
pub record SqsWagerData : Type 0 where
  pub idempotency_key : String
  pub business : Business

-- `z.string().min(1).max(256)`
unfoldable pub is_identifier : String → Bool
is_identifier s = truthy s && leb (length (codes s)) 256

-- A string property that passes the check.
unfoldable pub text_field : String → (String → Bool) → Fields → Outcome String
text_field key check fs = elim (property key fs) [
  | some (str s) ↦ if check s then ok s else invalid_payload
  | _ ↦ invalid_payload
]

-- `Identifier.optional()`
unfoldable pub optional_identifier : String → Fields → Outcome (Option String)
unfolding is_identifier
optional_identifier key fs = elim (property key fs) [
  | none ↦ ok none
  | some (str s) ↦ if is_identifier s then ok (some s) else invalid_payload
  | _ ↦ invalid_payload
]

unfoldable pub object_field : String → Fields → Outcome Fields
object_field key fs = elim (property key fs) [ some (obj inner) ↦ ok inner | _ ↦ invalid_payload ]

-- `.strict()`: no other properties.
unfoldable pub only_keys : List String → Fields → Bool
only_keys keys end = true
only_keys keys (field k v rest) = any (λ key. key == k) keys && only_keys keys rest

abbrev pub require : Bool → Outcome (Unit {0})
require true = ok tt
require false = invalid_payload

-- `z.enum(['BET', 'WIN', 'LOSS', 'REFUND', 'ROLLBACK'])`
unfoldable pub kind_of : String → Outcome WagerType
kind_of s =
    if s == "BET"
    then ok bet
    else if s == "WIN"
    then ok win
    else if s == "LOSS"
    then ok loss
    else if s == "REFUND"
    then ok refund
    else if s == "ROLLBACK"
    then ok rollback
    else invalid_payload

unfoldable pub read_money : Fields → Outcome MoneyProps
unfolding text_field only_keys
read_money fs = do
  amount ← text_field "amount" (λ s. amount_pattern (codes s)) fs
  currency ← text_field "currency" (λ s. currency_pattern (codes s)) fs
  require (only_keys ("amount" ∷ "currency" ∷ []) fs)
  ok (record { amount = amount; currency = currency })

-- `referenceRules`
unfoldable pub reference_allowed : WagerType → Option String → Bool
reference_allowed bet reference = elim reference [ none ↦ true | some s ↦ not (truthy s) ]
reference_allowed loss reference = elim reference [ none ↦ true | some s ↦ not (truthy s) ]
reference_allowed refund reference = elim reference [ none ↦ false | some s ↦ truthy s ]
reference_allowed rollback reference = elim reference [ none ↦ false | some s ↦ truthy s ]
reference_allowed _ reference = true

abbrev pub business_keys : List String
business_keys =
    "providerId" ∷ "externalTransactionId" ∷ "playerId" ∷ "walletId" ∷ "roundId" ∷ "gameId" ∷ "kind"
    ∷ "money" ∷ "referenceExternalTransactionId" ∷ []

unfoldable pub read_business : Formats → Fields → Outcome Business
unfolding text_field optional_identifier object_field kind_of read_money is_identifier
read_business fmt fs = do
  provider_id ← text_field "providerId" is_identifier fs
  external_transaction_id ← text_field "externalTransactionId" is_identifier fs
  player_id ← text_field "playerId" fmt.is_uuid fs
  wallet_id ← text_field "walletId" fmt.is_uuid fs
  round_id ← text_field "roundId" is_identifier fs
  game_id ← text_field "gameId" is_identifier fs
  kind_text ← text_field "kind" (λ _. true) fs
  kind ← kind_of kind_text
  money_fields ← object_field "money" fs
  money ← read_money money_fields
  reference ← optional_identifier "referenceExternalTransactionId" fs
  ok (record {
    provider_id = provider_id;
    external_transaction_id = external_transaction_id;
    player_id = player_id;
    wallet_id = wallet_id;
    round_id = round_id;
    game_id = game_id;
    kind = kind;
    money = money;
    reference_external_transaction_id = reference;
  })

-- `.strict().superRefine(referenceRules)`
unfoldable pub refined : List String → Fields → Business → Outcome Business
unfolding only_keys reference_allowed
refined keys fs b = do
  require (only_keys keys fs)
  require (reference_allowed b.kind b.reference_external_transaction_id)
  ok b

-- `SubmitWagerSchema`
unfoldable pub read_submit : Formats → Fields → Outcome Business
unfolding read_business refined
read_submit fmt fs = do b ← read_business fmt fs; refined business_keys fs b

-- `SqsWagerDataSchema`
unfoldable pub read_wager_data : Formats → Fields → Outcome SqsWagerData
unfolding text_field is_identifier read_business refined
read_wager_data fmt fs = do
  b ← read_business fmt fs
  idempotency_key ← text_field "idempotencyKey" is_identifier fs
  business ← refined ("idempotencyKey" ∷ business_keys) fs b
  ok (record { idempotency_key = idempotency_key; business = business })

module _ {D : Type 0} (dec : DecimalOps D) where
  unfoldable pub normalize_wager : Business → String → Option String → Outcome SubmitInput
  normalize_wager dto idempotency_key correlation_id = do
    money ← Money.create dec dto.money
    ok (record {
      idempotency_key = idempotency_key;
      provider_id = dto.provider_id;
      external_transaction_id = dto.external_transaction_id;
      player_id = dto.player_id;
      wallet_id = dto.wallet_id;
      round_id = dto.round_id;
      game_id = dto.game_id;
      kind = dto.kind;
      money = Money.to_json money;
      reference_external_transaction_id = dto.reference_external_transaction_id;
      correlation_id = correlation_id;
    })

  unfoldable pub normalize_http_wager : Business → String → Option String → Outcome SubmitInput
  unfolding normalize_wager
  normalize_http_wager = normalize_wager

  unfoldable pub normalize_sqs_wager : SqsWagerData → Option String → Outcome SubmitInput
  unfolding normalize_wager
  normalize_sqs_wager dto correlation_id =
      normalize_wager dto.business dto.idempotency_key correlation_id
