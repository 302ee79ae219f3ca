-- ===== src/Wagering/Payload.antt =====
-- The checks, the hash and the results of src/wagering/process-wager.ts, and `wagerPayloadHash` of
-- src/wagering/wager.repository.ts.
use jungle_backend_challenge.Prelude.{
  Bool, true, false, ◌||◌, not, String, Option, none, some, truthy, if◌then◌else◌,
}
use jungle_backend_challenge.Prelude.Results.{ok, err}
use jungle_backend_challenge.Domain.Errors.{Outcome, unprocessable, failure}
use jungle_backend_challenge.Domain.Decimal.{DecimalOps}
use jungle_backend_challenge.Domain.Money
use jungle_backend_challenge.Domain.Money.{MoneyProps}
use jungle_backend_challenge.Domain.WagerTransaction.{WagerType, opening, type_text}
use jungle_backend_challenge.Domain.CanonicalJson.{Json, str, obj, Fields, field, end, payload_hash}
use jungle_backend_challenge.Database.Rows.{PersistedResponse, WalletView}
use jungle_backend_challenge.Wagering.Failures.{or_else}
use jungle_backend_challenge.Wagering.Types.{SubmitInput, SubmitResult}

-- `['BET', 'WIN', 'LOSS', 'REFUND', 'ROLLBACK'].includes(kind)`
abbrev pub is_kind : WagerType → Bool
is_kind opening = false
is_kind _ = true

abbrev pub invalid_payload : {A : Type 0} → Outcome A
invalid_payload = err (unprocessable "INVALID_PAYLOAD" none)

unfoldable pub normalize_wager_input :
    {D : Type 0} → DecimalOps D → SubmitInput → Outcome SubmitInput
normalize_wager_input dec input =
    if not (truthy input.wallet_id)
      || not (truthy input.round_id)
      || not (truthy input.game_id)
      || not (is_kind input.kind)
    then invalid_payload
    else elim (Money.create dec input.money) [
      | ok money ↦ ok (record input { money = Money.to_json money })
      | err _ ↦ invalid_payload
    ]

abbrev optional_field : String → Option String → Fields → Fields
optional_field key none rest = rest
optional_field key (some v) rest = field key (str v) rest

-- The business fields of a command, without its key and its correlation id.
unfoldable pub hashed_fields : SubmitInput → Json
unfolding type_text
hashed_fields i = obj (
    field "kind" (str (type_text i.kind)) (
      field "playerId" (str i.player_id) (
        field "walletId" (str i.wallet_id) (
          field "roundId" (str i.round_id) (
            field "gameId" (str i.game_id) (
              field "externalTransactionId" (str i.external_transaction_id) (
                field "providerId" (str i.provider_id) (
                  field "money"
                    (obj (
                      field "amount" (str i.money.amount)
                        (field "currency" (str i.money.currency) end)))
                    (optional_field "referenceExternalTransactionId"
                      i.reference_external_transaction_id end)))))))))

unfoldable pub wager_payload_hash : (String → String) → SubmitInput → String
unfolding hashed_fields payload_hash
wager_payload_hash sha256 i = payload_hash sha256 (hashed_fields i)

-- The response under its present field names.
abbrev normalized_response : PersistedResponse → String → PersistedResponse
normalized_response r transaction_id = record {
  transaction_id = some transaction_id;
  status = r.status;
  failure_code = r.failure_code;
  balance = elim r.balance [
    | some b ↦ some b
    | none ↦ elim r.wallet [ none ↦ none | some w ↦ some w.balance ]
  ];
  wallet = none;
  reference_external_transaction_id = r.reference_external_transaction_id;
  reference_transaction_id = r.reference_transaction_id;
  wager_transaction_id = none;
}

abbrev missing_transaction_id : Outcome PersistedResponse
missing_transaction_id = err (failure "persisted wager response missing transactionId")

unfoldable pub normalize_persisted_response : PersistedResponse → Outcome PersistedResponse
normalize_persisted_response r = elim (or_else r.transaction_id r.wager_transaction_id) [
  | none ↦ missing_transaction_id
  | some id ↦ if truthy id then ok (normalized_response r id) else missing_transaction_id
]

unfoldable pub make_result : PersistedResponse → Bool → Option WalletView → SubmitResult
make_result response idempotent_replay wallet = record {
  response = response;
  idempotent_replay = idempotent_replay;
  wager_transaction_id = response.transaction_id;
  wallet = wallet;
}
