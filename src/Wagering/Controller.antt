-- ===== src/Wagering/Controller.antt =====
-- src/wagering/wagering.controller.ts: the handlers of the HTTP routes. The routing, the pipe that
-- checks the form of an identifier and the metrics belong to the framework.
pub mod Losses
pub mod Transient
pub mod Answers
use jungle_backend_challenge.Prelude.{
  ℕ, Bool, true, false, ◌||◌, String, ◌==◌, truthy, Option, none, some, List, [], ◌∷◌,
  if◌then◌else◌,
}
use jungle_backend_challenge.Prelude.Results.{Result, ok, err}
use jungle_backend_challenge.Domain.Errors.{Outcome, Thrown, unprocessable, infrastructure}
use jungle_backend_challenge.Domain.Money.{MoneyProps}
use jungle_backend_challenge.Domain.WagerTransaction.{WagerType, WagerStatus}
use jungle_backend_challenge.Domain.CanonicalJson.{Json, obj, Fields}
use jungle_backend_challenge.Database.Rows.{WagerRow, PersistedResponse, ResultStatus}
use jungle_backend_challenge.Database.Tx.{Env, World, Tx}
use jungle_backend_challenge.Http.{
  HttpError, service_unavailable, not_found, passed, Answer, Handler,
}
use jungle_backend_challenge.Wagering.Types.{SubmitInput, SubmitResult}
use jungle_backend_challenge.Wagering.Failures.{classify, transient_messages}
use jungle_backend_challenge.Wagering.Payload.{invalid_payload}
use jungle_backend_challenge.Wagering.Repository.{find_by_id_public, find_by_provider_and_external}
use jungle_backend_challenge.Wagering.ProcessWager.{execute}
use jungle_backend_challenge.Wagering.Submission.{
  Formats, Business, is_identifier, read_submit, normalize_http_wager,
}

-- `isTransientPostgresError`
abbrev pub request_states : List String
request_states = "40001" ∷ "08000" ∷ "08003" ∷ "08006" ∷ "57P01" ∷ "57P03" ∷ []

unfoldable pub is_transient_error : Thrown → Bool
unfolding classify
is_transient_error = classify request_states transient_messages

abbrev pub is_infrastructure : Thrown → Bool
is_infrastructure (infrastructure cause) = true
is_infrastructure _ = false

-- The `catch` of `submit`.
unfoldable pub answer_failure : Thrown → HttpError
unfolding is_transient_error
answer_failure e =
    if is_infrastructure e || is_transient_error e
    then service_unavailable "TRANSIENT_INFRASTRUCTURE"
    else passed e

abbrev pub is_pending_result : ResultStatus → Bool
is_pending_result ResultStatus.pending = true
is_pending_result _ = false

unfoldable pub success_status : SubmitResult → ℕ
success_status result = if is_pending_result result.response.status then 202 else 200

unfoldable pub answered :
    Outcome SubmitResult × World → Result HttpError (Answer SubmitResult) × World
unfolding answer_failure success_status
answered (ok result, w) = (ok (record { status = success_status result; body = result }), w)
answered (err e, w) = (err (answer_failure e), w)

module _ {D : Type 0} (env : Env D) (fmt : Formats) where
  -- The header `idempotency-key`, the body, and their normalisation, in the order of the checks.
  unfoldable pub read_body : String → Option String → Json → Outcome SubmitInput
  unfolding read_submit normalize_http_wager
  read_body key correlation_id (obj fs) = elim (read_submit fmt fs) [
    | ok dto ↦ normalize_http_wager env.dec dto key correlation_id
    | err e ↦ err e
  ]
  read_body key correlation_id _ = invalid_payload

  unfoldable pub read_request : Option String → Option String → Json → Outcome SubmitInput
  unfolding read_body is_identifier
  read_request none correlation_id body =
      err (unprocessable "IDEMPOTENCY_KEY_REQUIRED" (some "Idempotency-Key header is required"))
  read_request (some key) correlation_id body =
      if is_identifier key then read_body key correlation_id body else invalid_payload

  unfoldable pub submit_read : Outcome SubmitInput → Handler SubmitResult
  unfolding answered
  submit_read (err e) w = (err (passed e), w)
  submit_read (ok input) w = answered (execute env input w)

  unfoldable pub submit : Option String → Option String → Json → Handler SubmitResult
  unfolding submit_read read_request
  submit key correlation_id body = submit_read (read_request key correlation_id body)

-- `toResponse`; the time is that of the row.
pub record WagerView : Type 0 where
  pub transaction_id : String
  pub provider_id : String
  pub external_transaction_id : String
  pub player_id : Option String
  pub wallet_id : String
  pub round_id : Option String
  pub game_id : Option String
  pub kind : WagerType
  pub wager_status : WagerStatus
  pub money : MoneyProps
  pub reference_external_transaction_id : Option String
  pub reference_transaction_id : Option String
  pub failure_code : Option String
  pub response : Option PersistedResponse
  pub processed_at : Option ℕ

unfoldable pub to_response : WagerRow → WagerView
to_response row = record {
  transaction_id = row.id;
  provider_id = row.provider_id;
  external_transaction_id = row.external_transaction_id;
  player_id = row.player_id;
  wallet_id = row.wallet_id;
  round_id = row.round_id;
  game_id = row.game_id;
  kind = row.type;
  wager_status = row.status;
  money = record { amount = row.amount_amount; currency = row.amount_currency };
  reference_external_transaction_id = row.reference_external_transaction_id;
  reference_transaction_id = row.reference;
  failure_code = row.failure_code;
  response = row.response_payload;
  processed_at = row.processed_at;
}

-- The end of the three lookups.
unfoldable pub shown :
    Outcome (Option WagerRow) × World → Result HttpError (Answer WagerView) × World
unfolding to_response
shown (ok none, w) = (err (not_found "WAGER_NOT_FOUND"), w)
shown (ok (some row), w) = (ok (record { status = 200; body = to_response row }), w)
shown (err e, w) = (err (passed e), w)

unfoldable pub find_by_id : String → Handler WagerView
unfolding shown
find_by_id id w = shown (find_by_id_public id w)

-- `ProviderWageringController.findByProviderAndExternal`
unfoldable pub find_by_provider : String → String → Handler WagerView
unfolding shown
find_by_provider provider external w = shown (find_by_provider_and_external provider external w)

abbrev pub invalid_query : Thrown
invalid_query =
    unprocessable "INVALID_QUERY" (some "X-Provider-Id and X-External-Id headers are required")

-- The handler of `transactions/by-external`, from its two headers.
unfoldable pub find_by_external : Option String → Option String → Handler WagerView
unfolding find_by_provider
find_by_external (some provider) (some external) w =
    if truthy provider
    then (if truthy external
        then find_by_provider provider external w
        else (err (passed invalid_query), w))
    else (err (passed invalid_query), w)
find_by_external _ _ w = (err (passed invalid_query), w)
