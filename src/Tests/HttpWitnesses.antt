-- ===== src/Tests/HttpWitnesses.antt =====
-- The theorems on the commands of src/wagering, by HTTP and by the queue, at concrete inputs.
use jungle_backend_challenge.Prelude.{◌≡◌, refl, ◌⊎◌, none, some, true}
use jungle_backend_challenge.Prelude.Results.{ok, err, ◌>>=◌}
use jungle_backend_challenge.Domain.Errors.{Thrown}
use jungle_backend_challenge.Domain.Decimal.Exact.{exact}
use jungle_backend_challenge.Domain.CanonicalJson.{str, obj, Fields, end, field}
use jungle_backend_challenge.Http.{passed}
use jungle_backend_challenge.Wagering.Types.{SubmitInput}
use jungle_backend_challenge.Wagering.Submission.{
  Formats, is_identifier, read_submit, read_wager_data, normalize_http_wager, normalize_sqs_wager,
}
use jungle_backend_challenge.Wagering.Submission.Channels.{sqs-http}
use jungle_backend_challenge.Wagering.Controller.{read_request, submit}
use jungle_backend_challenge.Wagering.Controller.Answers.{IsAnswered, submit_lem}
use jungle_backend_challenge.Tests.Fixtures.{env, world}

abbrev formats : Formats
formats = record { parse = λ s. none; is_uuid = λ s. true; is_datetime = λ s. true }

-- A BET of 30.
abbrev bet_fields : Fields
bet_fields = field "providerId" (str "prov") (
    field "externalTransactionId" (str "k1") (
      field "playerId" (str "p1") (
        field "walletId" (str "w1") (
          field "roundId" (str "r1") (
            field "gameId" (str "g1") (
              field "kind" (str "BET") (
                field "money" (obj (field "amount" (str "30") (field "currency" (str "BRL") end)))
                  end)))))))

submit_lem_example :
    ((e : Thrown) × (read_request env formats (some "k1") none (obj bet_fields) ≡ err e)
      × (submit env formats (some "k1") none (obj bet_fields) world ≡ (err (passed e), world)))
    ⊎ ((input : SubmitInput) × (read_request env formats (some "k1") none (obj bet_fields)
          ≡ ok input)
        × IsAnswered env input world (submit env formats (some "k1") none (obj bet_fields) world))
submit_lem_example = submit_lem env formats (some "k1") none (obj bet_fields) world

sqs-http_example :
    (read_submit formats bet_fields >>= λ dto. normalize_http_wager exact dto "k1" none) ≡ (
      read_wager_data formats (field "idempotencyKey" (str "k1") bet_fields) >>= λ dto.
      normalize_sqs_wager exact dto none)
unfolding is_identifier
sqs-http_example = sqs-http formats "k1" bet_fields exact none refl
