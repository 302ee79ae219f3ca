-- ===== src/Messaging/Requests.antt =====
-- How src/messaging/command-message-handler.ts reads a message: `parseMessageBody`, and the first
-- `try` of `process`.
use jungle_backend_challenge.Prelude.{String, ◌==◌, Option, none, some, [], ◌∷◌}
use jungle_backend_challenge.Prelude.Results.{ok, ◌>>=◌, ◌>>◌}
use jungle_backend_challenge.Domain.Errors.{Outcome}
use jungle_backend_challenge.Domain.Decimal.{DecimalOps}
use jungle_backend_challenge.Domain.CanonicalJson.{obj, Fields}
use jungle_backend_challenge.Wagering.Payload.{invalid_payload, wager_payload_hash}
use jungle_backend_challenge.Wagering.Types.{SubmitInput}
use jungle_backend_challenge.Wagering.Submission.{
  Formats, SqsWagerData, is_identifier, text_field, object_field, only_keys, require,
  read_wager_data, normalize_sqs_wager,
}

-- `WagerTransactionRequested`, without the time, which nothing reads.
pub record Requested : Type 0 where
  pub message_id : String
  pub request : SqsWagerData

-- `parseMessageBody` once the body is an object
unfoldable pub read_message : Formats → Fields → Outcome Requested
unfolding read_wager_data
read_message fmt fs = do
  message_id ← text_field "messageId" is_identifier fs
  type ← text_field "type" (λ s. s == "WagerTransactionRequested") fs
  occurred_at ← text_field "occurredAt" fmt.is_datetime fs
  data_fields ← object_field "data" fs
  request ← read_wager_data fmt data_fields
  require (only_keys ("messageId" ∷ "type" ∷ "occurredAt" ∷ "data" ∷ []) fs)
  ok (record { message_id = message_id; request = request })

unfoldable pub parse_message_body : Formats → String → Outcome Requested
unfolding read_message
parse_message_body fmt raw = elim (fmt.parse raw) [
  | some (obj fs) ↦ read_message fmt fs
  | _ ↦ invalid_payload
]

-- `SqsMessage`
pub record SqsMessage : Type 0 where
  pub message_id : Option String
  pub body : Option String
  pub receipt_handle : Option String

-- A message that has been read: its identifier, the command and the hash of the command.
pub record Command : Type 0 where
  pub message_id : String
  pub input : SubmitInput
  pub body_hash : String

abbrev pub or : String → Option String → String
or default none = default
or default (some s) = s

-- The first `try` of `process`.
unfoldable pub read_command :
    {D : Type 0} → DecimalOps D → (String → String) → Formats → SqsMessage → Outcome Command
unfolding parse_message_body normalize_sqs_wager
read_command dec sha256 fmt message = do
  parsed ← parse_message_body fmt (or "" message.body)
  input ← normalize_sqs_wager dec parsed.request (some parsed.message_id)
  ok (record {
    message_id = parsed.message_id;
    input = input;
    body_hash = wager_payload_hash sha256 input;
  })
