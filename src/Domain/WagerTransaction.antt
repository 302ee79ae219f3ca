-- ===== src/Domain/WagerTransaction.antt =====
-- src/domain/wager-transaction.ts: `class WagerTransaction`, the state machine of one wager.
pub mod Machine
use Prim.Native.String.{◌++◌}
use jungle_backend_challenge.Prelude.{
  ℕ, Bool, true, false, ◌&&◌, ◌||◌, not, String, Option, none, some, truthy, if◌then◌else◌,
}
use jungle_backend_challenge.Prelude.Results.{ok, err, ◌>>=◌, ◌>>◌}
use jungle_backend_challenge.Domain.Errors.{
  Outcome, domain, invalid_wager, invalid_wager_transition,
}
use jungle_backend_challenge.Domain.Money.{Money}

pub data WagerType : Type 0 where
  opening bet win loss refund rollback : WagerType

pub data WagerStatus : Type 0 where
  pending pending_reference processed rejected failed : WagerStatus

-- The text of a type and of a status, as in the error messages.
unfoldable pub type_text : WagerType → String
type_text opening = "OPENING"
type_text bet = "BET"
type_text win = "WIN"
type_text loss = "LOSS"
type_text refund = "REFUND"
type_text rollback = "ROLLBACK"

unfoldable pub status_text : WagerStatus → String
status_text pending = "PENDING"
status_text pending_reference = "PENDING_REFERENCE"
status_text processed = "PROCESSED"
status_text rejected = "REJECTED"
status_text failed = "FAILED"

-- `WagerTransactionSnapshot`, the only field of a `WagerTransaction`.
pub record WagerTransaction : Type 0 where
  pub id : String
  pub type : WagerType
  pub status : WagerStatus
  pub wallet_id : String
  pub provider_id : String
  pub external_transaction_id : String
  pub amount : Money
  pub reference : Option String
  pub payload_hash : String
  pub response_payload : Option String
  pub failure_code : Option String
  pub reference_attempts : ℕ
  pub next_retry_at : Option ℕ
  pub created_at : ℕ
  pub processed_at : Option ℕ

pub record CreateProps : Type 0 where
  pub id : String
  pub type : WagerType
  pub wallet_id : String
  pub provider_id : String
  pub external_transaction_id : String
  pub amount : Money
  pub reference : Option String
  pub payload_hash : String
  pub created_at : ℕ

-- `type === 'REFUND' || type === 'ROLLBACK'`
abbrev pub is_reversal : WagerType → Bool
is_reversal refund = true
is_reversal rollback = true
is_reversal _ = false

-- The truth value of an optional text.
abbrev pub present : Option String → Bool
present none = false
present (some s) = truthy s

-- The snapshot that `create` builds once the guards have passed.
unfoldable pub pending_snapshot : CreateProps → WagerTransaction
pending_snapshot p = record {
  id = p.id;
  type = p.type;
  status = pending;
  wallet_id = p.wallet_id;
  provider_id = p.provider_id;
  external_transaction_id = p.external_transaction_id;
  amount = p.amount;
  reference = p.reference;
  payload_hash = p.payload_hash;
  response_payload = none;
  failure_code = none;
  reference_attempts = 0;
  next_retry_at = none;
  created_at = p.created_at;
  processed_at = none;
}

unfoldable pub create_wager_from : WagerType → CreateProps → Outcome WagerTransaction
unfolding pending_snapshot type_text
create_wager_from opening p = err (domain (invalid_wager "OPENING cannot be created externally"))
create_wager_from type p =
    if is_reversal type && not (present p.reference)
    then err (
        domain (invalid_wager (type_text type ++ " requires a reference to the wager it reverses")))
    else ok (pending_snapshot p)

-- `WagerTransaction.create(props)`
unfoldable pub create_wager : CreateProps → Outcome WagerTransaction
unfolding create_wager_from
create_wager p = create_wager_from p.type p

-- `WagerTransaction.createOpening(props)`
unfoldable pub create_opening : String → String → Money → ℕ → WagerTransaction
create_opening id wallet_id amount opened_at = record {
  id = id;
  type = opening;
  status = processed;
  wallet_id = wallet_id;
  provider_id = "";
  external_transaction_id = "";
  amount = amount;
  reference = none;
  payload_hash = "";
  response_payload = none;
  failure_code = none;
  reference_attempts = 0;
  next_retry_at = none;
  created_at = opened_at;
  processed_at = some opened_at;
}

unfoldable pub assert_pending : WagerStatus → WagerStatus → Outcome (Unit {0})
unfolding status_text
assert_pending pending next = ok tt
assert_pending status next =
    err (domain (invalid_wager_transition (status_text status) (status_text next)))

-- `assertTransition`
unfoldable pub assert_transition : WagerTransaction → WagerStatus → Outcome (Unit {0})
unfolding assert_pending
assert_transition t next = assert_pending t.status next

unfoldable pub mark_processed : WagerTransaction → String → ℕ → Outcome WagerTransaction
unfolding assert_transition
mark_processed t response_payload at = do
  assert_transition t processed
  ok (record t {
    status = processed;
    response_payload = some response_payload;
    processed_at = some at;
  })

unfoldable pub mark_rejected : WagerTransaction → String → String → ℕ → Outcome WagerTransaction
unfolding assert_transition
mark_rejected t failure_code response_payload at = do
  assert_transition t rejected
  ok (record t {
    status = rejected;
    failure_code = some failure_code;
    response_payload = some response_payload;
    processed_at = some at;
  })

unfoldable pub mark_failed : WagerTransaction → String → ℕ → Outcome WagerTransaction
unfolding assert_transition
mark_failed t failure_code at = do
  assert_transition t failed
  ok (record t { status = failed; failure_code = some failure_code; processed_at = some at })

-- The guard is that of `assertTransition('PENDING')`, written out in the source.
unfoldable pub schedule_reference_retry : WagerTransaction → ℕ → ℕ → Outcome WagerTransaction
unfolding assert_transition
schedule_reference_retry t next_retry_at attempt = do
  assert_transition t pending
  ok (record t { next_retry_at = some next_retry_at; reference_attempts = attempt })
