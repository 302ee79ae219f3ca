-- ===== src/Wagering/Types.antt =====
-- src/wagering/process-wager.types.ts, and the tests on the types and statuses of wagers.
use jungle_backend_challenge.Prelude.{Bool, true, false, String, ◌==◌, Option, none, some}
use jungle_backend_challenge.Domain.Money.{MoneyProps}
use jungle_backend_challenge.Domain.WagerTransaction.{
  WagerType, opening, bet, win, loss, refund, rollback, WagerStatus, pending, pending_reference,
  processed, rejected, failed,
}
use jungle_backend_challenge.Database.Rows.{PersistedResponse, WalletView, ResultStatus}

-- `SubmitWagerInput` and `NormalizedWagerInput`. The kind is checked when the program runs, so it
-- ranges over all types.
pub record SubmitInput : Type 0 where
  pub idempotency_key : String
  pub provider_id : String
  pub external_transaction_id : String
  pub player_id : String
  pub wallet_id : String
  pub round_id : String
  pub game_id : String
  pub kind : WagerType
  pub money : MoneyProps
  pub reference_external_transaction_id : Option String
  pub correlation_id : Option String

-- `SubmitWagerResult`: the response, and the properties that `makeResult` adds to it.
pub record SubmitResult : Type 0 where
  pub response : PersistedResponse
  pub idempotent_replay : Bool
  pub wager_transaction_id : Option String
  pub wallet : Option WalletView

-- `a === b` on types and on statuses.
unfoldable pub same_type : WagerType → WagerType → Bool
same_type opening opening = true
same_type bet bet = true
same_type win win = true
same_type loss loss = true
same_type refund refund = true
same_type rollback rollback = true
same_type _ _ = false

unfoldable pub same_status : WagerStatus → WagerStatus → Bool
same_status pending pending = true
same_status pending_reference pending_reference = true
same_status processed processed = true
same_status rejected rejected = true
same_status failed failed = true
same_status _ _ = false

-- `a === b` between an optional column and a text.
abbrev pub is_text : Option String → String → Bool
is_text none t = false
is_text (some s) t = s == t

-- A response with a status only; the callers set the fields that they give.
abbrev pub response_of : String → ResultStatus → PersistedResponse
response_of tx_id status = record {
  transaction_id = some tx_id;
  status = status;
  failure_code = none;
  balance = none;
  wallet = none;
  reference_external_transaction_id = none;
  reference_transaction_id = none;
  wager_transaction_id = none;
}
