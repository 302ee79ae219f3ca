-- ===== src/Domain/Errors.antt =====
-- src/domain/errors.ts, and what else the service throws: the exceptions of the HTTP layer and the
-- errors of the database driver.
use jungle_backend_challenge.Prelude.{String, Option}
use jungle_backend_challenge.Prelude.Results.{Result}

-- One constructor for each subclass of `DomainError`, with the arguments of its constructor.
pub data MoneyField : Type 0 where
  amount currency : MoneyField

pub data DomainError : Type 0 where
  invalid_money : MoneyField → String → DomainError
  currency_mismatch : String → String → DomainError
  insufficient_funds : String → String → DomainError
  -- the reason, and the amount in the detail
  invalid_ledger_entry : String → String → DomainError
  invalid_wager : String → DomainError
  invalid_wager_transition : String → String → DomainError

unfoldable pub domain_error_code : DomainError → String
domain_error_code (invalid_money amount _) = "INVALID_MONEY_AMOUNT"
domain_error_code (invalid_money currency _) = "INVALID_MONEY_CURRENCY"
domain_error_code (currency_mismatch _ _) = "CURRENCY_MISMATCH"
domain_error_code (insufficient_funds _ _) = "INSUFFICIENT_FUNDS"
domain_error_code (invalid_ledger_entry _ _) = "INVALID_LEDGER_ENTRY"
domain_error_code (invalid_wager _) = "INVALID_WAGER"
domain_error_code (invalid_wager_transition _ _) = "INVALID_WAGER_TRANSITION"

-- What the handlers read of an error that is none of the program's own classes.
pub record ErrorInfo : Type 0 where
  pub code : Option String
  pub sql_state : Option String
  pub constraint : Option String
  pub message : Option String

pub data Thrown : Type 0 where
  domain : DomainError → Thrown
  -- `UnprocessableEntityException({ code, message })`, the message where there is one
  unprocessable : String → Option String → Thrown
  -- `ConflictException({ code, message })`
  conflict : String → String → Thrown
  -- `WagerInfrastructureError(cause)`
  infrastructure : Thrown → Thrown
  -- `new Error(message)`
  failure : String → Thrown
  -- an error of the driver, without and with a `cause`
  driver : ErrorInfo → Thrown
  driver_caused : ErrorInfo → Thrown → Thrown

-- What a call that may throw returns.
abbrev pub Outcome : Type 0 → Type 0
Outcome A = Result Thrown A
