-- ===== src/Domain/Events.antt =====
-- src/domain/events: the integration events. Their wire envelope is in the child module.
pub mod Envelope
use jungle_backend_challenge.Prelude.{ℕ, String, Option}
use jungle_backend_challenge.Domain.Money.{MoneyProps}
use jungle_backend_challenge.Domain.LedgerEntry.{LedgerDirection}
use jungle_backend_challenge.Domain.WagerTransaction.{WagerType, WagerStatus}

-- `WalletBalanceChangedPayload`
pub record BalanceChanged : Type 0 where
  pub wallet_id : String
  pub player_id : String
  pub currency : String
  pub wallet_version : ℕ
  pub direction : LedgerDirection
  pub value : MoneyProps
  pub balance_before : MoneyProps
  pub balance_after : MoneyProps
  pub transaction_id : String

-- `WagerTransactionProcessedPayload`, which the payloads of the other two events of a wager extend
pub record WagerPayload : Type 0 where
  pub wager_transaction_id : String
  pub wallet_id : String
  pub type : WagerType
  pub status : WagerStatus
  pub amount : MoneyProps
  pub reference_external_transaction_id : Option String
  pub reference_transaction_id : Option String
  pub failure_code : Option String

-- One constructor for each subclass of `IntegrationEvent`.
pub data EventPayload : Type 0 where
  wallet_balance_changed : BalanceChanged → EventPayload
  wager_processed : WagerPayload → EventPayload
  wager_rejected : WagerPayload → EventPayload
  wager_pending_reference : WagerPayload → EventPayload

unfoldable pub event_type : EventPayload → String
event_type (wallet_balance_changed _) = "WalletBalanceChanged"
event_type (wager_processed _) = "WagerTransactionProcessed"
event_type (wager_rejected _) = "WagerTransactionRejected"
event_type (wager_pending_reference _) = "WagerTransactionPendingReference"

-- What the subclass's constructor hands to `super` as the aggregate.
unfoldable pub aggregate_id : EventPayload → String
aggregate_id (wallet_balance_changed p) = p.wallet_id
aggregate_id (wager_processed p) = p.wager_transaction_id
aggregate_id (wager_rejected p) = p.wager_transaction_id
aggregate_id (wager_pending_reference p) = p.wager_transaction_id

-- `readonly version = 1` of every subclass
abbrev pub event_version : EventPayload → ℕ
event_version _ = 1

pub record IntegrationEvent : Type 0 where
  pub event_id : String
  pub occurred_at : ℕ
  pub correlation_id : Option String
  pub payload : EventPayload
