-- ===== src/Database/Rows.antt =====
-- The rows that src/wagering/wager.repository.ts, src/infrastructure/database/wallet.repository.ts
-- and src/wallets/ledger.repository.ts exchange with the database. A NUMERIC(18,2) column is the
-- text with two decimals that the driver reads and writes; times are microseconds,
-- the precision of a timestamptz.
use jungle_backend_challenge.Prelude.{ℕ, ◌^◌, String, Option, List}
use jungle_backend_challenge.Domain.Money.{MoneyProps}
use jungle_backend_challenge.Domain.LedgerEntry.{LedgerDirection}
use jungle_backend_challenge.Domain.WagerTransaction.{WagerType, WagerStatus}
use jungle_backend_challenge.Domain.Events.{IntegrationEvent}

-- `WagerResultStatus`
pub data ResultStatus : Type 0 where
  processed rejected pending : ResultStatus

pub record WalletView : Type 0 where
  pub id : String
  pub balance : MoneyProps
  pub version : ℕ

-- `PersistedWagerResponse`, the JSON of `response_payload`, with the fields of older rows
pub record PersistedResponse : Type 0 where
  pub transaction_id : Option String
  pub status : ResultStatus
  pub failure_code : Option String
  pub balance : Option MoneyProps
  pub wallet : Option WalletView
  pub reference_external_transaction_id : Option String
  pub reference_transaction_id : Option String
  pub wager_transaction_id : Option String

pub record WagerRow : Type 0 where
  pub id : String
  pub type : WagerType
  pub status : WagerStatus
  pub wallet_id : String
  pub player_id : Option String
  pub round_id : Option String
  pub game_id : Option String
  pub provider_id : String
  pub external_transaction_id : String
  pub amount_amount : String
  pub amount_currency : String
  pub reference_external_transaction_id : Option String
  pub payload_hash : String
  pub response_payload : Option PersistedResponse
  pub failure_code : Option String
  pub processed_at : Option ℕ
  pub reference_attempts : ℕ
  pub reference : Option String
  pub next_retry_at : Option ℕ
  pub idempotency_key : String

pub record WalletRow : Type 0 where
  pub id : String
  pub player_id : String
  pub currency : String
  pub balance_amount : String
  pub balance_currency : String
  pub version : ℕ
  pub created_at : ℕ
  pub updated_at : ℕ

-- A row of `wallet_ledger_entries`.
pub record LedgerRow : Type 0 where
  pub id : String
  pub direction : LedgerDirection
  pub value_amount : String
  pub value_currency : String
  pub balance_before_amount : String
  pub balance_before_currency : String
  pub balance_after_amount : String
  pub balance_after_currency : String
  pub wallet_id : String
  pub transaction_id : String
  pub created_at : ℕ

-- FAILED, which the schema allows, is written by no statement.
pub data OutboxStatus : Type 0 where
  pending published failed : OutboxStatus

pub record OutboxRow : Type 0 where
  pub id : String
  pub event_id : String
  pub event_type : String
  pub schema_version : ℕ
  pub payload : IntegrationEvent
  pub status : OutboxStatus
  pub attempts : ℕ
  pub next_attempt_at : ℕ
  pub last_error : Option String
  pub created_at : ℕ
  pub published_at : Option ℕ

pub record InboxRow : Type 0 where
  pub consumer_name : String
  pub message_id : String
  pub body_hash : String
  pub received_count : ℕ
  pub processed_at : Option ℕ
  pub correlation_id : Option String
  pub first_received_at : ℕ
  pub last_received_at : ℕ

pub record Db : Type 0 where
  pub wallets : List WalletRow
  pub wagers : List WagerRow
  pub ledger : List LedgerRow
  pub outbox : List OutboxRow
  pub inbox : List InboxRow

-- NUMERIC(18,2) holds fewer hundredths than this.
abbrev pub numeric_limit : ℕ
numeric_limit = 10 ^ 18
