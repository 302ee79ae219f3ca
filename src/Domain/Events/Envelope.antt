-- ===== src/Domain/Events/Envelope.antt =====
-- src/domain/events/*.ts: the wire envelope of an event, `toJSON`, as a JSON value. The text of a
-- time, `Date#toISOString`, is a parameter.
use jungle_backend_challenge.Prelude.{ℕ, ◌+◌, String, Option, none, some, nat_eq, if◌then◌else◌}
use jungle_backend_challenge.Domain.Amount.Print.{emit}
use jungle_backend_challenge.Domain.Money.{MoneyProps}
use jungle_backend_challenge.Domain.LedgerEntry.{LedgerDirection, debit, credit}
use jungle_backend_challenge.Domain.WagerTransaction.{type_text, status_text}
use jungle_backend_challenge.Domain.CanonicalJson.{Json, str, num, obj, Fields, end, field}
use jungle_backend_challenge.Domain.Events.{
  BalanceChanged, WagerPayload, EventPayload, wallet_balance_changed, wager_processed,
  wager_rejected, wager_pending_reference, event_type, aggregate_id, event_version,
  IntegrationEvent,
}

-- The text of a number.
abbrev decimal : ℕ → String
decimal n = if nat_eq n 0 then "0" else emit (n + 1) n ""

-- A property that is left out if it is undefined.
abbrev pub optional : String → Option String → Fields → Fields
optional key none rest = rest
optional key (some v) rest = field key (str v) rest

direction_text : LedgerDirection → String
direction_text debit = "DEBIT"
direction_text credit = "CREDIT"

money_json : MoneyProps → Json
money_json m = obj (field "amount" (str m.amount) (field "currency" (str m.currency) end))

unfoldable pub balance_fields : BalanceChanged → Fields
unfolding money_json direction_text
balance_fields p = field "walletId" (str p.wallet_id) (
    field "playerId" (str p.player_id) (
      field "currency" (str p.currency) (
        field "walletVersion" (num (decimal p.wallet_version)) (
          field "direction" (str (direction_text p.direction)) (
            field "value" (money_json p.value) (
              field "balanceBefore" (money_json p.balance_before) (
                field "balanceAfter" (money_json p.balance_after)
                  (field "transactionId" (str p.transaction_id) end))))))))

unfoldable pub wager_fields : WagerPayload → Fields
unfolding money_json
wager_fields p = field "wagerTransactionId" (str p.wager_transaction_id) (
    field "walletId" (str p.wallet_id) (
      field "type" (str (type_text p.type)) (
        field "status" (str (status_text p.status)) (
          field "amount" (money_json p.amount) (
            optional "referenceExternalTransactionId" p.reference_external_transaction_id (
              optional "referenceTransactionId" p.reference_transaction_id
                (optional "failureCode" p.failure_code end)))))))

-- `data` of the envelope
unfoldable pub payload_fields : EventPayload → Fields
unfolding balance_fields wager_fields
payload_fields (wallet_balance_changed p) = balance_fields p
payload_fields (wager_processed p) = wager_fields p
payload_fields (wager_rejected p) = wager_fields p
payload_fields (wager_pending_reference p) = wager_fields p

-- `toJSON`: no event of the service has a `causationId`.
unfoldable pub envelope_fields : (ℕ → String) → IntegrationEvent → Fields
unfolding payload_fields event_type aggregate_id
envelope_fields iso e = field "eventId" (str e.event_id) (
    field "eventType" (str (event_type e.payload)) (
      field "aggregateId" (str (aggregate_id e.payload)) (
        optional "correlationId" e.correlation_id (
          field "occurredAt" (str (iso e.occurred_at)) (
            field "version" (num (decimal (event_version e.payload)))
              (field "data" (obj (payload_fields e.payload)) end))))))

unfoldable pub event_json : (ℕ → String) → IntegrationEvent → Json
event_json iso e = obj (envelope_fields iso e)
