-- ===== src/Messaging/Publisher/Groups.antt =====
-- `aggregateIdFor` of src/messaging/outbox-publisher.ts on the envelopes of src/domain/events.
use jungle_backend_challenge.Prelude.{
  ℕ, ◌≡◌, refl, ◌∙◌, false, String, ◌==◌, Option, none, some, arith, eq_refl,
}
use jungle_backend_challenge.Domain.Events.{
  WagerPayload, EventPayload, wallet_balance_changed, wager_processed, wager_rejected,
  wager_pending_reference, IntegrationEvent,
}
use jungle_backend_challenge.Domain.Events.Envelope.{
  optional, balance_fields, wager_fields, payload_fields, envelope_fields, event_json,
}
use jungle_backend_challenge.Domain.CanonicalJson.{Json, str, obj, Fields, end, field, property}
use jungle_backend_challenge.Database.Rows.{OutboxRow}
use jungle_backend_challenge.Messaging.Publisher.{data_of, aggregate_id_for, event_message}

-- The wallet that an event is about.
abbrev pub event_wallet : EventPayload → String
event_wallet (wallet_balance_changed p) = p.wallet_id
event_wallet (wager_processed p) = p.wallet_id
event_wallet (wager_rejected p) = p.wallet_id
event_wallet (wager_pending_reference p) = p.wallet_id

-- A property that is left out or has another name is not found.
property-optional :
    (key name : String) (v : Option String) (rest : Fields)
    → (name == key) ≡ false
    → property key (optional name v rest) ≡ property key rest
unfolding property
property-optional key name none rest other = refl
property-optional key name (some v) rest other = ground arith

property-end : (key : String) → property key end ≡ none
unfolding property
property-end key = refl

property-skip :
    (key name : String) (v : Json) (rest : Fields)
    → (name == key) ≡ false
    → property key (field name v rest) ≡ property key rest
unfolding property
property-skip key name v rest other = ground arith

property-here :
    (key : String) (v : Json) (rest : Fields)
    → property key rest ≡ none
    → property key (field key v rest) ≡ some v
unfolding property
property-here key v rest last = rw (last, eq_refl key) refl

wager_wallet : (p : WagerPayload) → property "walletId" (wager_fields p) ≡ some (str p.wallet_id)
unfolding wager_fields
wager_wallet p =
    property-skip "walletId" "wagerTransactionId" _ _ refl
    ∙ property-here "walletId" _ _ (
        property-skip "walletId" "type" _ _ refl
        ∙ property-skip "walletId" "status" _ _ refl
        ∙ property-skip "walletId" "amount" _ _ refl
        ∙ property-optional "walletId" "referenceExternalTransactionId" _ _ refl
        ∙ property-optional "walletId" "referenceTransactionId" _ _ refl
        ∙ property-optional "walletId" "failureCode" _ _ refl
        ∙ property-end "walletId")

payload_wallet :
    (p : EventPayload) → property "walletId" (payload_fields p) ≡ some (str (event_wallet p))
unfolding payload_fields balance_fields property
payload_wallet (wallet_balance_changed p) = refl
payload_wallet (wager_processed p) = wager_wallet p
payload_wallet (wager_rejected p) = wager_wallet p
payload_wallet (wager_pending_reference p) = wager_wallet p

event_data :
    (iso : ℕ → String) (e : IntegrationEvent)
    → property "data" (envelope_fields iso e) ≡ some (obj (payload_fields e.payload))
unfolding envelope_fields
event_data iso e =
    property-skip "data" "eventId" _ _ refl
    ∙ property-skip "data" "eventType" _ _ refl
    ∙ property-skip "data" "aggregateId" _ _ refl
    ∙ property-optional "data" "correlationId" _ _ refl
    ∙ property-skip "data" "occurredAt" _ _ refl
    ∙ property-skip "data" "version" _ _ refl
    ∙ property-here "data" _ _ (property-end "data")

aggregate_from :
    (fs data_fields : Fields) (w : String)
    → property "data" fs ≡ some (obj data_fields)
    → property "walletId" data_fields ≡ some (str w)
    → aggregate_id_for (obj fs) ≡ w
unfolding aggregate_id_for data_of
aggregate_from fs data_fields w in_envelope in_data = ground arith

-- The message of an event has the wallet that the event is about for its group, the identifier of
-- the event for the removal of duplicates, and the payload of the row for its body.
pub event_message_lem :
    (iso : ℕ → String) (row : OutboxRow)
    → ((event_message iso row).group_id ≡ event_wallet row.payload.payload)
      × ((event_message iso row).deduplication_id ≡ row.event_id)
      × ((event_message iso row).body ≡ row.payload)
unfolding event_message event_json
event_message_lem iso row = (
  aggregate_from (envelope_fields iso row.payload) _ _ (event_data iso row.payload)
      (payload_wallet row.payload.payload),
  refl,
  refl,
)
