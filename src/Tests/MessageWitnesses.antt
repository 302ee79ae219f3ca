-- ===== src/Tests/MessageWitnesses.antt =====
-- The theorems on src/messaging at concrete inputs.
use jungle_backend_challenge.Prelude.{
  nat_eq, arith, ◌≡◌, refl, ◌≢◌, ◌⊎◌, ◌≤◌, true, false, String, Option, none, some, List, [], ◌∷◌,
  ◌++◌, map, subst, ◌==◌, ◌||◌, leb, ◌^◌, if◌then◌else◌,
}
use jungle_backend_challenge.Prelude.Results.{ok}
use jungle_backend_challenge.Domain.Amount.Print.{emit, show_decimals, show_cents}
use jungle_backend_challenge.Domain.Amount.{amount_pattern, currency_pattern, cents}
use jungle_backend_challenge.Domain.Money.{create, to_json, is_zero, is_negative}
use jungle_backend_challenge.Domain.Decimal.Exact.{Signed, exact-IsDecimal}
use jungle_backend_challenge.Domain.WagerTransaction.{bet, processed}
use jungle_backend_challenge.Domain.Events.{IntegrationEvent, wager_processed}
use jungle_backend_challenge.Domain.CanonicalJson.{Json, str, obj, end, field, property}
use jungle_backend_challenge.Database.Rows.{OutboxRow, OutboxStatus, InboxRow}
use jungle_backend_challenge.Database.Tx.{Env, World}
use jungle_backend_challenge.Wagering.Books.{IsSound}
use jungle_backend_challenge.Wagering.Payload.{wager_payload_hash}
use jungle_backend_challenge.Messaging.Shutdown.Runs.{
  signal, begin, finish, wait, calls, idle, waits, signals, in_flight, IsServed, calls_lem,
}
use jungle_backend_challenge.Messaging.SendErrors.{permanent, backoff_seconds}
use jungle_backend_challenge.Messaging.SendErrors.Delays.{doublings, backoff_bounds}
use jungle_backend_challenge.Messaging.Jobs.{Outside, Station}
use jungle_backend_challenge.Messaging.Publisher.{
  PublisherConfig, event_message, claim_and_publish, cycle,
}
use jungle_backend_challenge.Messaging.Publisher.Attempts.{Claimed}
use jungle_backend_challenge.Messaging.Publisher.Claims.{claim_and_publish-Claimed}
use jungle_backend_challenge.Messaging.Publisher.Cycles.{contents, IsDelivered, cycle-IsDelivered}
use jungle_backend_challenge.Messaging.SendErrors.{classify_send_error}
use jungle_backend_challenge.Messaging.SendErrors.Classes.{
  IsClassified, classify_send_error-IsClassified,
}
use jungle_backend_challenge.Messaging.Publisher.{injected}
use jungle_backend_challenge.Messaging.Publisher.Counts.{Counted, cycle-Counted}
use jungle_backend_challenge.Messaging.Publisher.Stops.{Stopped, run_loop-stops}
use jungle_backend_challenge.Messaging.Publisher.{run_loop}
use jungle_backend_challenge.Messaging.Publisher.Refines.{Steps, seen, cycle-Steps}
use jungle_backend_challenge.Messaging.Publisher.Groups.{event_wallet, event_message_lem}
use jungle_backend_challenge.Messaging.Requests.{
  SqsMessage, Command, read_command, read_message, parse_message_body,
}
use jungle_backend_challenge.Wagering.Submission.{
  Formats, is_identifier, text_field, optional_identifier, object_field, only_keys, kind_of,
  read_money, reference_allowed, read_wager_data, normalize_sqs_wager, read_business, refined,
  normalize_wager,
}
use jungle_backend_challenge.Messaging.CommandHandler
use jungle_backend_challenge.Messaging.CommandHandler.{
  ack, redeliver, process, process_read, handle, after_claim, process_claimed,
}
use jungle_backend_challenge.Messaging.Inbox
use jungle_backend_challenge.Messaging.Inbox.{upsert, upsert_found}
use jungle_backend_challenge.Wagering.Effects.{
  publish, store_movement, publish_movement, finish_balance_change,
}
use jungle_backend_challenge.Wagering.Payload.{normalize_wager_input, make_result}
use jungle_backend_challenge.Wagering.Repository.{
  insert_row, pending_row, insert_pending, update_wager, mark_processed, lock_wallet,
}
use jungle_backend_challenge.Wagering.Repository.Movements.{
  arithmetic_holds, insert_ledger_row, ledger_row, set_balance, apply_wallet_mutation, outbox_row,
  insert_outbox_row, insert_ledger_entry, insert_outbox_event,
}
use jungle_backend_challenge.Domain.LedgerEntry.{candidate, record_entry}
use jungle_backend_challenge.Domain.Wallet.{apply}
use jungle_backend_challenge.Database.Tx.{transactional, attempt, ◌>>=◌, refuse_if}
use jungle_backend_challenge.Wagering.References.{wallet_of_row}
use jungle_backend_challenge.Wagering.ProcessWager.{execute, win_reference}
use jungle_backend_challenge.Messaging.CommandHandler.Handled.{IsRecorded, IsUnmoved, counted}
use jungle_backend_challenge.Messaging.CommandHandler.Deliveries.{
  process_settles, process_conflict, process_again,
}
use jungle_backend_challenge.Messaging.CommandHandler.Books.{process-IsSound}
use jungle_backend_challenge.Messaging.CommandConsumer.{
  group_messages, done, next, here, there, group_key, push, add_to_group, group_from, wallet_key,
  wallet_of_body,
}
use jungle_backend_challenge.Prelude.{Has}
use jungle_backend_challenge.Messaging.CommandConsumer.{Consumer, process_order}
use jungle_backend_challenge.Messaging.CommandConsumer.Deletions.{
  IsAccounted, process_order-IsAccounted,
}
use jungle_backend_challenge.Messaging.CommandConsumer.Groups.{
  of_wallet, group_messages-keeps_order,
}
use jungle_backend_challenge.Tests.Fixtures.{env, world, opened, command}
use jungle_backend_challenge.Tests.Witnesses.{opened-IsSound}

-- Every command has one hash.
abbrev same_hash : Env Signed
same_hash = record env { sha256 = λ s. "h" }

-- A body "w1" or "w2" is a BET on that wallet, and all others cannot be parsed.
abbrev bet_body : String → Json
bet_body wallet_id = obj (
    field "messageId" (str "m1") (
      field "type" (str "WagerTransactionRequested") (
        field "occurredAt" (str "2026-01-01T00:00:00Z") (
          field "data"
            (obj (
              field "providerId" (str "prov") (
                field "externalTransactionId" (str "k1") (
                  field "playerId" (str "p1") (
                    field "walletId" (str wallet_id) (
                      field "roundId" (str "r1") (
                        field "gameId" (str "g1") (
                          field "kind" (str "BET") (
                            field "money"
                              (obj (field "amount" (str "30") (field "currency" (str "BRL") end)))
                              (field "idempotencyKey" (str "k1") end))))))))))
            end))))

abbrev parsed : String → Option Json
parsed s = if s == "w1" || s == "w2" then some (bet_body s) else none

abbrev formats : Formats
formats = record { parse = parsed; is_uuid = λ s. true; is_datetime = λ s. true }

abbrev message : String → SqsMessage
message body = record { message_id = some body; body = some body; receipt_handle = some "receipt" }

abbrev bet_command : Command
bet_command = record {
  message_id = "m1";
  input = record (command "k1" bet "30.00" none) { correlation_id = some "m1" };
  body_hash = "h";
}

bet_read : read_command same_hash.dec same_hash.sha256 formats (message "w1") ≡ ok bet_command
unfolding read_command is_identifier text_field optional_identifier object_field only_keys kind_of
    read_money reference_allowed read_wager_data read_message parse_message_body normalize_sqs_wager
    read_business refined normalize_wager wager_payload_hash property create to_json amount_pattern
    currency_pattern cents show_cents show_decimals emit
bet_read = refl

abbrev delivered_hash : String
delivered_hash = "other"

other_hash : delivered_hash ≢ "h"
other_hash e = absurd (subst (λ s. if delivered_hash == s then Unit {0} else ⊥) e tt)

-- The message has been delivered before, with that hash.
abbrev delivered_row : String → InboxRow
delivered_row hash = record {
  consumer_name = "wager-command-consumer";
  message_id = "m1";
  body_hash = hash;
  received_count = 1;
  processed_at = some 4000;
  correlation_id = some "m1";
  first_received_at = 4000;
  last_received_at = 4000;
}

abbrev delivered : String → World
delivered hash = record world { db = record opened { inbox = delivered_row hash ∷ [] } }

process_settles_example :
    ((c : Command) × (read_command env.dec env.sha256 formats (message "w1") ≡ ok c)
      × ((process env formats (message "w1") world).0 ≡ ok ack)
      × IsRecorded c (process env formats (message "w1") world).1.db)
    ⊎ (((process env formats (message "w1") world).0 ≡ ok redeliver)
        × IsUnmoved world.db (process env formats (message "w1") world).1.db)
process_settles_example = process_settles env formats (message "w1") world

process_conflict_example :
    process same_hash formats (message "w1") (delivered "other")
    ≡ (ok redeliver, counted "m1" (delivered "other"))
process_conflict_example =
    process_conflict same_hash formats (message "w1") bet_command (delivered_row "other")
      (delivered "other") bet_read refl other_hash

process-IsSound_example : IsSound (process env formats (message "w1") world).1.db
process-IsSound_example =
    process-IsSound env exact-IsDecimal formats (message "w1") world opened-IsSound

bet_acked : (process same_hash formats (message "w1") world).0 ≡ ok ack
unfolding process process_read handle CommandHandler.deliver after_claim process_claimed upsert
    upsert_found Inbox.mark_processed read_command is_identifier text_field optional_identifier
    object_field only_keys kind_of read_money reference_allowed read_wager_data read_message
    parse_message_body normalize_sqs_wager read_business refined normalize_wager wager_payload_hash
    property transactional attempt ◌>>=◌ refuse_if to_json create is_zero is_negative amount_pattern
    currency_pattern cents emit show_decimals show_cents apply candidate record_entry insert_row
    pending_row insert_pending update_wager mark_processed lock_wallet arithmetic_holds
    insert_ledger_row ledger_row set_balance apply_wallet_mutation outbox_row insert_outbox_row
    insert_ledger_entry insert_outbox_event normalize_wager_input make_result publish store_movement
    publish_movement finish_balance_change wallet_of_row win_reference execute
bet_acked = refl

process_again_example :
    process same_hash formats (message "w1") (process same_hash formats (message "w1") world).1
    ≡ (ok ack, counted "m1" (process same_hash formats (message "w1") world).1)
process_again_example =
    process_again same_hash formats (message "w1") bet_command world
      (process same_hash formats (message "w1") world).1 bet_read bet_acked refl

calls_lem_example :
    ((calls (begin ∷ wait 1 ∷ finish ∷ signal ∷ []) idle).drained
        ++ (calls (begin ∷ wait 1 ∷ finish ∷ signal ∷ []) idle).waiting
      ≡ waits (begin ∷ wait 1 ∷ finish ∷ signal ∷ []))
    × IsServed (calls (begin ∷ wait 1 ∷ finish ∷ signal ∷ []) idle)
    × ((calls (begin ∷ wait 1 ∷ finish ∷ signal ∷ []) idle).inflight
        ≡ in_flight 0 (begin ∷ wait 1 ∷ finish ∷ signal ∷ []))
    × ((calls (begin ∷ wait 1 ∷ finish ∷ signal ∷ []) idle).shutting_down
        ≡ signals (begin ∷ wait 1 ∷ finish ∷ signal ∷ []))
calls_lem_example = calls_lem (begin ∷ wait 1 ∷ finish ∷ signal ∷ [])

backoff_bounds_example :
    (backoff_seconds permanent 4
      ≡ (if leb (doublings permanent 4) 5 then 2 ^ doublings permanent 4 else 60))
    × (1 ≤ backoff_seconds permanent 4)
    × (backoff_seconds permanent 4 ≤ 60)
    × (backoff_seconds permanent 4 ≤ backoff_seconds permanent 5)
backoff_bounds_example = backoff_bounds permanent 4

-- An event in the outbox, and a broker that accepts everything.
abbrev event : IntegrationEvent
event = record {
  event_id = "e1";
  occurred_at = 0;
  correlation_id = none;
  payload = wager_processed (record {
    wager_transaction_id = "t1";
    wallet_id = "w1";
    type = bet;
    status = processed;
    amount = record { amount = "30.00"; currency = "BRL" };
    reference_external_transaction_id = none;
    reference_transaction_id = none;
    failure_code = none;
  });
}

abbrev due_row : OutboxRow
due_row = record {
  id = "r1";
  event_id = "e1";
  event_type = "WagerTransactionProcessed";
  schema_version = 1;
  payload = event;
  status = OutboxStatus.pending;
  attempts = 0;
  next_attempt_at = 0;
  last_error = none;
  created_at = 0;
  published_at = none;
}

abbrev outside : Outside
outside = record {
  signalled = λ n. false;
  refusal = λ n m. none;
  kept = λ n. false;
  failing = λ n. none;
  lost_commit = λ n. none;
  fault = λ id. false;
  iso = λ t. "2026-01-01T00:00:00.000Z";
}

abbrev station : Station
station = record {
  world = record world { db = record opened { outbox = due_row ∷ [] } };
  coordinator = idle;
  looks = 0;
  sends = 0;
  statements = 0;
  transactions = 0;
  accepted = [];
}

abbrev publisher_config : PublisherConfig
publisher_config = record { max_attempts = 5 }

claim_and_publish-Claimed_example :
    Claimed outside publisher_config station (claim_and_publish outside publisher_config station)
claim_and_publish-Claimed_example = claim_and_publish-Claimed outside publisher_config station

cycle-IsDelivered_example :
    IsDelivered outside (cycle outside publisher_config 10 station).1
    × (map contents (cycle outside publisher_config 10 station).1.world.db.outbox
        ≡ map contents station.world.db.outbox)
cycle-IsDelivered_example =
    cycle-IsDelivered outside publisher_config 10 station
      (record { keyed = (refl, tt); sent = (tt, tt) })

cycle-Counted_example :
    Counted outside publisher_config 10 station (cycle outside publisher_config 10 station)
cycle-Counted_example = cycle-Counted outside publisher_config 10 station

classify_send_error-IsClassified_example : IsClassified injected (classify_send_error injected)
classify_send_error-IsClassified_example = classify_send_error-IsClassified injected

event_message_lem_example :
    ((event_message outside.iso due_row).group_id ≡ event_wallet event.payload)
    × ((event_message outside.iso due_row).deduplication_id ≡ "e1")
    × ((event_message outside.iso due_row).body ≡ event)
event_message_lem_example = event_message_lem outside.iso due_row

-- Two messages of one wallet and one of another, which comes between them.
abbrev batch : List SqsMessage
batch = message "w1" ∷ message "w2" ∷ message "w1" ∷ []

group_messages-keeps_order_example :
    of_wallet formats "w1" (message "w1" ∷ message "w1" ∷ message "w2" ∷ [])
    ≡ of_wallet formats "w1" batch
unfolding group_messages group_from add_to_group push group_key wallet_key wallet_of_body property
group_messages-keeps_order_example =
    group_messages-keeps_order formats batch (message "w1" ∷ message "w1" ∷ message "w2" ∷ []) "w1"
      (next here (next here (next (there here) (done tt))))

cycle-Steps_example :
    Steps
      (seen outside publisher_config station)
      (seen outside publisher_config (cycle outside publisher_config 10 station).1)
cycle-Steps_example = cycle-Steps outside publisher_config 10 station

-- A shutdown before the fourth look.
abbrev stopping : Outside
stopping = record outside { signalled = λ n. nat_eq n 3 }

run_loop-stops_example : Stopped stopping (run_loop stopping publisher_config 10 4 station).0
run_loop-stops_example = run_loop-stops stopping 3 refl publisher_config 10 station (omega arith)

abbrev consumer : Consumer
consumer = record { world = world; coordinator = idle; deleted = []; asked = 0 }

process_order-IsAccounted_example :
    IsAccounted env formats
      (λ n. false)
      batch
      (process_order env formats (λ n. false) (message "w1" ∷ message "w2" ∷ []) consumer)
process_order-IsAccounted_example =
    process_order-IsAccounted env formats (λ n. false) batch (message "w1" ∷ message "w2" ∷ [])
      consumer (Has.here refl, (Has.there (Has.here refl), tt)) tt
