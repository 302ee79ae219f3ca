-- ===== src/Tests/Witnesses.antt =====
-- The theorems on src/wagering and on the creation of wallets at concrete inputs.
use jungle_backend_challenge.Wallets.Opening.{create_wallet-IsSound}
use jungle_backend_challenge.Wallets.Creation.{create_wallet}
use jungle_backend_challenge.Wagering.Books.Retries.{IsRetried, process_one-ok}
use jungle_backend_challenge.Tests.Retries.{
  one_rescheduled, retry_config, no_rows, waiting_world, waiting_row, batch_run, retry_run,
}
use jungle_backend_challenge.Domain.CanonicalJson.{
  canonicalize, insert_field, hex_digit, escape, escaped, quote, payload_hash,
}
use jungle_backend_challenge.Database.Tx.{World}
use jungle_backend_challenge.Database.Rows.{WagerRow}
use jungle_backend_challenge.Wagering.Replay.{
  IsInsertable, other_payload-execute, same_payload-execute,
}
use jungle_backend_challenge.Wagering.Books.Outcome.{execute-IsSettled}
use jungle_backend_challenge.Wagering.Payload.{
  wager_payload_hash, hashed_fields, normalize_persisted_response, make_result,
}
use jungle_backend_challenge.Wagering.Books.Settled.{IsSettled}
use jungle_backend_challenge.Wagering.Books.Commands.{execute-IsSound}
use jungle_backend_challenge.Wagering.Atomic.{execute-throws}
use jungle_backend_challenge.Tests.Runs.{
  dollars, bet_result, dollars_run, bet_input, bet_normal, bet_run,
}
use jungle_backend_challenge.Wagering.ProcessWager.{execute, pending_input}
use jungle_backend_challenge.Domain.Amount.Print.{show_cents, emit, show_decimals}
use jungle_backend_challenge.Domain.Amount.{cents, currency_pattern}
use jungle_backend_challenge.Wagering.Repository.{pending_row}
use jungle_backend_challenge.Wagering.Repository.Movements.{arithmetic_holds}
use jungle_backend_challenge.Prelude.{
  none, ◌≢◌, ◌+◌, String, ◌⊎◌, some, true, ◌≡◌, refl, [], ◌∷◌, arith, subst, if◌then◌else◌, ◌==◌,
}
use jungle_backend_challenge.Prelude.Results.{ok, err}
use jungle_backend_challenge.Wagering.Books.{IsSound, IsBalanced, total}
use jungle_backend_challenge.Domain.Decimal.Exact.{exact-IsDecimal}
use jungle_backend_challenge.Domain.WagerTransaction.{bet, type_text}
use jungle_backend_challenge.Domain.Errors.{unprocessable}
use jungle_backend_challenge.Wagering.Books.Commands.{IsSound-IsFramed}
use jungle_backend_challenge.Wagering.PendingReferenceWorker.{
  rescheduled, first_due, process_batch, process_one,
}
use jungle_backend_challenge.Wagering.Batch.{counted, process_batch-exhausts}
use jungle_backend_challenge.Tests.Fixtures.{
  env, world, opened, wallet, opening_entry, command, opening_row,
}

opened-IsBalanced : IsBalanced (opening_entry ∷ []) wallet
unfolding cents show_cents emit show_decimals currency_pattern total
opened-IsBalanced = record {
  scale = refl;
  code = refl;
  currency = refl;
  limit = omega arith;
  balance = refl;
}

pub opened-IsSound : IsSound opened
unfolding arithmetic_holds cents
opened-IsSound = record {
  keyed = (refl, tt);
  balanced =
      λ id w e. subst (λ r. IsBalanced (opening_entry ∷ []) r) (ground (arith)) opened-IsBalanced;
  entries_hold = (refl, tt);
}

execute-IsSettled_example :
    ((bet_result.idempotent_replay ≡ true)
      × ((execute env (command "k1" bet "30" none) world).1.db ≡ world.db))
    ⊎ IsSettled bet_input
        (env.uuid 1)
        (pending_row
          (pending_input env bet_input (wager_payload_hash env.sha256 bet_input) (env.uuid 1)))
        world.db
        bet_result
        (execute env (command "k1" bet "30" none) world).1.db
execute-IsSettled_example =
    execute-IsSettled env exact-IsDecimal (command "k1" bet "30" none) bet_input bet_result world
      opened-IsSound bet_normal bet_run

execute-IsSound_example : IsSound (execute env (command "k1" bet "30" none) world).1.db
execute-IsSound_example =
    execute-IsSound env exact-IsDecimal (command "k1" bet "30" none) world opened-IsSound

execute-throws_example : (execute env dollars world).1.db ≡ world.db
execute-throws_example =
    execute-throws env dollars
      (unprocessable "WALLET_NOT_FOUND" (some "no wallet for player p1 in USD")) world dollars_run

-- A stored wager under the key "k1", and the tables with it.
abbrev answered : String → WagerRow
answered hash = record opening_row {
  id = "t0";
  idempotency_key = "k1";
  payload_hash = hash;
  response_payload = some bet_result.response;
}

abbrev answered_world : String → World
answered_world hash = record world {
  db = record opened { wagers = answered hash ∷ opening_row ∷ [] };
}

answered-IsInsertable : (hash : String) → IsInsertable env bet_input (answered_world hash)
unfolding cents emit currency_pattern
answered-IsInsertable hash = record { fits = omega arith; code = refl; fresh = refl }

same_payload-execute_example :
    execute env
      (command "k1" bet "30" none)
      (answered_world (wager_payload_hash env.sha256 bet_input))
    ≡ (
      ok (make_result bet_result.response true none),
      record (answered_world (wager_payload_hash env.sha256 bet_input)) { drawn = 2 },
    )
unfolding normalize_persisted_response
same_payload-execute_example =
    same_payload-execute env (command "k1" bet "30" none) bet_input
      (answered (wager_payload_hash env.sha256 bet_input)) bet_result.response bet_result.response
      (answered_world (wager_payload_hash env.sha256 bet_input)) bet_normal
      (answered-IsInsertable (wager_payload_hash env.sha256 bet_input)) refl refl refl refl

other_hash : "other" ≢ wager_payload_hash env.sha256 bet_input
unfolding wager_payload_hash hashed_fields type_text insert_field hex_digit escape escaped quote
    canonicalize payload_hash
other_hash e = absurd (subst (λ s. if "other" == s then Unit {0} else ⊥) e tt)

other_payload-execute_example :
    execute env (command "k1" bet "30" none) (answered_world "other") ≡ (
      err (
          unprocessable "IDEMPOTENCY_CONFLICT"
            (some "idempotency key reused with a different payload")),
      record (answered_world "other") { drawn = 2 },
    )
other_payload-execute_example =
    other_payload-execute env (command "k1" bet "30" none) bet_input (answered "other")
      bet_result.response (answered_world "other") bet_normal (answered-IsInsertable "other") refl
      refl other_hash

waiting-IsSound : IsSound waiting_world.db
waiting-IsSound = IsSound-IsFramed.wagers opened (waiting_row ∷ opening_row ∷ []) opened-IsSound

process_one-ok_example :
    IsRetried retry_config waiting_row waiting_world rescheduled
      (process_one env retry_config waiting_row waiting_world).1.db
unfolding cents
process_one-ok_example =
    process_one-ok env exact-IsDecimal retry_config waiting_row (omega arith) refl rescheduled
      waiting_world waiting-IsSound retry_run

process_batch-exhausts_example :
    (counted one_rescheduled ≡ counted no_rows + 10)
    ⊎ (first_due
          (process_batch env retry_config 10 no_rows waiting_world).1.now
          (process_batch env retry_config 10 no_rows waiting_world).1.db.wagers
        ≡ none)
process_batch-exhausts_example =
    process_batch-exhausts env retry_config 10 no_rows one_rescheduled waiting_world batch_run

create_wallet-IsSound_example :
    IsSound
      (create_wallet env
        (record {
          player_id = "p2";
          initial_balance = record { amount = "50"; currency = "BRL" };
          correlation_id = none;
        })
        world).1.db
unfolding emit
create_wallet-IsSound_example =
    create_wallet-IsSound env exact-IsDecimal
      (record {
        player_id = "p2";
        initial_balance = record { amount = "50"; currency = "BRL" };
        correlation_id = none;
      })
      world opened-IsSound refl
