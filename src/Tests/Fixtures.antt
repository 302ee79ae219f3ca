-- ===== src/Tests/Fixtures.antt =====
-- A small database and the commands that the runs send to it.
use jungle_backend_challenge.Prelude.{String, Option, none, some, [], ◌∷◌, ◌+◌}
use jungle_backend_challenge.Domain.Amount.Print.{emit}
use jungle_backend_challenge.Domain.Decimal.Exact.{Signed, exact}
use jungle_backend_challenge.Domain.LedgerEntry.{credit}
use jungle_backend_challenge.Domain.WagerTransaction.{WagerType, opening, processed}
use jungle_backend_challenge.Database.Rows.{Db, WagerRow, WalletRow, LedgerRow}
use jungle_backend_challenge.Database.Tx.{Env, World}
use jungle_backend_challenge.Wagering.Types.{SubmitInput}

-- Identifiers "id-1", "id-2", …, and a hash that hides nothing.
abbrev pub env : Env Signed
env = record { dec = exact; uuid = λ n. emit (n + 1) n "-id"; sha256 = λ s. s }

abbrev pub wallet : WalletRow
wallet = record {
  id = "w1";
  player_id = "p1";
  currency = "BRL";
  balance_amount = "100.00";
  balance_currency = "BRL";
  version = 1;
  created_at = 0;
  updated_at = 0;
}

abbrev pub opening_row : WagerRow
opening_row = record {
  id = "o1";
  type = opening;
  status = processed;
  wallet_id = "w1";
  player_id = some "p1";
  round_id = none;
  game_id = none;
  provider_id = "internal:w1";
  external_transaction_id = "opening:w1";
  amount_amount = "100.00";
  amount_currency = "BRL";
  reference_external_transaction_id = none;
  payload_hash = "";
  response_payload = none;
  failure_code = none;
  processed_at = some 0;
  reference_attempts = 0;
  reference = none;
  next_retry_at = none;
  idempotency_key = "opening:w1";
}

abbrev pub opening_entry : LedgerRow
opening_entry = record {
  id = "l1";
  direction = credit;
  value_amount = "100.00";
  value_currency = "BRL";
  balance_before_amount = "0.00";
  balance_before_currency = "BRL";
  balance_after_amount = "100.00";
  balance_after_currency = "BRL";
  wallet_id = "w1";
  transaction_id = "o1";
  created_at = 0;
}

abbrev pub opened : Db
opened = record {
  wallets = wallet ∷ [];
  wagers = opening_row ∷ [];
  ledger = opening_entry ∷ [];
  outbox = [];
  inbox = [];
}

abbrev pub world : World
world = record { db = opened; drawn = 1; now = 5000 }

abbrev pub command : String → WagerType → String → Option String → SubmitInput
command key kind amount reference = record {
  idempotency_key = key;
  provider_id = "prov";
  external_transaction_id = key;
  player_id = "p1";
  wallet_id = "w1";
  round_id = "r1";
  game_id = "g1";
  kind = kind;
  money = record { amount = amount; currency = "BRL" };
  reference_external_transaction_id = reference;
  correlation_id = none;
}
