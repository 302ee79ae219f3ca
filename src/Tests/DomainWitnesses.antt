-- ===== src/Tests/DomainWitnesses.antt =====
-- The theorems on src/domain at concrete inputs.
use jungle_backend_challenge.Wagering.Books.Store.{Moves, apply-Moves}
use jungle_backend_challenge.Domain.Wallet.Laws.{applied, apply-ok, apply-short, open_wallet_lem}
use jungle_backend_challenge.Domain.LedgerEntry.Laws.{entry_of, record_entry-ok}
use jungle_backend_challenge.Domain.Money.{add, Money, sub, create}
use jungle_backend_challenge.Domain.LedgerEntry.{record_entry, credit, debit}
use jungle_backend_challenge.Domain.Wallet.{Wallet, apply, open_wallet}
use jungle_backend_challenge.Domain.Money.Texts.{Created, create_lem}
use jungle_backend_challenge.Domain.Money.Laws.{
  IsMoney, of_cents-IsMoney, of_cents, add_lem, sub_lem, sub_negative,
}
use jungle_backend_challenge.Domain.Amount.Print.{show_cents, emit, show_decimals}
use jungle_backend_challenge.Domain.Amount.{cents, currency_pattern}
use jungle_backend_challenge.Prelude.{◌≢◌, ◌+◌, ◌-◌, String, some, true, ◌≡◌, refl, arith}
use jungle_backend_challenge.Prelude.Results.{ok, err}
use jungle_backend_challenge.Domain.Decimal.Exact.{exact, exact-IsDecimal}
use jungle_backend_challenge.Domain.WagerTransaction.Machine.{
  Reach, next, here, to_rejected, SameWager, IsConsistent, Step, lifecycle,
}
use jungle_backend_challenge.Domain.WagerTransaction.{
  opening, rollback, rejected, WagerTransaction, CreateProps, create_wager, pending_snapshot,
  mark_rejected, present,
}
use jungle_backend_challenge.Domain.Errors.{domain, insufficient_funds, invalid_money, MoneyField}

-- Wallets, money and entries in whole hundredths.
abbrev balance : Money
balance = of_cents 10000 "BRL"

abbrev stake : Money
stake = of_cents 3000 "BRL"

abbrev holder : Wallet
holder = record {
  id = "w1";
  player_id = "p1";
  currency = "BRL";
  balance = balance;
  version = 1;
  created_at = 0;
  updated_at = 0;
}

balance-IsMoney : IsMoney balance
unfolding currency_pattern
balance-IsMoney = of_cents-IsMoney 10000 "BRL" refl

stake-IsMoney : IsMoney stake
unfolding currency_pattern
stake-IsMoney = of_cents-IsMoney 3000 "BRL" refl

apply-ok_example : apply exact debit holder stake "t1" 7 ≡ ok (applied debit holder stake "t1" 7)
unfolding cents show_cents emit show_decimals
apply-ok_example =
    apply-ok exact exact-IsDecimal debit holder stake "t1" 7 balance-IsMoney stake-IsMoney refl
      (omega arith) refl (omega arith)

apply-short_example :
    apply exact debit (record holder { balance = stake }) balance "t1" 7
    ≡ err (domain (insufficient_funds stake.amount balance.amount))
unfolding cents show_cents emit show_decimals
apply-short_example =
    apply-short exact exact-IsDecimal (record holder { balance = stake }) balance "t1" 7
      stake-IsMoney balance-IsMoney refl (omega arith)

add_lem_example :
    add exact balance stake ≡ ok (of_cents (cents balance.amount + cents stake.amount) "BRL")
unfolding cents show_cents emit show_decimals
add_lem_example =
    add_lem exact exact-IsDecimal balance stake balance-IsMoney stake-IsMoney (omega arith)

sub_lem_example :
    sub exact balance stake ≡ ok (of_cents (cents balance.amount - cents stake.amount) "BRL")
unfolding cents show_cents emit show_decimals
sub_lem_example =
    sub_lem exact exact-IsDecimal balance stake balance-IsMoney stake-IsMoney (omega arith)
      (omega arith)

sub_negative_example :
    sub exact stake balance
    ≡ err (
        domain (
          invalid_money MoneyField.amount
            (String.◌∷◌ "-" (show_cents (cents balance.amount - cents stake.amount)))))
unfolding cents show_cents emit show_decimals
sub_negative_example =
    sub_negative exact exact-IsDecimal stake balance stake-IsMoney balance-IsMoney refl
      (omega arith) (omega arith)

create_lem_example :
    Created
      (record { amount = "30"; currency = "BRL" })
      (create exact (record { amount = "30"; currency = "BRL" }))
create_lem_example = create_lem exact exact-IsDecimal (record { amount = "30"; currency = "BRL" })

record_entry-ok_example :
    record_entry exact credit stake balance "w1" "t1" 7
    ≡ ok (entry_of exact exact-IsDecimal credit stake balance "w1" "t1" 7)
unfolding cents show_cents emit show_decimals
record_entry-ok_example =
    record_entry-ok exact exact-IsDecimal credit stake balance "w1" "t1" 7 stake-IsMoney
      balance-IsMoney (omega arith) refl (omega arith)

open_wallet_lem_example :
    open_wallet exact "w2" "p2" "BRL" stake 7
    ≡ ok (record {
      wallet = record {
        id = "w2";
        player_id = "p2";
        currency = "BRL";
        balance = stake;
        version = 1;
        created_at = 7;
        updated_at = 7;
      };
      opening = some (record {
        direction = credit;
        value = stake;
        balance_before = of_cents 0 "BRL";
        balance_after = of_cents (cents stake.amount) "BRL";
        wallet_id = "w2";
        transaction_id = "w2";
        created_at = 7;
      });
    })
unfolding cents show_cents emit show_decimals currency_pattern
open_wallet_lem_example =
    open_wallet_lem exact exact-IsDecimal "w2" "p2" "BRL" stake 7 stake-IsMoney refl (omega arith)

-- A ROLLBACK that is rejected at once.
abbrev created : CreateProps
created = record {
  id = "t1";
  type = rollback;
  wallet_id = "w1";
  provider_id = "prov";
  external_transaction_id = "x1";
  amount = stake;
  reference = some "x0";
  payload_hash = "h";
  created_at = 1;
}

abbrev waiting : WagerTransaction
waiting = pending_snapshot created

abbrev refused : WagerTransaction
refused = record waiting {
  status = rejected;
  failure_code = some "REFERENCE_NOT_FOUND";
  response_payload = some "r";
  processed_at = some 9;
}

created_ok : create_wager created ≡ ok waiting
unfolding create_wager
created_ok = refl

refused-Reach : Reach waiting refused
unfolding mark_rejected pending_snapshot
refused-Reach = next here (to_rejected "REFERENCE_NOT_FOUND" "r" 9 refl)

lifecycle_example :
    SameWager waiting refused
    × IsConsistent refused
    × (rollback ≢ opening)
    × (true ≡ true → present (some "x0") ≡ true)
    × (Unit {0} → (v : WagerTransaction) → ¬ (Step refused v))
unfolding pending_snapshot
lifecycle_example = lifecycle created {t = waiting} {u = refused} created_ok refused-Reach

apply-Moves_example : Moves debit holder stake "t1" 7 (applied debit holder stake "t1" 7)
unfolding cents show_cents emit show_decimals
apply-Moves_example =
    apply-Moves exact exact-IsDecimal debit holder stake "t1" 7 (applied debit holder stake "t1" 7)
      balance-IsMoney stake-IsMoney (omega arith)
      (apply-ok exact exact-IsDecimal debit holder stake "t1" 7 balance-IsMoney stake-IsMoney refl
        (omega arith) refl (omega arith))
