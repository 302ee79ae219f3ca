-- ===== src/Domain/Wallet/Laws.antt =====
-- Lemmas on src/domain/wallet.ts: movements and openings, in hundredths.
use native.Mathlib.Nat.{zero-add}
use jungle_backend_challenge.Prelude.{
  ℕ, ◌+◌, ◌≡◌, refl, ◌<◌, true, String, arith, nat_eq, eq_true, ◌≢◌, eq_iff, if◌then◌else◌,
  Bool-cases, inl, inr, some, none, codes,
}
use jungle_backend_challenge.Prelude.Results.{ok, err}
use jungle_backend_challenge.Domain.Errors.{
  domain, insufficient_funds, invalid_ledger_entry, currency_mismatch,
}
use jungle_backend_challenge.Domain.Amount.{cents, currency_pattern, amount_pattern}
use jungle_backend_challenge.Domain.Amount.Print.{cents-show_cents}
use jungle_backend_challenge.Domain.Decimal.{DecimalOps, IsDecimal, precision}
use jungle_backend_challenge.Domain.Money
use jungle_backend_challenge.Domain.Money.{Money}
use jungle_backend_challenge.Domain.Money.Laws.{
  IsMoney, IsMoney-amount, of_cents, of_cents-IsMoney, is_zero_lem, create-ok,
}
use jungle_backend_challenge.Domain.LedgerEntry.{LedgerDirection, debit, credit, LedgerEntry}
use jungle_backend_challenge.Domain.LedgerEntry.Laws.{
  moved, covered, record_entry-ok, record_entry-zero, is_negative-candidate,
  is_negative-candidate_short,
}
use jungle_backend_challenge.Domain.Wallet.{Wallet, Applied, open_wallet, apply}

-- The wallet and the entry after a movement.
abbrev pub applied : LedgerDirection → Wallet → Money → String → ℕ → Applied
applied d w v t at =
    let after = moved d (cents w.balance.amount) (cents v.amount) in
    record {
      wallet = record w {
        balance = of_cents after w.balance.currency;
        version = w.version + 1;
        updated_at = at;
      };
      entry = record {
        direction = d;
        value = v;
        balance_before = w.balance;
        balance_after = of_cents after w.balance.currency;
        wallet_id = w.id;
        transaction_id = t;
        created_at = at;
      };
    }

create-zero :
    {D : Type 0} (dec : DecimalOps D) (laws : IsDecimal dec) (c : String)
    → currency_pattern (codes c) ≡ true
    → Money.create dec (record { amount = "0"; currency = c }) ≡ ok (of_cents 0 c)
unfolding cents amount_pattern
create-zero dec laws c h = create-ok dec laws "0" c refl h

module _ {D : Type 0} (dec : DecimalOps D) (laws : IsDecimal dec) where
  -- A covered movement of a positive value in the wallet's currency, with a sum below the precision
  -- of decimal.js: the balance moves by exactly the value, the version by one, and the entry leads from the old balance to the new one.
  pub apply-ok :
      (d : LedgerDirection) (w : Wallet) (v : Money) (t : String) (at : ℕ)
      → IsMoney w.balance
      → IsMoney v
      → v.currency ≡ w.currency
      → 0 < cents v.amount
      → covered d (cents w.balance.amount) (cents v.amount) ≡ true
      → cents w.balance.amount + cents v.amount < precision
      → apply dec d w v t at ≡ ok (applied d w v t at)
  unfolding apply
  apply-ok debit w v t at hb hv e pos c p =
      rw
        (
          eq_true _ _ e,
          is_negative-candidate dec laws debit w.balance.amount v.amount
              (IsMoney-amount w.balance hb) (IsMoney-amount v hv) c,
          record_entry-ok dec laws debit v w.balance w.id t at hv hb pos c p,
        )
        refl
  apply-ok credit w v t at hb hv e pos c p =
      rw (eq_true _ _ e, record_entry-ok dec laws credit v w.balance w.id t at hv hb pos c p) refl

  -- A debit in the wallet's currency that the balance does not cover throws `InsufficientFundsError`.
  pub apply-short :
      (w : Wallet) (v : Money) (t : String) (at : ℕ)
      → IsMoney w.balance
      → IsMoney v
      → v.currency ≡ w.currency
      → cents w.balance.amount < cents v.amount
      → apply dec debit w v t at ≡ err (domain (insufficient_funds w.balance.amount v.amount))
  unfolding apply
  apply-short w v t at hb hv e short =
      rw
        (
          eq_true _ _ e,
          is_negative-candidate_short dec laws w.balance.amount v.amount
              (IsMoney-amount w.balance hb) (IsMoney-amount v hv) short,
        )
        refl

  -- A movement of nothing throws `InvalidLedgerEntryError`.
  pub apply-zero :
      (d : LedgerDirection) (w : Wallet) (v : Money) (t : String) (at : ℕ)
      → IsMoney w.balance
      → IsMoney v
      → v.currency ≡ w.currency
      → cents v.amount ≡ 0
      → apply dec d w v t at
        ≡ err (domain (invalid_ledger_entry "ledger value must be positive" v.amount))
  unfolding apply
  apply-zero debit w v t at hb hv e z =
      rw
        (
          eq_true _ _ e,
          is_negative-candidate dec laws debit w.balance.amount v.amount
              (IsMoney-amount w.balance hb) (IsMoney-amount v hv) (ground arith),
          record_entry-zero dec laws debit v w.balance w.id t at hv z,
        )
        refl
  apply-zero credit w v t at hb hv e z =
      rw (eq_true _ _ e, record_entry-zero dec laws credit v w.balance w.id t at hv z) refl

  -- A movement in another currency throws `CurrencyMismatchError`.
  pub apply-currency :
      (d : LedgerDirection) (w : Wallet) (v : Money) (t : String) (at : ℕ)
      → v.currency ≢ w.currency
      → apply dec d w v t at ≡ err (domain (currency_mismatch w.currency v.currency))
  unfolding apply
  apply-currency d w v t at ne = ground (arith, eq_iff v.currency w.currency)

  -- With a balance below the precision of decimal.js and a currency of three capital letters, a
  -- wallet opens with its balance at version 1, and with one credit from zero to that balance,
  -- or with no entry at all if the balance is zero.
  pub open_wallet_lem :
      (id player currency : String) (balance : Money) (at : ℕ)
      → IsMoney balance
      → currency_pattern (codes currency) ≡ true
      → cents balance.amount < precision
      → let wallet : Wallet = record {
        id = id;
        player_id = player;
        currency = currency;
        balance = balance;
        version = 1;
        created_at = at;
        updated_at = at;
      } in
        let opening : LedgerEntry = record {
          direction = credit;
          value = balance;
          balance_before = of_cents 0 currency;
          balance_after = of_cents (cents balance.amount) currency;
          wallet_id = id;
          transaction_id = id;
          created_at = at;
        } in
        open_wallet dec id player currency balance at
        ≡ ok (record {
          wallet = wallet;
          opening = if nat_eq (cents balance.amount) 0 then none else some opening;
        })
  unfolding open_wallet
  open_wallet_lem id player currency balance at hb hc small =
      elim (Bool-cases (nat_eq (cents balance.amount) 0)) [
        | inl z ↦ rw (is_zero_lem dec laws balance hb) (rw z)
        | inr pos ↦ rw (is_zero_lem dec laws balance hb) (
            rw (pos, create-zero dec laws currency hc)
              (rw
                (record_entry-ok dec laws credit balance (of_cents 0 currency) id id at hb
                  (of_cents-IsMoney 0 currency hc) (ground arith) refl
                  (rw cents-show_cents (omega arith)))
                (rw cents-show_cents (rw zero-add))))
      ]
