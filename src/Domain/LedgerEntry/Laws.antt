-- ===== src/Domain/LedgerEntry/Laws.antt =====
-- Lemmas on src/domain/ledger-entry.ts: the balance after an entry, in hundredths.
use jungle_backend_challenge.Prelude.{
  ℕ, ◌+◌, ◌-◌, ◌<◌, ◌≡◌, refl, Bool, true, false, String, leb, nat_eq, arith,
}
use jungle_backend_challenge.Prelude.Results.{ok, err}
use jungle_backend_challenge.Domain.Errors.{domain, invalid_ledger_entry}
use jungle_backend_challenge.Domain.Amount.{IsAmount, cents}
use jungle_backend_challenge.Domain.Amount.Print.{show_cents}
use jungle_backend_challenge.Domain.Decimal.{DecimalOps, IsDecimal, precision}
use jungle_backend_challenge.Domain.Money.{Money}
use jungle_backend_challenge.Domain.Money.Laws.{
  IsMoney, IsMoney-amount, of_cents, create-show_cents, is_zero_lem, is_negative_lem,
}
use jungle_backend_challenge.Domain.LedgerEntry.{
  LedgerDirection, debit, credit, LedgerEntry, candidate, record_entry,
}

-- The balance that a movement leaves, in hundredths.
abbrev pub moved : LedgerDirection → ℕ → ℕ → ℕ
moved debit balance value = balance - value
moved credit balance value = balance + value

-- A debit is covered by the balance; a credit always is.
abbrev pub covered : LedgerDirection → ℕ → ℕ → Bool
covered debit balance value = leb value balance
covered credit balance value = true

module _ {D : Type 0} (dec : DecimalOps D) (laws : IsDecimal dec) where
  pub is_negative-candidate :
      (d : LedgerDirection) (b v : String)
      → IsAmount b
      → IsAmount v
      → covered d (cents b) (cents v) ≡ true
      → dec.is_negative (candidate dec d b v) ≡ false
  unfolding candidate
  is_negative-candidate debit b v h k c = ground (arith, laws.is_negative-minus b v h k)
  is_negative-candidate credit b v h k c = laws.is_negative-plus b v h k

  pub is_negative-candidate_short :
      (b v : String)
      → IsAmount b
      → IsAmount v
      → cents b < cents v
      → dec.is_negative (candidate dec debit b v) ≡ true
  unfolding candidate
  is_negative-candidate_short b v h k lt = ground (arith, laws.is_negative-minus b v h k)

  pub to_fixed-candidate :
      (d : LedgerDirection) (b v : String)
      → IsAmount b
      → IsAmount v
      → covered d (cents b) (cents v) ≡ true
      → cents b + cents v < precision
      → dec.to_fixed (candidate dec d b v) ≡ show_cents (moved d (cents b) (cents v))
  unfolding candidate
  to_fixed-candidate debit b v h k c p = laws.to_fixed-minus b v h k (omega arith) (ground arith)
  to_fixed-candidate credit b v h k c p = laws.to_fixed-plus b v h k p

  -- An entry for a positive value that the balance covers.
  abbrev pub entry_of : LedgerDirection → Money → Money → String → String → ℕ → LedgerEntry
  entry_of d value before w t at = record {
    direction = d;
    value = value;
    balance_before = before;
    balance_after = of_cents (moved d (cents before.amount) (cents value.amount)) before.currency;
    wallet_id = w;
    transaction_id = t;
    created_at = at;
  }

  -- A movement of a positive value that the balance covers, with a sum below the precision of
  -- decimal.js, is recorded with the exact new balance.
  pub record_entry-ok :
      (d : LedgerDirection) (value before : Money) (w t : String) (at : ℕ)
      → IsMoney value
      → IsMoney before
      → 0 < cents value.amount
      → covered d (cents before.amount) (cents value.amount) ≡ true
      → cents before.amount + cents value.amount < precision
      → record_entry dec d value before w t at ≡ ok (entry_of d value before w t at)
  unfolding record_entry
  record_entry-ok d value before w t at hv hb pos c p =
      let a = IsMoney-amount before hb in
      let b = IsMoney-amount value hv in
      rw (is_zero_lem dec laws value hv, is_negative_lem dec laws value hv)
        (rw
          (
            positive_not_zero (cents value.amount) pos,
            is_negative-candidate d before.amount value.amount a b c,
            to_fixed-candidate d before.amount value.amount a b c p,
          )
          (rw
            (create-show_cents dec laws (moved d (cents before.amount) (cents value.amount))
              before.currency hb.code)
            refl))
    where
      positive_not_zero : (n : ℕ) → 0 < n → nat_eq n 0 ≡ false
      positive_not_zero n h = ground arith

  -- A value of zero is refused, whatever the balance.
  pub record_entry-zero :
      (d : LedgerDirection) (value before : Money) (w t : String) (at : ℕ)
      → IsMoney value
      → cents value.amount ≡ 0
      → record_entry dec d value before w t at
        ≡ err (domain (invalid_ledger_entry "ledger value must be positive" value.amount))
  unfolding record_entry
  record_entry-zero d value before w t at hv z = rw (is_zero_lem dec laws value hv) (ground arith)
