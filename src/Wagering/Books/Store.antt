-- ===== src/Wagering/Books/Store.antt =====
-- `applyWalletMutation` and `insertLedgerEntry` of src/wagering/wager.repository.ts together, for what
-- `Wallet.debit` or `Wallet.credit` returned.
use jungle_backend_challenge.Prelude.{
  ℕ, ◌+◌, ◌<◌, ◌≡◌, refl, true, false, String, ◌==◌, eq_iff, some, find, update_where, arith,
  Bool-cases, inl, inr, nat_eq, subst, sym, ap, ◌∷◌,
}
use jungle_backend_challenge.Prelude.Results.{ok}
use jungle_backend_challenge.Domain.Amount.{cents}
use jungle_backend_challenge.Domain.Amount.Print.{show_cents}
use jungle_backend_challenge.Domain.Decimal.{DecimalOps, IsDecimal, precision}
use jungle_backend_challenge.Domain.Money.{Money, to_json}
use jungle_backend_challenge.Domain.Money.Laws.{IsMoney}
use jungle_backend_challenge.Domain.LedgerEntry.{LedgerDirection, debit, credit}
use jungle_backend_challenge.Domain.LedgerEntry.Laws.{moved, covered}
use jungle_backend_challenge.Domain.Wallet.{Wallet, Applied, apply}
use jungle_backend_challenge.Domain.Wallet.Laws.{
  applied, apply-ok, apply-short, apply-zero, apply-currency,
}
use jungle_backend_challenge.Database.Rows.{Db, WalletRow, LedgerRow, numeric_limit}
use jungle_backend_challenge.Database.Tx.{Env, World, ◌>>=◌, clock, writes}
use jungle_backend_challenge.Database.Tables.{has_key}
use jungle_backend_challenge.Wagering.Repository.{wallet_key}
use jungle_backend_challenge.Wagering.Repository.Movements.{
  ledger_row, insert_ledger_row, insert_ledger_entry, set_balance, apply_wallet_mutation,
}
use jungle_backend_challenge.Wagering.Effects.{store_movement}
use jungle_backend_challenge.Wagering.Keeps.{After, After-bind, After-writes}
use jungle_backend_challenge.Wagering.Books.{IsSound}
use jungle_backend_challenge.Wagering.Books.Movement.{
  set_row, OkThen-insert_ledger_row, OkThen-set_balance, movement-IsSound,
}

-- What a movement that returned is: covered, of a positive value, in the wallet's currency, and with
-- exactly the balance and the entry of `applied`.
pub record Moves (d : LedgerDirection) (w : Wallet) (v : Money) (t : String) (at : ℕ) (a : Applied)
    : Type 0 where
  pub currency : v.currency ≡ w.currency
  pub positive : 0 < cents v.amount
  pub covers : covered d (cents w.balance.amount) (cents v.amount) ≡ true
  pub result : a ≡ applied d w v t at

module _ {D : Type 0} (dec : DecimalOps D) (laws : IsDecimal dec) where
  -- A movement that returns, with a sum below the precision of decimal.js, was in the wallet's
  -- currency, of a positive value that the balance covered, and its result is the exact one.
  pub apply-Moves :
      (d : LedgerDirection) (w : Wallet) (v : Money) (t : String) (at : ℕ) (a : Applied)
      → IsMoney w.balance
      → IsMoney v
      → cents w.balance.amount + cents v.amount < precision
      → apply dec d w v t at ≡ ok a
      → Moves d w v t at a
  apply-Moves d w v t at a hb hv p e = elim (Bool-cases (v.currency == w.currency)) [
    | inr other ↦ absurd (
        ground (
          arith,
          apply-currency dec laws d w v t at (ground (arith, eq_iff v.currency w.currency)),
        ))
    | inl same ↦
        let cur : v.currency ≡ w.currency = (eq_iff v.currency w.currency).0 same in
        elim (Bool-cases (nat_eq (cents v.amount) 0)) [
          | inl zero_value ↦
              absurd (ground (arith, apply-zero dec laws d w v t at hb hv cur (ground arith)))
          | inr positive ↦ elim (Bool-cases (covered d (cents w.balance.amount) (cents v.amount))) [
            | inl cov ↦ record {
              currency = cur;
              positive = ground arith;
              covers = cov;
              result = ground (arith, apply-ok dec laws d w v t at hb hv cur (ground arith) cov p);
            }
            | inr short ↦ absurd (not_covered d w v t at hb hv cur short e)
          ]
        ]
  ]
    where
      not_covered :
          (d : LedgerDirection) (w : Wallet) (v : Money) (t : String) (at : ℕ)
          → IsMoney w.balance
          → IsMoney v
          → v.currency ≡ w.currency
          → covered d (cents w.balance.amount) (cents v.amount) ≡ false
          → apply dec d w v t at ≡ ok a
          → ⊥
      not_covered debit w v t at hb hv cur short e =
          ground (arith, apply-short dec laws w v t at hb hv cur (ground arith))
      not_covered credit w v t at hb hv cur short e = ground arith

-- The tables after the new balance is written.
abbrev middle : Db → String → String → ℕ → Db
middle db id amount now = record db {
  wallets = update_where (has_key wallet_key id) (set_row amount now) db.wallets;
}

-- The entry that `insertLedgerEntry` writes for a movement.
abbrev movement_row : Applied → String → String → String → ℕ → LedgerRow
movement_row a wallet_id tx_id id now = record {
  id = id;
  direction = a.entry.direction;
  value_amount = a.entry.value.amount;
  value_currency = a.entry.value.currency;
  balance_before_amount = a.entry.balance_before.amount;
  balance_before_currency = a.entry.balance_before.currency;
  balance_after_amount = a.entry.balance_after.amount;
  balance_after_currency = a.entry.balance_after.currency;
  wallet_id = wallet_id;
  transaction_id = tx_id;
  created_at = now;
}

-- One movement of a wallet: its row has the new balance and the next version, and the ledger has
-- one entry more, of the transaction.
pub record IsMovement (d : LedgerDirection) (row : WalletRow) (value : ℕ) (tx_id : String)
    (db db' : Db) : Type 0 where
  pub now : ℕ
  pub entry : LedgerRow
  pub covers : covered d (cents row.balance_amount) value ≡ true
  pub wallets :
      db'.wallets
      ≡ update_where
          (has_key wallet_key row.id)
          (set_row (show_cents (moved d (cents row.balance_amount) value)) now)
          db.wallets
  pub ledger : db'.ledger ≡ entry ∷ db.ledger
  pub wallet_id : entry.wallet_id ≡ row.id
  pub transaction_id : entry.transaction_id ≡ tx_id
  pub direction : entry.direction ≡ d
  pub worth : cents entry.value_amount ≡ value

module _ {D : Type 0} (env : Env D) where
  pub store_movement-After :
      (d : LedgerDirection) (wallet : Wallet) (v : Money) (tx_id : String) (at : ℕ)
      (row : WalletRow) (w : World)
      → IsSound w.db
      → find (has_key wallet_key row.id) w.db.wallets ≡ some row
      → wallet.balance.amount ≡ row.balance_amount
      → covered d (cents wallet.balance.amount) (cents v.amount) ≡ true
      → After
          (λ _ db.
            IsSound db
            × IsMovement d row (cents v.amount) tx_id w.db db
            × (db.wagers ≡ w.db.wagers))
          (store_movement env d (to_json v) (applied d wallet v tx_id at) row.id tx_id w)
  unfolding store_movement apply_wallet_mutation insert_ledger_entry ledger_row to_json ◌>>=◌ writes
  store_movement-After d wallet v tx_id at row w h found same cov =
      let after : ℕ = moved d (cents wallet.balance.amount) (cents v.amount) in
      let P : Db → Type 0 = λ db.
        IsSound db × IsMovement d row (cents v.amount) tx_id w.db db × (db.wagers ≡ w.db.wagers) in
      After-bind
        (λ _ db.
          (cents (show_cents after) < numeric_limit)
          × (db ≡ middle w.db row.id (show_cents after) w.now))
        (λ _. P) (do now ← clock; writes (set_balance row.id (show_cents after) now)) _ w
        (After-writes _ (set_balance row.id (show_cents after) w.now) w
          (OkThen-set_balance _ row.id (show_cents after) w.now w.db (λ small. (small, refl))))
        λ _ w' mid.
          let e : LedgerRow =
            movement_row (applied d wallet v tx_id at) row.id tx_id (env.uuid w'.drawn) w'.now in
          let worth = ap (λ s. moved d (cents s) (cents v.amount)) same in
          After-writes P (insert_ledger_row e) (record w' { drawn = w'.drawn + 1 })
            (OkThen-insert_ledger_row P e w'.db λ holds.
              subst (λ db. P (record db { ledger = e ∷ db.ledger })) (sym mid.1)
                (
                  movement-IsSound w.db d row e after w.now h found refl refl (rw same at cov) worth
                      mid.0 holds,
                  record {
                    now = w.now;
                    entry = e;
                    covers = rw same at cov;
                    wallets =
                        ap
                          (λ n.
                            update_where (has_key wallet_key row.id) (set_row (show_cents n) w.now)
                              w.db.wallets)
                          worth;
                    ledger = refl;
                    wallet_id = refl;
                    transaction_id = refl;
                    direction = refl;
                    worth = refl;
                  },
                  refl,
                ))
