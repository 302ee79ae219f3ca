-- ===== src/Wagering/Books/Movement.antt =====
-- The books and one movement: the new balance of a wallet, and the new entry.
use jungle_backend_challenge.Prelude.{
  ℕ, ◌+◌, ◌<◌, ◌≡◌, ◌≢◌, refl, true, String, eq_iff, List, ◌∷◌, some, ◌⊎◌, find, update_where,
  if◌then◌else◌, arith, inl, inr, sym, ◌∙◌, eq_of_some, true_of_not, lt_of_not_leb,
}
use jungle_backend_challenge.Domain.Amount.{cents}
use jungle_backend_challenge.Domain.Amount.Print.{show_cents, cents-show_cents}
use jungle_backend_challenge.Domain.LedgerEntry.{LedgerDirection, debit, credit}
use jungle_backend_challenge.Domain.LedgerEntry.Laws.{moved, covered}
use jungle_backend_challenge.Database.Rows.{Db, WalletRow, LedgerRow, numeric_limit}
use jungle_backend_challenge.Database.Tables.{
  has_key, find-key, found-update_where, update_where-IsKeyed,
}
use jungle_backend_challenge.Wagering.Failures.{is_insufficient_funds}
use jungle_backend_challenge.Wagering.Repository.{wallet_key}
use jungle_backend_challenge.Wagering.Repository.Movements.{
  arithmetic_holds, insert_ledger_row, set_balance,
}
use jungle_backend_challenge.Wagering.Keeps.{OkThen, OkThen-refuse_if}
use jungle_backend_challenge.Wagering.Books.{IsBalanced, IsSound, total, same_direction}

-- An entry that the constraints let in.
pub OkThen-insert_ledger_row :
    (P : Db → Type 0) (row : LedgerRow) (db : Db)
    → (arithmetic_holds row.direction
            (cents row.value_amount)
            (cents row.balance_before_amount)
            (cents row.balance_after_amount)
          ≡ true
        → P (record db { ledger = row ∷ db.ledger }))
    → OkThen P (insert_ledger_row row db)
unfolding insert_ledger_row is_insufficient_funds
OkThen-insert_ledger_row P row db k = OkThen-refuse_if P _ _ _ refl λ _.
    OkThen-refuse_if P _ _ _ refl λ holds. OkThen-refuse_if P _ _ _ refl λ _.
      OkThen-refuse_if P _ _ _ refl λ _. OkThen-refuse_if P _ _ _ refl λ _.
        OkThen-refuse_if P _ _ _ refl λ _.
          OkThen-refuse_if P _ _ _ refl
            λ _. OkThen-refuse_if P _ _ _ refl λ _. k (true_of_not _ holds)

-- The row of the wallet after the movement.
abbrev pub set_row : String → ℕ → WalletRow → WalletRow
set_row amount now r = record r {
  balance_amount = amount;
  version = r.version + 1;
  updated_at = now;
}

pub OkThen-set_balance :
    (P : Db → Type 0) (id amount : String) (now : ℕ) (db : Db)
    → (cents amount < numeric_limit
        → P (record db {
          wallets = update_where (has_key wallet_key id) (set_row amount now) db.wallets;
        }))
    → OkThen P (set_balance id amount now db)
unfolding set_balance is_insufficient_funds
OkThen-set_balance P id amount now db k =
    OkThen-refuse_if P _ _ _ refl λ small. k (lt_of_not_leb _ _ small)

pub total-other :
    (d : LedgerDirection) (id : String) (e : LedgerRow) (ledger : List LedgerRow)
    → e.wallet_id ≢ id
    → total d id (e ∷ ledger) ≡ total d id ledger
unfolding total
total-other d id e ledger ne = ground (arith, eq_iff e.wallet_id id)

pub total-own :
    (d : LedgerDirection) (id : String) (e : LedgerRow) (ledger : List LedgerRow)
    → e.wallet_id ≡ id
    → total d id (e ∷ ledger)
      ≡ (if same_direction e.direction d then cents e.value_amount else 0) + total d id ledger
unfolding total
total-own d id e ledger own = ground (arith, eq_iff e.wallet_id id)

balance-moved :
    (d : LedgerDirection) (id : String) (b : ℕ) (e : LedgerRow) (ledger : List LedgerRow)
    → b + total debit id ledger ≡ total credit id ledger
    → e.wallet_id ≡ id
    → e.direction ≡ d
    → covered d b (cents e.value_amount) ≡ true
    → moved d b (cents e.value_amount) + total debit id (e ∷ ledger) ≡ total credit id (e ∷ ledger)
balance-moved debit id b e ledger h own dir cov =
    ground (arith, total-own debit id e ledger own, total-own credit id e ledger own)
balance-moved credit id b e ledger h own dir cov =
    ground (arith, total-own debit id e ledger own, total-own credit id e ledger own)

-- The wallet that moved is balanced against the ledger with its entry.
moved-IsBalanced :
    (d : LedgerDirection) (row : WalletRow) (e : LedgerRow) (ledger : List LedgerRow) (after : ℕ)
    (now : ℕ)
    → IsBalanced ledger row
    → e.wallet_id ≡ row.id
    → e.direction ≡ d
    → covered d (cents row.balance_amount) (cents e.value_amount) ≡ true
    → after ≡ moved d (cents row.balance_amount) (cents e.value_amount)
    → cents (show_cents after) < numeric_limit
    → IsBalanced (e ∷ ledger) (set_row (show_cents after) now row)
moved-IsBalanced d row e ledger after now h own dir cov eq small = record {
  scale = rw cents-show_cents;
  code = h.code;
  currency = h.currency;
  limit = small;
  balance =
      rw cents-show_cents
        (rw eq (balance-moved d row.id (cents row.balance_amount) e ledger h.balance own dir cov));
}

-- A wallet that did not move is balanced against the ledger with another's entry.
pub other-IsBalanced :
    (w : WalletRow) (e : LedgerRow) (ledger : List LedgerRow)
    → IsBalanced ledger w
    → e.wallet_id ≢ w.id
    → IsBalanced (e ∷ ledger) w
other-IsBalanced w e ledger h ne = record {
  scale = h.scale;
  code = h.code;
  currency = h.currency;
  limit = h.limit;
  balance = rw (total-other debit w.id e ledger ne, total-other credit w.id e ledger ne) h.balance;
}

-- Both tables after the movement.
pub movement-IsSound :
    (db : Db) (d : LedgerDirection) (row : WalletRow) (e : LedgerRow) (after now : ℕ)
    → IsSound db
    → find (has_key wallet_key row.id) db.wallets ≡ some row
    → e.wallet_id ≡ row.id
    → e.direction ≡ d
    → covered d (cents row.balance_amount) (cents e.value_amount) ≡ true
    → after ≡ moved d (cents row.balance_amount) (cents e.value_amount)
    → cents (show_cents after) < numeric_limit
    → arithmetic_holds e.direction
        (cents e.value_amount)
        (cents e.balance_before_amount)
        (cents e.balance_after_amount)
      ≡ true
    → IsSound (record db {
      wallets =
          update_where (has_key wallet_key row.id) (set_row (show_cents after) now) db.wallets;
      ledger = e ∷ db.ledger;
    })
movement-IsSound db d row e after now h found own dir cov eq small holds = record {
  keyed =
      update_where-IsKeyed wallet_key (set_row (show_cents after) now) (λ r. refl) row.id db.wallets
        h.keyed;
  balanced = λ id w f. balanced_at w (
      found-update_where wallet_key (set_row (show_cents after) now) (λ r. refl) id row.id
        db.wallets w f);
  entries_hold = (holds, h.entries_hold);
}
  where
    balanced_at :
        {id : String} (w : WalletRow)
        → ((r : WalletRow) × (find (has_key wallet_key id) db.wallets ≡ some r)
            × (((id ≡ row.id) × (w ≡ set_row (show_cents after) now r))
                ⊎ ((id ≢ row.id) × (w ≡ r))))
        → IsBalanced (e ∷ db.ledger) w
    balanced_at w (r, f, inl (same, changed)) =
        let same_row : r ≡ row = eq_of_some (sym f ∙ (rw same found)) in
        rw (changed, same_row)
          (moved-IsBalanced d row e db.ledger after now (h.balanced row.id row found) own dir cov eq
            small)
    balanced_at {id} w (r, f, inr (differs, unchanged)) = rw unchanged (
        other-IsBalanced r e db.ledger (h.balanced id r f)
          (λ p. differs (sym (find-key wallet_key id db.wallets r f) ∙ sym p ∙ own)))
