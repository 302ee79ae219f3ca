-- ===== src/Wagering/Books/Processing.antt =====
-- The movements of src/wagering/process-wager.ts, for any rule on what follows them.
use jungle_backend_challenge.Prelude.{
  ℕ, ◌+◌, ◌<◌, ◌≡◌, refl, false, String, none, some, find, arith, Bool-cases, inl, inr, ap,
  if◌then◌else◌, subst,
}
use jungle_backend_challenge.Prelude.Results.{ok, err}
use jungle_backend_challenge.Domain.Errors.{Outcome, Thrown}
use jungle_backend_challenge.Domain.Amount.{cents}
use jungle_backend_challenge.Domain.Decimal.{IsDecimal, precision}
use jungle_backend_challenge.Domain.Money
use jungle_backend_challenge.Domain.Money.{MoneyProps, Money, to_json}
use jungle_backend_challenge.Domain.Money.Laws.{
  IsMoney, create-ok, create-patterns, create-cents, IsAmount-of_scale,
}
use jungle_backend_challenge.Domain.LedgerEntry.{LedgerDirection}
use jungle_backend_challenge.Domain.Wallet.{Wallet, Applied, apply}
use jungle_backend_challenge.Domain.Wallet.Laws.{applied}
use jungle_backend_challenge.Database.Rows.{Db, WalletRow, WagerRow, numeric_limit}
use jungle_backend_challenge.Database.Tx.{Env, World, Tx, ◌>>=◌, ◌>>◌, throw, lift, attempt}
use jungle_backend_challenge.Database.Tables.{has_key}
use jungle_backend_challenge.Wagering.Types.{SubmitInput, SubmitResult}
use jungle_backend_challenge.Wagering.Failures.{is_insufficient_funds}
use jungle_backend_challenge.Wagering.Repository.{wallet_key}
use jungle_backend_challenge.Wagering.Effects.{
  store_movement, finish_balance_change, finish_reversal, reject_reversal, reject_balance_change,
}
use jungle_backend_challenge.Wagering.References.{wallet_of_row, bet_direction, reversal_direction}
use jungle_backend_challenge.Wagering.ProcessWager.{move_balance, move_reversal}
use jungle_backend_challenge.Wagering.Keeps.{
  After, After-bind, After-bind_ok, After-lift_bind, After-clock_bind,
}
use jungle_backend_challenge.Wagering.Books.{IsBalanced, IsSound}
use jungle_backend_challenge.Wagering.Books.Store.{apply-Moves, store_movement-After, IsMovement}

-- A `try` around a domain call and the writes that follow it, with the `catch` of a movement.
pub After-attempt :
    {A : Type 0} (Q : A → Db → Type 0) (r : Outcome Applied) (body : Applied → Tx A)
    (recover : Tx A) (w : World)
    → ((a : Applied) → r ≡ ok a → After Q (body a w))
    → After Q (recover w)
    → After Q
        (attempt (lift r >>= body) (λ e. if is_insufficient_funds e then recover else throw e) w)
unfolding ◌>>=◌ attempt
After-attempt {A} Q (ok a) body recover w k h = go (body a w) (k a refl)
  where
    go :
        (r : Outcome A × World)
        → After {A = A} Q r
        → After {A = A} Q (
            let (x, w') = r in
            elim x [
              | ok b ↦ (ok b, w')
              | err e ↦ (if is_insufficient_funds e then recover else throw e) w'
            ])
    go (ok b, w') h = h
    go (err e, w') h = rw h h
After-attempt Q (err e) body recover w k h = elim (Bool-cases (is_insufficient_funds e)) [
  | inl short ↦ rw short h
  | inr other ↦ rw other other
]

module _ {D : Type 0} (env : Env D) (laws : IsDecimal env.dec) where
  -- The wallet of a balanced row has the row's balance.
  pub wallet_of_row_lem :
      {ledger : _} (row : WalletRow) (w : World)
      → IsBalanced ledger row
      → wallet_of_row env row w ≡ (
        ok (record {
          id = row.id;
          player_id = row.player_id;
          currency = row.currency;
          balance = record { amount = row.balance_amount; currency = row.balance_currency };
          version = row.version;
          created_at = w.now;
          updated_at = w.now;
        }),
        w,
      )
  unfolding wallet_of_row ◌>>=◌
  wallet_of_row_lem row w h =
      rw
        (create-ok env.dec laws row.balance_amount row.balance_currency
          (IsAmount-of_scale row.balance_amount h.scale) h.code)
        (rw (← h.scale))

  create-throws :
      (p : MoneyProps) (e : Thrown)
      → Money.create env.dec p ≡ err e
      → is_insufficient_funds e ≡ false
  unfolding is_insufficient_funds
  create-throws p e h = ground (arith, create-patterns env.dec laws p)

  -- The `try` of a movement on a wallet that is in the table.
  attempt-After :
      (Q : SubmitResult → Db → Type 0) (d : LedgerDirection) (wallet : Wallet) (v : Money)
      (tx_id : String) (at : ℕ) (row : WalletRow) (finish : Applied → Tx SubmitResult)
      (recover : Tx SubmitResult) (w : World)
      → IsSound w.db
      → find (has_key wallet_key row.id) w.db.wallets ≡ some row
      → wallet.balance ≡ record { amount = row.balance_amount; currency = row.balance_currency }
      → IsMoney v
      → cents v.amount < numeric_limit
      → ((a : Applied) (w' : World)
          → IsSound w'.db
          → IsMovement d row (cents v.amount) tx_id w.db w'.db
          → w'.db.wagers ≡ w.db.wagers
          → After Q (finish a w'))
      → After Q (recover w)
      → After Q (
          attempt
            (do
              applied ← lift (apply env.dec d wallet v tx_id at)
              store_movement env d (to_json v) applied row.id tx_id
              finish applied)
            (λ e. if is_insufficient_funds e then recover else throw e)
            w)
  attempt-After Q d wallet v tx_id at row finish recover w h found same money small kf kr =
      let b = h.balanced row.id row found in
      let row_money : IsMoney wallet.balance =
        rw same (record { scale = b.scale; code = b.code }) in
      let amounts : wallet.balance.amount ≡ row.balance_amount =
        ap (λ (m : Money). m.amount) same in
      After-attempt Q (apply env.dec d wallet v tx_id at) _ recover w
        (λ a returned.
          let moves =
            apply-Moves env.dec laws d wallet v tx_id at a row_money money
              (rw amounts
                (below_precision (cents row.balance_amount) (cents v.amount) b.limit small))
              returned in
          After-bind
            (λ _ db.
              IsSound db
              × IsMovement d row (cents v.amount) tx_id w.db db
              × (db.wagers ≡ w.db.wagers))
            Q (store_movement env d (to_json v) a row.id tx_id) _ w
            (rw moves.result
              (store_movement-After env d wallet v tx_id at row w h found amounts moves.covers))
            (λ _ w' (h', movement, wagers). kf a w' h' movement wagers))
        kr
    where
      below_precision : (a b : ℕ) → a < numeric_limit → b < numeric_limit → a + b < precision
      below_precision a b h k = omega arith

  module _ (Q : SubmitResult → Db → Type 0) (input : SubmitInput) (tx_id : String) (row : WalletRow)
      (w : World) (h : IsSound w.db)
      (found : find (has_key wallet_key row.id) w.db.wallets ≡ some row)
      (small : cents input.money.amount < numeric_limit) where
    -- BET and WIN: the movement of a wallet that is in the table.
    pub move_balance-After :
        ((a : Applied) (w' : World)
          → IsSound w'.db
          → IsMovement (bet_direction input.kind) row (cents input.money.amount) tx_id w.db w'.db
          → w'.db.wagers ≡ w.db.wagers
          → After Q (finish_balance_change env input tx_id (bet_direction input.kind) a row.id w'))
        → After Q (reject_balance_change env input tx_id row.id "INSUFFICIENT_FUNDS" w)
        → After Q (move_balance env input tx_id row w)
    unfolding move_balance
    move_balance-After finish recover =
        After-bind_ok _ (wallet_of_row env row) _ w
          (wallet_of_row_lem row w (h.balanced row.id row found))
          (After-lift_bind _ (Money.create env.dec input.money) _ w
            (λ v created.
              let (money, worth, _) = create-cents env.dec laws input.money v created in
              After-clock_bind _ _ w (
                attempt-After Q (bet_direction input.kind) _ v tx_id w.now row _ _ w h found refl
                  money (rw worth small)
                  (λ a w' h' m wagers.
                    finish a w' h'
                      (subst (λ n. IsMovement (bet_direction input.kind) row n tx_id w.db w'.db)
                        worth m)
                      wagers)
                  recover))
            (create-throws input.money))

    -- REFUND and ROLLBACK.
    pub move_reversal-After :
        (reference : WagerRow)
        → ((a : Applied) (w' : World)
            → IsSound w'.db
            → IsMovement
                (reversal_direction input.kind reference.type)
                row
                (cents input.money.amount)
                tx_id
                w.db
                w'.db
            → w'.db.wagers ≡ w.db.wagers
            → After Q (
                finish_reversal env input tx_id
                  (reversal_direction input.kind reference.type)
                  a
                  row.id
                  reference.id
                  w'))
        → After Q (reject_reversal env input tx_id row.id "REVERSAL_WOULD_OVERDRAW" none none w)
        → After Q (move_reversal env input tx_id row reference w)
    unfolding move_reversal
    move_reversal-After reference finish recover =
        let d : LedgerDirection = reversal_direction input.kind reference.type in
        After-lift_bind _ (Money.create env.dec input.money) _ w
          (λ v created.
            let (money, worth, _) = create-cents env.dec laws input.money v created in
            After-bind_ok _ (wallet_of_row env row) _ w
              (wallet_of_row_lem row w (h.balanced row.id row found))
              (After-clock_bind _ _ w (
                attempt-After Q d _ v tx_id w.now row _ _ w h found refl money (rw worth small)
                  (λ a w' h' m wagers.
                    finish a w' h' (subst (λ n. IsMovement d row n tx_id w.db w'.db) worth m)
                      wagers)
                  recover)))
          (create-throws input.money)
