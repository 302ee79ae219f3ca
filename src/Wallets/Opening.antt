-- ===== src/Wallets/Opening.antt =====
-- The books and `createAtomic` of src/infrastructure/database/wallet.repository.ts.
use jungle_backend_challenge.Wagering.Failures.{is_insufficient_funds}
use jungle_backend_challenge.Wagering.Atomic.{IsReadOnly, transactional-After}
use jungle_backend_challenge.Wagering.Keeps.{
  After, Keeps, After-clock_bind, After-bind, After-writes, Keeps-draw, OkThen, OkThen-refuse_if,
  Keeps-writes,
}
use jungle_backend_challenge.Prelude.{
  ℕ, ◌+◌, ◌<◌, ◌≡◌, refl, sym, ap, subst, false, String, ◌==◌, ◌∷◌, some, find, any, arith,
  Bool-cases, inl, inr, lt_of_not_leb, eq_iff, Option,
}
use jungle_backend_challenge.Prelude.Results.{ok, err}
use jungle_backend_challenge.Domain.Errors.{Outcome, Thrown}
use jungle_backend_challenge.Domain.Amount.{cents}
use jungle_backend_challenge.Domain.Decimal.{IsDecimal}
use jungle_backend_challenge.Domain.Money
use jungle_backend_challenge.Domain.Money.{Money, to_json}
use jungle_backend_challenge.Domain.Money.Laws.{IsMoney, create-IsMoney}
use jungle_backend_challenge.Database.Rows.{
  Db, WalletRow, LedgerRow, numeric_limit, OutboxRow, WagerRow,
}
use jungle_backend_challenge.Database.Tx.{
  Env, World, throw, ◌>>=◌, pure, Tx, lift, attempt, transactional, writes,
}
use jungle_backend_challenge.Database.Tables.{has_key, IsKeyed}
use jungle_backend_challenge.Wagering.Repository.{wallet_key, insert_row}
use jungle_backend_challenge.Wagering.Repository.Movements.{ledger_row, insert_outbox_row}
use jungle_backend_challenge.Wagering.Books.Commands.{IsSound-IsFramed}
use jungle_backend_challenge.Wagering.Books.{IsBalanced, IsSound, AllHold}
use jungle_backend_challenge.Wagering.Books.Movement.{OkThen-insert_ledger_row}
use jungle_backend_challenge.Wallets.Creation.{
  CreateInput, opening_entry, new_wallet, insert_wallet, record_opening, run_create,
  handle_create_failure, create_wallet, OpeningResult,
}
use jungle_backend_challenge.Wallets.Balances.{is_named, empty-IsSound, opened-IsSound}

-- The books say nothing of the other tables.
IsSound-same : (a b : Db) → a.wallets ≡ b.wallets → a.ledger ≡ b.ledger → IsSound a → IsSound b
IsSound-same a b ew el h = record {
  keyed = subst (IsKeyed wallet_key) ew h.keyed;
  balanced = λ id w f.
      subst (λ l. IsBalanced l w) el
        (h.balanced id w (subst (λ ws. find (has_key wallet_key id) ws ≡ some w) (sym ew) f));
  entries_hold = subst AllHold el h.entries_hold;
}

-- The new wallet is written, and nothing yet in the ledger.
record IsReady (wallet : WalletRow) (db0 db : Db) : Type 0 where
  small : cents wallet.balance_amount < numeric_limit
  fresh : any (has_key wallet_key wallet.id) db0.wallets ≡ false
  wallets : db.wallets ≡ wallet ∷ db0.wallets
  ledger : db.ledger ≡ db0.ledger

-- A result that is mapped leaves the tables as they are.
mapped :
    {A B : Type 0} (P : Db → Type 0) (m : Tx A) (g : A → B) (w : World)
    → P (m w).1.db
    → P ((m >>= λ a. pure (g a)) w).1.db
unfolding ◌>>=◌
mapped {A} {B} P m g w h = go (m w) h
  where
    go : (r : Outcome A × World) → P r.1.db → P (((λ _. r) >>= λ a. pure (g a)) w).1.db
    go (ok a, w') h' = h'
    go (err e, w') h' = h'

module _ {D : Type 0} (env : Env D) where
  insert_wallet-OkThen :
      (wallet : WalletRow) (db : Db) → OkThen (IsReady wallet db) (insert_wallet wallet db)
  unfolding insert_wallet is_insufficient_funds
  insert_wallet-OkThen wallet db = OkThen-refuse_if _ _ _ _ refl λ small.
      OkThen-refuse_if _ _ _ _ refl λ _. OkThen-refuse_if _ _ _ _ refl λ fresh.
        OkThen-refuse_if _ _ _ _ refl λ _. record {
          small = lt_of_not_leb _ _ small;
          fresh = fresh;
          wallets = refl;
          ledger = refl;
        }

  insert_row-Keeps :
      (wallet : WalletRow) (db0 : Db) (row : WagerRow)
      → Keeps (IsReady wallet db0) (writes (insert_row row))
  unfolding insert_row is_insufficient_funds
  insert_row-Keeps wallet db0 row = Keeps-writes _ λ db h. OkThen-refuse_if _ _ _ _ refl λ _.
      OkThen-refuse_if _ _ _ _ refl λ _. OkThen-refuse_if _ _ _ _ refl λ _.
        OkThen-refuse_if _ _ _ _ refl λ _. OkThen-refuse_if _ _ _ _ refl λ _.
          OkThen-refuse_if _ _ _ _ refl
            λ _. record { small = h.small; fresh = h.fresh; wallets = h.wallets; ledger = h.ledger }

  insert_outbox_row-Keeps : (row : OutboxRow) → Keeps IsSound (writes (insert_outbox_row row))
  unfolding insert_outbox_row is_insufficient_funds
  insert_outbox_row-Keeps row = Keeps-writes _ λ db h.
      OkThen-refuse_if _ _ _ _ refl
        λ _. OkThen-refuse_if _ _ _ _ refl λ _. IsSound-IsFramed.outbox db _ h

  record_opening-IsSound :
      (id player : String) (balance : Money) (correlation : Option String) (tx_id : String)
      (now : ℕ) (w0 w : World)
      → IsSound w0.db
      → IsMoney balance
      → is_named id w0.db.ledger ≡ false
      → IsReady (new_wallet id player balance now) w0.db w.db
      → After
          (λ _. IsSound)
          (record_opening env (new_wallet id player balance now) balance correlation tx_id w)
  unfolding record_opening ledger_row to_json pure
  record_opening-IsSound id player balance correlation tx_id now w0 w h money unnamed ready =
      let wallet = new_wallet id player balance now in
      After-bind (λ _. IsReady wallet w0.db) _ _ _ w ((Keeps-draw env).at w ready)
        λ entry_id w1 r1. After-clock_bind _ _ w1 (
          let e : LedgerRow =
            ledger_row (opening_entry (new_wallet id player balance now) balance tx_id) entry_id
              w1.now in
          After-bind (λ _. IsSound) _ _ _ w1
            (After-writes _ _ w1 (
              OkThen-insert_ledger_row IsSound e w1.db λ holds.
                IsSound-same _ _ (sym r1.wallets) (ap (λ l. e ∷ l) (sym r1.ledger)) (
                  opened-IsSound w0.db id player balance now h money r1.small r1.fresh unnamed e
                    refl refl refl holds)))
            (λ _ w2 h2.
              After-bind (λ _. IsSound) _ _ _ w2 ((Keeps-draw env).at w2 h2)
                λ _ w3 h3.
                  After-bind (λ _. IsSound) _ _ _ w3 ((Keeps-draw env).at w3 h3)
                    λ _ w4 h4.
                      After-bind (λ _. IsSound) _ _ _ w4 ((insert_outbox_row-Keeps _).at w4 h4)
                        λ _ _ h5. h5))

module _ {D : Type 0} (env : Env D) (laws : IsDecimal env.dec) where
  run_create-IsSound :
      (id player : String) (balance : Money) (correlation : Option String) (w : World)
      → IsSound w.db
      → IsMoney balance
      → is_named id w.db.ledger ≡ false
      → After (λ _. IsSound) (run_create env id player balance correlation w)
  unfolding run_create pure
  run_create-IsSound id player balance correlation w h money unnamed =
      let wallet = new_wallet id player balance w.now in
      After-clock_bind _ _ w (
        After-bind (λ _. IsReady wallet w.db) _ _ _ w
          (After-writes _ _ w (insert_wallet-OkThen env wallet w.db))
          λ _ w1 r1. elim (Bool-cases (balance.amount == "0.00")) [
            | inl e ↦ rw e (
                IsSound-same _ _ (sym r1.wallets) (sym r1.ledger) (
                  empty-IsSound w.db id player balance w.now h money r1.small r1.fresh unnamed
                    ((eq_iff balance.amount "0.00").0 e)))
            | inr e ↦ rw e (
                After-bind (λ _. IsReady wallet w.db) _ _ _ w1 ((Keeps-draw env).at w1 r1)
                  λ tx_id w2 r2.
                    After-bind (λ _. IsReady wallet w.db) _ _ _ w2
                      ((insert_row-Keeps env wallet w.db _).at w2 r2)
                      λ _ w3 r3.
                        record_opening-IsSound env id player balance correlation tx_id w.now w w3 h
                          money unnamed r3)
          ])

  handle_create_failure-IsReadOnly :
      (input : CreateInput) (e : Thrown) → IsReadOnly (handle_create_failure env input e)
  unfolding handle_create_failure throw
  handle_create_failure-IsReadOnly input e = record { same = λ w. ground arith }

  -- The creation of a wallet, under an identifier that no ledger entry names, keeps sound books
  -- sound, whatever it answers or throws.
  pub create_wallet-IsSound :
      (input : CreateInput) (w : World)
      → IsSound w.db
      → is_named (env.uuid w.drawn) w.db.ledger ≡ false
      → IsSound (create_wallet env input w).1.db
  unfolding create_wallet ◌>>=◌
  create_wallet-IsSound input w h unnamed =
      go (Money.create env.dec input.initial_balance)
        (create-IsMoney env.dec laws input.initial_balance)
    where
      started : World
      started = record w { drawn = w.drawn + 1 }

      tried : Money → Tx OpeningResult
      tried balance =
          attempt
            (transactional
              (run_create env (env.uuid w.drawn) input.player_id balance input.correlation_id))
            (handle_create_failure env input)

      go :
          (r : Outcome Money)
          → ((m : Money) → r ≡ ok m → IsMoney m)
          → IsSound
              ((lift r >>= λ balance. (tried balance >>= λ result. pure result.wallet))
                started).1.db
      go (ok balance) money =
          mapped IsSound (tried balance) (λ result. result.wallet) started
            (transactional-After
              (run_create env (env.uuid w.drawn) input.player_id balance input.correlation_id)
              (handle_create_failure env input) (handle_create_failure-IsReadOnly input) IsSound
              started h
              (run_create-IsSound (env.uuid w.drawn) input.player_id balance input.correlation_id
                started h (money balance refl) unnamed))
      go (err t) money = h
