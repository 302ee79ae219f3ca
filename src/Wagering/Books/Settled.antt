-- ===== src/Wagering/Books/Settled.antt =====
-- What a command has done to the wallet and the ledger, by what it answers.
use jungle_backend_challenge.Wagering.Books.Processing.{move_balance-After, move_reversal-After}
use jungle_backend_challenge.Wagering.Effects.{reject_balance_change, reject_reversal}
use jungle_backend_challenge.Wagering.Books.Movement.{set_row}
use jungle_backend_challenge.Prelude.{
  ℕ, ◌<◌, ◌≡◌, refl, sym, ap, ◌∙◌, subst, true, false, ◌&&◌, String, none, some, List, ◌∷◌, find,
  Has, update_where,
}
use jungle_backend_challenge.Domain.Amount.{cents}
use jungle_backend_challenge.Domain.Decimal.{IsDecimal}
use jungle_backend_challenge.Domain.LedgerEntry.Laws
use jungle_backend_challenge.Domain.LedgerEntry.{LedgerDirection}
use jungle_backend_challenge.Domain.WagerTransaction.{loss, is_reversal}
use jungle_backend_challenge.Database.Rows.{Db, WagerRow, WalletRow, ResultStatus, numeric_limit}
use jungle_backend_challenge.Database.Tx.{Env, World, Tx}
use jungle_backend_challenge.Database.Tables.{has_key}
use jungle_backend_challenge.Wagering.Types.{SubmitInput, SubmitResult}
use jungle_backend_challenge.Wagering.Repository.{wallet_key, reverses, is_open}
use jungle_backend_challenge.Wagering.References.{bet_direction, reversal_direction, valid_scope}
use jungle_backend_challenge.Wagering.Keeps.{After, After-and, Keeps}
use jungle_backend_challenge.Wagering.Dispatch.{Ends}
use jungle_backend_challenge.Wagering.Books.{IsSound, show_cents}
use jungle_backend_challenge.Wagering.Books.Store.{IsMovement}
use jungle_backend_challenge.Wagering.Books.Frame.{
  IsFramed, reject_balance_change-Keeps, reject_reversal-Keeps, finish_loss-Keeps,
  mark_pending_reference-Keeps, finish_balance_change-Keeps, finish_reversal-Keeps,
}
use jungle_backend_challenge.Wagering.Books.Statuses.{
  Answers, reject_balance_change-Answers, reject_reversal-Answers, finish_loss-Answers,
  mark_pending_reference-Answers, finish_balance_change-Answers, finish_reversal-Answers,
}

-- The direction in which a command moves the wallet: that of its kind, or for a reversal that of a
-- stored reference of the same scope which no other open reversal of the kind refers to.
pub data IsDirected (input : SubmitInput) (tx_id : String) (row : WalletRow)
    (wagers : List WagerRow) : LedgerDirection → Type 0 where
  forward :
      is_reversal input.kind ≡ false → IsDirected input tx_id row wagers (bet_direction input.kind)
  backward :
      (reference : WagerRow)
      → is_reversal input.kind ≡ true
      → Has reference wagers
      → valid_scope input row reference ≡ true
      → find (λ r. reverses reference.id input.kind tx_id r && is_open r.status) wagers ≡ none
      → IsDirected input tx_id row wagers (reversal_direction input.kind reference.type)

-- The new wager, under which the references are looked up.
abbrev pub with_wager : WagerRow → Db → List WagerRow
with_wager row db = row ∷ db.wagers

-- An answer that is not a replay: a command that is not a processed movement leaves the wallets and
-- the ledger as they were, and a processed one is one movement of a wallet by its amount.
pub data IsSettled (input : SubmitInput) (tx_id : String) (wager : WagerRow) (db : Db)
    (r : SubmitResult) (db' : Db) : Type 0 where
  unmoved :
      r.idempotent_replay ≡ false
      → db'.wallets ≡ db.wallets
      → db'.ledger ≡ db.ledger
      → (r.response.status ≡ ResultStatus.processed → input.kind ≡ loss)
      → IsSettled input tx_id wager db r db'
  moved :
      (d : LedgerDirection) (row : WalletRow)
      → r.idempotent_replay ≡ false
      → r.response.status ≡ ResultStatus.processed
      → find (has_key wallet_key row.id) db.wallets ≡ some row
      → IsDirected input tx_id row (wager ∷ db.wagers) d
      → IsMovement d row (cents input.money.amount) tx_id db db'
      → IsSettled input tx_id wager db r db'

-- The tables before the movement, but for the new wager.
pub record IsStarted (wager : WagerRow) (db0 db : Db) : Type 0 where
  pub sound : IsSound db
  pub wallets : db.wallets ≡ db0.wallets
  pub ledger : db.ledger ≡ db0.ledger
  pub wagers : db.wagers ≡ wager ∷ db0.wagers

record IsUntouched (db0 db : Db) : Type 0 where
  wallets : db.wallets ≡ db0.wallets
  ledger : db.ledger ≡ db0.ledger

IsUntouched-IsFramed : (db0 : Db) → IsFramed (IsUntouched db0)
IsUntouched-IsFramed db0 = record {
  wagers = λ db rows h. record { wallets = h.wallets; ledger = h.ledger };
  outbox = λ db rows h. record { wallets = h.wallets; ledger = h.ledger };
}

-- A movement between tables with the same wallets and the same ledger.
IsMovement-same :
    (d : LedgerDirection) (row : WalletRow) (value : ℕ) (tx_id : String) (a a' b b' : Db)
    → a.wallets ≡ a'.wallets
    → a.ledger ≡ a'.ledger
    → b.wallets ≡ b'.wallets
    → b.ledger ≡ b'.ledger
    → IsMovement d row value tx_id a b
    → IsMovement d row value tx_id a' b'
IsMovement-same d row value tx_id a a' b b' aw al bw bl m = record {
  now = m.now;
  entry = m.entry;
  covers = m.covers;
  wallets =
      sym bw
      ∙ m.wallets
      ∙ ap
          (update_where (has_key wallet_key row.id)
            (set_row (show_cents (Laws.moved d (cents row.balance_amount) value)) m.now))
          aw;
  ledger = sym bl ∙ m.ledger ∙ ap (λ l. m.entry ∷ l) al;
  wallet_id = m.wallet_id;
  transaction_id = m.transaction_id;
  direction = m.direction;
  worth = m.worth;
}

IsMovement-IsFramed :
    (d : LedgerDirection) (row : WalletRow) (value : ℕ) (tx_id : String) (db0 : Db)
    → IsFramed (IsMovement d row value tx_id db0)
IsMovement-IsFramed d row value tx_id db0 = record {
  wagers = λ db rows m. IsMovement-same d row value tx_id _ _ _ _ refl refl refl refl m;
  outbox = λ db rows m. IsMovement-same d row value tx_id _ _ _ _ refl refl refl refl m;
}

module _ {D : Type 0} (env : Env D) (laws : IsDecimal env.dec) where
  module _ (input : SubmitInput) (tx_id : String) (wager : WagerRow) (db0 : Db) where
    -- An end that writes neither wallets nor ledger, and answers `s`.
    untouched :
        (s : ResultStatus) (m : Tx SubmitResult) (w : World)
        → (s ≡ ResultStatus.processed → input.kind ≡ loss)
        → IsStarted wager db0 w.db
        → Keeps (IsUntouched db0) m
        → After (Answers s) (m w)
        → After (IsSettled input tx_id wager db0) (m w)
    untouched s m w free h keeps answers =
        After-and (m w) (keeps.at w (record { wallets = h.wallets; ledger = h.ledger })) answers
          λ r db same (e, fresh). unmoved fresh same.wallets same.ledger λ p. free (sym e ∙ p)

    -- An end that follows a movement.
    after_movement :
        (d : LedgerDirection) (row : WalletRow) (m : Tx SubmitResult) (w w' : World)
        → IsStarted wager db0 w.db
        → find (has_key wallet_key row.id) w.db.wallets ≡ some row
        → IsDirected input tx_id row w.db.wagers d
        → IsMovement d row (cents input.money.amount) tx_id w.db w'.db
        → Keeps (IsMovement d row (cents input.money.amount) tx_id db0) m
        → After (Answers ResultStatus.processed) (m w')
        → After (IsSettled input tx_id wager db0) (m w')
    after_movement d row m w w' h found directed movement keeps answers =
        After-and (m w')
          (keeps.at w'
            (IsMovement-same d row _ tx_id _ _ _ _ h.wallets h.ledger refl refl movement))
          answers
          λ r db movement' (e, fresh).
            moved d row fresh e
              (subst (λ rows. find (has_key wallet_key row.id) rows ≡ some row) h.wallets found)
              (subst (λ rows. IsDirected input tx_id row rows d) h.wagers directed) movement'

    pub IsSettled-Ends :
        cents input.money.amount < numeric_limit
        → Ends env input tx_id (IsStarted wager db0) (IsSettled input tx_id wager db0)
    IsSettled-Ends small = record {
      keyed = λ db h. h.sound.keyed;
      loss = λ wallet w h k.
          untouched _ _ w (λ _. k) h (finish_loss-Keeps frame env input tx_id wallet)
            (finish_loss-Answers env input tx_id wallet w);
      refused = λ wallet code w h. refused wallet code w h;
      not_reversed = λ wallet code w h. not_reversed wallet code w h;
      waiting = λ wallet w h.
          untouched _ _ w (λ e. cc) h (mark_pending_reference-Keeps frame env input tx_id wallet)
            (mark_pending_reference-Answers env input tx_id wallet w);
      moved = λ row w h k found.
          move_balance-After env laws _ input tx_id row w h.sound found small
            (λ a w' _ movement _.
              after_movement _ row _ w w' h found (forward k) movement
                (finish_balance_change-Keeps (IsMovement-IsFramed _ row _ tx_id db0) env input tx_id
                  _ a row.id)
                (finish_balance_change-Answers env input tx_id _ a row.id w'))
            (refused row.id "INSUFFICIENT_FUNDS" w h);
      reversed = λ row reference w h k has scope free found.
          move_reversal-After env laws _ input tx_id row w h.sound found small reference
            (λ a w' _ movement _.
              after_movement _ row _ w w' h found (backward reference k has scope free) movement
                (finish_reversal-Keeps (IsMovement-IsFramed _ row _ tx_id db0) env input tx_id _ a
                  row.id reference.id)
                (finish_reversal-Answers env input tx_id _ a row.id reference.id w'))
            (not_reversed row.id "REVERSAL_WOULD_OVERDRAW" w h);
    }
      where
        frame : IsFramed (IsUntouched db0)
        frame = IsUntouched-IsFramed db0

        refused :
            (wallet code : String) (w : World)
            → IsStarted wager db0 w.db
            → After
                (IsSettled input tx_id wager db0)
                (reject_balance_change env input tx_id wallet code w)
        refused wallet code w h =
            untouched _ _ w (λ e. cc) h
              (reject_balance_change-Keeps frame env input tx_id wallet code)
              (reject_balance_change-Answers env input tx_id wallet code w)

        not_reversed :
            (wallet code : String) (w : World)
            → IsStarted wager db0 w.db
            → After
                (IsSettled input tx_id wager db0)
                (reject_reversal env input tx_id wallet code none none w)
        not_reversed wallet code w h =
            untouched _ _ w (λ e. cc) h
              (reject_reversal-Keeps frame env input tx_id wallet code none none)
              (reject_reversal-Answers env input tx_id wallet code none none w)
