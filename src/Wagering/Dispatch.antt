-- ===== src/Wagering/Dispatch.antt =====
-- The branches of `execute` in src/wagering/process-wager.ts, walked once for any rule that their
-- ends obey.
use jungle_backend_challenge.Wagering.Atomic.{IsReadOnly}
use jungle_backend_challenge.Domain.Amount.{cents}
use text.Mathlib.Text.{is_lt}
use Prim.Native.String.{compare}
use jungle_backend_challenge.Prelude.{
  [], ◌∷◌, ◌≡◌, refl, Bool, ◌&&◌, not, String, Option, none, some, find, Bool-cases, Option-cases,
  inl, inr, ap, true, false, Has, keep-Has, List, find-Has, if◌then◌else◌, here, there, arith, ◌<◌,
  any, lt_of_not_leb,
}
use jungle_backend_challenge.Domain.WagerTransaction.{
  WagerType, opening, bet, win, loss, refund, rollback, present, processed, is_reversal,
}
use jungle_backend_challenge.Database.Rows.{Db, WalletRow, WagerRow, numeric_limit}
use jungle_backend_challenge.Database.Tx.{Env, World, pure, throw, ◌>>=◌}
use jungle_backend_challenge.Database.Tables.{has_key, IsKeyed, find-has_key}
use jungle_backend_challenge.Wagering.Types.{SubmitInput, SubmitResult, same_status}
use jungle_backend_challenge.Wagering.Effects.{
  finish_loss, reject_balance_change, reject_reversal, mark_pending_reference,
}
use jungle_backend_challenge.Wagering.Failures.{is_insufficient_funds}
use jungle_backend_challenge.Wagering.Repository.{
  wallet_key, lock_wallet, lock_wallet_by_id, find_reference_by_provider_external,
  find_reference_by_external, find_reversal_by_reference_type, reverses, is_open, least_id,
  insert_pending, insert_row, pending_row, PendingInput, wager_id, by_idempotency_key,
}
use jungle_backend_challenge.Wagering.References.{
  resolve_reference, resolve_reversal, valid_win_reference, valid_scope, Resolved,
}
use jungle_backend_challenge.Wagering.ProcessWager.{
  move_reversal, process_loss, process_balance_change, checked_win, win_reference, move_balance,
  apply_resolved_reversal, settle_reversal, process_reversal, dispatch,
}
use jungle_backend_challenge.Wagering.Keeps.{
  After, After-bind, After-reads_bind, After-writes, OkThen-refuse_if,
}

-- What a resolved reversal locked is in the tables.
abbrev pub IsLocked : Db → Option WalletRow → Type 0
IsLocked db none = Unit
IsLocked db (some row) = find (has_key wallet_key row.id) db.wallets ≡ some row

abbrev pub IsStored : Db → Option WagerRow → Type 0
IsStored db none = Unit
IsStored db (some row) = Has row db.wagers

abbrev pub IsResolved : Db → Resolved → Type 0
IsResolved db r = IsLocked db r.wallet_row × IsStored db r.reference_row

-- The insert of the new wager: it refuses an amount that NUMERIC(18,2) does not hold, an identifier
-- and a key that are there.
pub After-insert_pending :
    (P : Db → Type 0) (i : PendingInput) (w : World)
    → (cents i.amount.amount < numeric_limit
        → any (has_key wager_id i.id) w.db.wagers ≡ false
        → any (by_idempotency_key i.idempotency_key) w.db.wagers ≡ false
        → P (record w.db { wagers = pending_row i ∷ w.db.wagers }))
    → After (λ _. P) (insert_pending i w)
unfolding insert_pending insert_row pending_row is_insufficient_funds
After-insert_pending P i w k = After-writes P _ w (
    OkThen-refuse_if P _ _ _ refl λ fits. OkThen-refuse_if P _ _ _ refl λ _.
      OkThen-refuse_if P _ _ _ refl λ fresh. OkThen-refuse_if P _ _ _ refl λ unused.
        OkThen-refuse_if P _ _ _ refl
          λ _. OkThen-refuse_if P _ _ _ refl λ _. k (lt_of_not_leb _ _ fits) fresh unused)

-- What a rule needs of the ends of a command: `P` holds before each, and `Q` after.
pub record Ends {D : Type 0} (env : Env D) (input : SubmitInput) (tx_id : String) (P : Db → Type 0)
    (Q : SubmitResult → Db → Type 0) : Type 0 where
  pub keyed : (db : Db) → P db → IsKeyed wallet_key db.wallets
  pub loss :
      (wallet : String) (w : World)
      → P w.db
      → input.kind ≡ loss
      → After Q (finish_loss env input tx_id wallet w)
  pub refused :
      (wallet code : String) (w : World)
      → P w.db
      → After Q (reject_balance_change env input tx_id wallet code w)
  pub not_reversed :
      (wallet code : String) (w : World)
      → P w.db
      → After Q (reject_reversal env input tx_id wallet code none none w)
  pub waiting :
      (wallet : String) (w : World)
      → P w.db
      → After Q (mark_pending_reference env input tx_id wallet w)
  pub moved :
      (row : WalletRow) (w : World)
      → P w.db
      → is_reversal input.kind ≡ false
      → find (has_key wallet_key row.id) w.db.wallets ≡ some row
      → After Q (move_balance env input tx_id row w)
  pub reversed :
      (row : WalletRow) (reference : WagerRow) (w : World)
      → P w.db
      → is_reversal input.kind ≡ true
      → Has reference w.db.wagers
      → valid_scope input row reference ≡ true
      → find (λ r. reverses reference.id input.kind tx_id r && is_open r.status) w.db.wagers ≡ none
      → find (has_key wallet_key row.id) w.db.wallets ≡ some row
      → After Q (move_reversal env input tx_id row reference w)

least_id-Has : (rows : List WagerRow) (r : WagerRow) → least_id rows ≡ some r → Has r rows
unfolding least_id
least_id-Has [] r e = cc
least_id-Has (x ∷ xs) r e = go (least_id xs) refl e (least_id-Has xs r)
  where
    go :
        (o : Option WagerRow)
        → least_id xs ≡ o
        → (elim o [ none ↦ some x | some s ↦ if is_lt (compare s.id x.id) then some s else some x ])
          ≡ some r
        → (least_id xs ≡ some r → Has r xs)
        → Has r (x ∷ xs)
    go none h e k = here cc
    go (some s) h e k = elim (Bool-cases (is_lt (compare s.id x.id))) [
      | inl less ↦ there (k (ground arith))
      | inr not_less ↦ here (ground arith)
    ]

module _ (P : Db → Type 0) (input : SubmitInput) where
  resolve_reference-IsResolved :
      (row : WalletRow) (external : Option String) (w : World)
      → P w.db
      → find (has_key wallet_key row.id) w.db.wallets ≡ some row
      → After (λ r db. P db × IsResolved db r) (resolve_reference input row external w)
  unfolding resolve_reference find_reference_by_provider_external find_reference_by_external pure
  resolve_reference-IsResolved row none w h found = (h, (found, tt))
  resolve_reference-IsResolved row (some external) w h found = After-reads_bind _ _ _ w (elim [
    | none ↦ λ _. After-reads_bind _ _ _ w (elim [
      | none ↦ λ _. (h, (found, tt))
      | some r ↦ λ e. (h, (found, keep-Has _ w.db.wagers r (least_id-Has _ r e)))
    ])
    | some r ↦ λ e. (h, (found, find-Has _ w.db.wagers r e))
  ])

  pub resolve_reversal-IsResolved :
      ((db : Db) → P db → IsKeyed wallet_key db.wallets)
      → (w : World) → P w.db
      → After (λ r db. P db × IsResolved db r) (resolve_reversal input w)
  unfolding resolve_reversal lock_wallet_by_id pure
  resolve_reversal-IsResolved keyed w h = After-reads_bind _ _ _ w (elim [
    | none ↦ λ _. (h, (tt, tt))
    | some row ↦ λ e.
        resolve_reference-IsResolved row _ w h
          (find-has_key wallet_key _ w.db.wallets row (keyed w.db h) e)
  ])

pub resolve_reversal-IsReadOnly : (input : SubmitInput) → IsReadOnly (resolve_reversal input)
unfolding resolve_reversal resolve_reference lock_wallet_by_id find_reference_by_provider_external
    find_reference_by_external ◌>>=◌
resolve_reversal-IsReadOnly input = record { same = λ w. ground arith }

module _ {D : Type 0} {env : Env D} {input : SubmitInput} {tx_id : String} {P : Db → Type 0}
    {Q : SubmitResult → Db → Type 0} (ends : Ends env input tx_id P Q) where
  process_loss-After :
      (wallet : String) (w : World)
      → P w.db
      → input.kind ≡ loss
      → After Q (process_loss env input tx_id wallet w)
  unfolding process_loss lock_wallet is_insufficient_funds throw
  process_loss-After wallet w h e =
      After-reads_bind _ _ _ w (elim [ none ↦ λ _. refl | some row ↦ λ _. ends.loss wallet w h e ])

  checked_win-After :
      (row : WalletRow) (r : Option WagerRow) (w : World)
      → P w.db
      → is_reversal input.kind ≡ false
      → find (has_key wallet_key row.id) w.db.wallets ≡ some row
      → After Q (checked_win env input tx_id row r w)
  unfolding checked_win
  checked_win-After row r w h k found = elim (Bool-cases (valid_win_reference input row r)) [
    | inl e ↦ rw e (ends.moved row w h k found)
    | inr e ↦ rw e (ends.refused row.id "REFERENCE_MISMATCH" w h)
  ]

  process_balance_change-After :
      (wallet : String) (w : World)
      → P w.db
      → is_reversal input.kind ≡ false
      → After Q (process_balance_change env input tx_id wallet w)
  unfolding process_balance_change lock_wallet is_insufficient_funds throw
      find_reference_by_provider_external
  process_balance_change-After wallet w h k = After-reads_bind _ _ _ w (elim [
    | none ↦ λ _. refl
    | some row ↦ λ e.
        let found = find-has_key wallet_key _ w.db.wallets row (ends.keyed w.db h) e in
        elim (Option-cases (win_reference env input)) [
          | inl e ↦ rw e (ends.moved row w h k found)
          | inr (_, e) ↦ rw e (After-reads_bind _ _ _ w λ r _. checked_win-After row r w h k found)
        ]
  ])

  pub apply_resolved_reversal-After :
      (row : WalletRow) (r : WagerRow) (w : World)
      → P w.db
      → is_reversal input.kind ≡ true
      → Has r w.db.wagers
      → find (has_key wallet_key row.id) w.db.wallets ≡ some row
      → After Q (apply_resolved_reversal env input tx_id row r w)
  unfolding apply_resolved_reversal find_reversal_by_reference_type
  apply_resolved_reversal-After row r w h k has found =
      elim (Bool-cases (valid_scope input row r)) [
        | inl e ↦ rw e (
            After-reads_bind _ _ _ w (elim [
              | some _ ↦ λ _. ends.not_reversed row.id "REFERENCE_ALREADY_REVERSED" w h
              | none ↦ λ free. ends.reversed row r w h k has e free found
            ]))
        | inr e ↦ rw e (ends.not_reversed row.id "REFERENCE_MISMATCH" w h)
      ]

  settle_reversal-After :
      (wallet : Option WalletRow) (reference : Option WagerRow) (mismatch : Bool) (w : World)
      → P w.db
      → is_reversal input.kind ≡ true
      → IsLocked w.db wallet
      → IsStored w.db reference
      → After Q (
          settle_reversal env input tx_id
            (record {
              wallet_row = wallet;
              reference_row = reference;
              provider_mismatch = mismatch;
            })
            w)
  unfolding settle_reversal is_insufficient_funds throw
  settle_reversal-After none reference m w h k locked has = refl
  settle_reversal-After (some row) none m w h k locked has = ends.waiting row.id w h
  settle_reversal-After (some row) (some r) m w h k locked has =
      elim (Bool-cases (not m && not (same_status r.status processed))) [
        | inl e ↦ rw e (ends.waiting row.id w h)
        | inr e ↦ rw e (apply_resolved_reversal-After row r w h k has locked)
      ]

  process_reversal-After :
      (w : World)
      → P w.db
      → is_reversal input.kind ≡ true
      → After Q (process_reversal env input tx_id w)
  unfolding process_reversal is_insufficient_funds throw
  process_reversal-After w h k =
      elim (Bool-cases (present input.reference_external_transaction_id)) [
        | inl e ↦ rw e (
            After-bind (λ r db. P db × IsResolved db r) Q _ _ w
              (resolve_reversal-IsResolved P input ends.keyed w h)
              (λ r w' (h', (locked, has)). settle_reversal-After _ _ _ w' h' k locked has))
        | inr e ↦ rw e refl
      ]

  pub dispatch-After :
      (type : WagerType) (w : World)
      → input.kind ≡ type
      → P w.db
      → After Q (dispatch env type input tx_id w)
  unfolding dispatch
  dispatch-After loss w e h = process_loss-After _ w h e
  dispatch-After refund w e h = process_reversal-After w h (ap is_reversal e)
  dispatch-After rollback w e h = process_reversal-After w h (ap is_reversal e)
  dispatch-After opening w e h = process_balance_change-After _ w h (ap is_reversal e)
  dispatch-After bet w e h = process_balance_change-After _ w h (ap is_reversal e)
  dispatch-After win w e h = process_balance_change-After _ w h (ap is_reversal e)
