-- ===== src/Wagering/LeavesInbox/Commands.antt =====
-- `execute` of src/wagering/process-wager.ts, method by method: none of them touches the inbox.
use jungle_backend_challenge.Prelude.{
  refl, ap, Option-cases, inl, inr, String, Option, none, some, ℕ,
}
use jungle_backend_challenge.Domain.LedgerEntry.{LedgerDirection}
use jungle_backend_challenge.Domain.Money.{MoneyProps}
use jungle_backend_challenge.Domain.Wallet.{Applied}
use jungle_backend_challenge.Domain.Events.{EventPayload, IntegrationEvent, WagerPayload}
use jungle_backend_challenge.Domain.WagerTransaction.{
  WagerType, opening, bet, win, loss, refund, rollback,
}
use jungle_backend_challenge.Database.Rows.{WagerRow, WalletRow}
use jungle_backend_challenge.Database.Tx.{Env, World, Tx, clock, draw}
use jungle_backend_challenge.Wagering.Types.{SubmitInput}
use jungle_backend_challenge.Wagering.Repository.{
  lock_wallet, find_reference_by_provider_external, find_reversal_by_reference_type,
}
use jungle_backend_challenge.Wagering.Repository.Movements.{
  insert_outbox_event, insert_outbox_row, insert_ledger_entry, insert_ledger_row, LedgerInput,
}
use jungle_backend_challenge.Wagering.Effects.{
  publish, finish_loss, reject_balance_change, reject_reversal, mark_pending_reference,
  store_movement, publish_movement, finish_balance_change, finish_reversal,
}
use jungle_backend_challenge.Wagering.References.{wallet_of_row, Resolved}
use jungle_backend_challenge.Wagering.ProcessWager.{
  win_reference, process_loss, move_balance, checked_win, process_balance_change, move_reversal,
  apply_resolved_reversal, settle_reversal, process_reversal, dispatch, work, submit, execute,
}
use jungle_backend_challenge.Wagering.LeavesInbox.{
  LeavesInbox, LeavesInbox-writes, KeptBy-refuse_if, leaves_rules, LeavesInbox-bind,
  LeavesInbox-clock, LeavesInbox-draw, LeavesInbox-if, LeavesInbox-throw, LeavesInbox-reads,
  LeavesInbox-attempt, LeavesInbox-transactional,
}
use jungle_backend_challenge.Wagering.Atomic.{IsReadOnly, handle_failure-IsReadOnly}
use jungle_backend_challenge.Wagering.Dispatch.{resolve_reversal-IsReadOnly}
use jungle_backend_challenge.Wagering.LeavesInbox.Statements.{
  insert_pending-Leaves, set_reference-Leaves, mark_processed-Leaves, mark_rejected-Leaves,
  transition-Leaves, set_reference_if-Leaves, apply_wallet_mutation-Leaves,
}

module _ {D : Type 0} (env : Env D) where
  insert_outbox_event-Leaves : (e : IntegrationEvent) → LeavesInbox (insert_outbox_event env e)
  unfolding insert_outbox_event insert_outbox_row
  insert_outbox_event-Leaves e = LeavesInbox-bind (draw env) _ (LeavesInbox-draw env) λ id.
      LeavesInbox-bind clock _ LeavesInbox-clock
        λ now. LeavesInbox-writes _ λ db. search (KeptBy-refuse_if, refl) depth 12

  insert_ledger_entry-Leaves : (i : LedgerInput) → LeavesInbox (insert_ledger_entry env i)
  unfolding insert_ledger_entry insert_ledger_row
  insert_ledger_entry-Leaves i = LeavesInbox-bind (draw env) _ (LeavesInbox-draw env) λ id.
      LeavesInbox-bind clock _ LeavesInbox-clock
        λ now. LeavesInbox-writes _ λ db. search (KeptBy-refuse_if, refl) depth 20

  publish-Leaves : (input : SubmitInput) (p : EventPayload) → LeavesInbox (publish env input p)
  unfolding publish
  publish-Leaves input p = search (leaves_rules, insert_outbox_event-Leaves)

  finish_loss-Leaves :
      (input : SubmitInput) (tx_id wallet : String)
      → LeavesInbox (finish_loss env input tx_id wallet)
  unfolding finish_loss
  finish_loss-Leaves input tx_id wallet =
      search (leaves_rules, mark_processed-Leaves, publish-Leaves)

  reject_balance_change-Leaves :
      (input : SubmitInput) (tx_id wallet code : String)
      → LeavesInbox (reject_balance_change env input tx_id wallet code)
  unfolding reject_balance_change
  reject_balance_change-Leaves input tx_id wallet code =
      search (leaves_rules, mark_rejected-Leaves, publish-Leaves)

  reject_reversal-Leaves :
      (input : SubmitInput) (tx_id wallet code : String) (r : Option String) (n : Option ℕ)
      → LeavesInbox (reject_reversal env input tx_id wallet code r n)
  unfolding reject_reversal
  reject_reversal-Leaves input tx_id wallet code r n =
      search (leaves_rules, mark_rejected-Leaves, publish-Leaves, set_reference_if-Leaves)

  mark_pending_reference-Leaves :
      (input : SubmitInput) (tx_id wallet : String)
      → LeavesInbox (mark_pending_reference env input tx_id wallet)
  unfolding mark_pending_reference
  mark_pending_reference-Leaves input tx_id wallet =
      search (leaves_rules, transition-Leaves, publish-Leaves)

  store_movement-Leaves :
      (d : LedgerDirection) (v : MoneyProps) (a : Applied) (wallet tx_id : String)
      → LeavesInbox (store_movement env d v a wallet tx_id)
  unfolding store_movement
  store_movement-Leaves d v a wallet tx_id =
      search (leaves_rules, apply_wallet_mutation-Leaves, insert_ledger_entry-Leaves)

  publish_movement-Leaves :
      (input : SubmitInput) (d : LedgerDirection) (a : Applied) (wallet : String) (p : WagerPayload)
      → LeavesInbox (publish_movement env input d a wallet p)
  unfolding publish_movement
  publish_movement-Leaves input d a wallet p = search (leaves_rules, publish-Leaves)

  finish_balance_change-Leaves :
      (input : SubmitInput) (tx_id : String) (d : LedgerDirection) (a : Applied) (wallet : String)
      → LeavesInbox (finish_balance_change env input tx_id d a wallet)
  unfolding finish_balance_change
  finish_balance_change-Leaves input tx_id d a wallet =
      search (leaves_rules, mark_processed-Leaves, publish_movement-Leaves)

  finish_reversal-Leaves :
      (input : SubmitInput) (tx_id : String) (d : LedgerDirection) (a : Applied)
      (wallet reference : String)
      → LeavesInbox (finish_reversal env input tx_id d a wallet reference)
  unfolding finish_reversal
  finish_reversal-Leaves input tx_id d a wallet reference =
      search (leaves_rules, set_reference-Leaves, mark_processed-Leaves, publish_movement-Leaves)

  wallet_of_row-Leaves : (row : WalletRow) → LeavesInbox (wallet_of_row env row)
  unfolding wallet_of_row
  wallet_of_row-Leaves row = search leaves_rules

  move_balance-Leaves :
      (input : SubmitInput) (tx_id : String) (row : WalletRow)
      → LeavesInbox (move_balance env input tx_id row)
  unfolding move_balance
  move_balance-Leaves input tx_id row =
      search
        (
          leaves_rules, wallet_of_row-Leaves, store_movement-Leaves, finish_balance_change-Leaves,
          reject_balance_change-Leaves,
        )
        depth 12 fits 4000

  move_reversal-Leaves :
      (input : SubmitInput) (tx_id : String) (row : WalletRow) (reference : WagerRow)
      → LeavesInbox (move_reversal env input tx_id row reference)
  unfolding move_reversal
  move_reversal-Leaves input tx_id row reference =
      search
        (
          leaves_rules, wallet_of_row-Leaves, store_movement-Leaves, finish_reversal-Leaves,
          reject_reversal-Leaves,
        )
        depth 12 fits 4000

  -- Work that only reads.
  IsReadOnly-Leaves : {A : Type 0} (m : Tx A) → IsReadOnly m → LeavesInbox m
  IsReadOnly-Leaves m h = record { same = λ w. ap (λ (v : World). v.db.inbox) (h.same w) }

  process_loss-Leaves :
      (input : SubmitInput) (tx_id wallet : String)
      → LeavesInbox (process_loss env input tx_id wallet)
  unfolding process_loss lock_wallet
  process_loss-Leaves input tx_id wallet =
      LeavesInbox-bind _ _ (LeavesInbox-reads _)
        (elim [ none ↦ LeavesInbox-throw _ | some _ ↦ finish_loss-Leaves input tx_id wallet ])

  checked_win-Leaves :
      (input : SubmitInput) (tx_id : String) (row : WalletRow) (r : Option WagerRow)
      → LeavesInbox (checked_win env input tx_id row r)
  unfolding checked_win
  checked_win-Leaves input tx_id row r =
      search (leaves_rules, move_balance-Leaves, reject_balance_change-Leaves)

  process_balance_change-Leaves :
      (input : SubmitInput) (tx_id wallet : String)
      → LeavesInbox (process_balance_change env input tx_id wallet)
  unfolding process_balance_change lock_wallet find_reference_by_provider_external
  process_balance_change-Leaves input tx_id wallet =
      LeavesInbox-bind _ _ (LeavesInbox-reads _) (elim [
        | none ↦ LeavesInbox-throw _
        | some row ↦ elim (Option-cases (win_reference env input)) [
          | inl e ↦ rw e (move_balance-Leaves input tx_id row)
          | inr (_, e) ↦
              rw e (LeavesInbox-bind _ _ (LeavesInbox-reads _) (checked_win-Leaves input tx_id row))
        ]
      ])

  apply_resolved_reversal-Leaves :
      (input : SubmitInput) (tx_id : String) (row : WalletRow) (r : WagerRow)
      → LeavesInbox (apply_resolved_reversal env input tx_id row r)
  unfolding apply_resolved_reversal find_reversal_by_reference_type
  apply_resolved_reversal-Leaves input tx_id row r =
      LeavesInbox-if _ _ _
        (LeavesInbox-bind _ _ (LeavesInbox-reads _) (elim [
          | some _ ↦
              reject_reversal-Leaves input tx_id row.id "REFERENCE_ALREADY_REVERSED" none none
          | none ↦ move_reversal-Leaves input tx_id row r
        ]))
        (reject_reversal-Leaves input tx_id row.id "REFERENCE_MISMATCH" none none)

  settle_reversal-Leaves :
      (input : SubmitInput) (tx_id : String) (found : Resolved)
      → LeavesInbox (settle_reversal env input tx_id found)
  unfolding settle_reversal
  settle_reversal-Leaves input tx_id found = elim (Option-cases found.wallet_row) [
    | inl e ↦ rw e (LeavesInbox-throw _)
    | inr (row, e) ↦ elim (Option-cases found.reference_row) [
      | inl f ↦ rw (e, f) (mark_pending_reference-Leaves input tx_id row.id)
      | inr (reference, f) ↦
          rw (e, f)
            (LeavesInbox-if _ _ _ (mark_pending_reference-Leaves input tx_id row.id)
              (apply_resolved_reversal-Leaves input tx_id row reference))
    ]
  ]

  process_reversal-Leaves :
      (input : SubmitInput) (tx_id : String) → LeavesInbox (process_reversal env input tx_id)
  unfolding process_reversal
  process_reversal-Leaves input tx_id =
      LeavesInbox-if _ _ _
        (LeavesInbox-bind _ _ (IsReadOnly-Leaves _ (resolve_reversal-IsReadOnly input))
          (settle_reversal-Leaves input tx_id))
        (LeavesInbox-throw _)

  dispatch-Leaves :
      (kind : WagerType) (input : SubmitInput) (tx_id : String)
      → LeavesInbox (dispatch env kind input tx_id)
  unfolding dispatch
  dispatch-Leaves loss input tx_id = process_loss-Leaves input tx_id input.wallet_id
  dispatch-Leaves refund input tx_id = process_reversal-Leaves input tx_id
  dispatch-Leaves rollback input tx_id = process_reversal-Leaves input tx_id
  dispatch-Leaves opening input tx_id = process_balance_change-Leaves input tx_id input.wallet_id
  dispatch-Leaves bet input tx_id = process_balance_change-Leaves input tx_id input.wallet_id
  dispatch-Leaves win input tx_id = process_balance_change-Leaves input tx_id input.wallet_id

  work-Leaves :
      (input : SubmitInput) (hash tx_id : String) → LeavesInbox (work env input hash tx_id)
  unfolding work
  work-Leaves input hash tx_id = search (leaves_rules, insert_pending-Leaves, dispatch-Leaves)

  submit-Leaves : (input : SubmitInput) → LeavesInbox (submit env input)
  unfolding submit
  submit-Leaves input = LeavesInbox-bind _ _ (LeavesInbox-draw env) λ tx_id.
      LeavesInbox-attempt _ _ (LeavesInbox-transactional _ (work-Leaves input _ tx_id))
        λ e. IsReadOnly-Leaves _ (handle_failure-IsReadOnly env input _ e)

  pub execute-Leaves : (input : SubmitInput) → LeavesInbox (execute env input)
  unfolding execute
  execute-Leaves input = search (leaves_rules, submit-Leaves)
