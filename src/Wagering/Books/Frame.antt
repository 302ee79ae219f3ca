-- ===== src/Wagering/Books/Frame.antt =====
-- Predicates that say nothing of wagers and of the outbox, and what ends a command in
-- src/wagering/process-wager.ts: the statements on the wager table and the events.
use jungle_backend_challenge.Prelude.{ℕ, refl, String, Option, none, some, List}
use jungle_backend_challenge.Domain.LedgerEntry.{LedgerDirection}
use jungle_backend_challenge.Domain.Wallet.{Applied}
use jungle_backend_challenge.Domain.Events.{IntegrationEvent, EventPayload, WagerPayload}
use jungle_backend_challenge.Database.Rows.{Db, WagerRow, OutboxRow, PersistedResponse}
use jungle_backend_challenge.Database.Tx.{Env, writes}
use jungle_backend_challenge.Wagering.Types.{SubmitInput}
use jungle_backend_challenge.Wagering.Failures.{is_insufficient_funds}
use jungle_backend_challenge.Wagering.Repository.{
  update_wager, mark_processed, mark_rejected, set_reference, transition_to_pending_reference,
  update_pending_retry,
}
use jungle_backend_challenge.Wagering.Repository.Movements.{insert_outbox_row, insert_outbox_event}
use jungle_backend_challenge.Wagering.Effects.{
  publish, finish_loss, reject_balance_change, reject_reversal, mark_pending_reference,
  publish_movement, finish_balance_change, finish_reversal, set_reference_if,
}
use jungle_backend_challenge.Wagering.Keeps.{
  OkThen-refuse_if, Keeps, Keeps-pure, Keeps-writes, keeps_rules,
}

-- The predicate reads neither the wagers nor the outbox.
pub record IsFramed (P : Db → Type 0) : Type 0 where
  pub wagers : (db : Db) (rows : List WagerRow) → P db → P (record db { wagers = rows })
  pub outbox : (db : Db) (rows : List OutboxRow) → P db → P (record db { outbox = rows })

module _ {P : Db → Type 0} (frame : IsFramed P) where
  pub update_wager-Keeps : (id : String) (f : WagerRow → WagerRow) → Keeps P (update_wager id f)
  unfolding update_wager
  update_wager-Keeps id f = Keeps-writes _ λ db h. frame.wagers db _ h

  pub mark_processed-Keeps : (id : String) (r : PersistedResponse) → Keeps P (mark_processed id r)
  unfolding mark_processed
  mark_processed-Keeps id r = search (keeps_rules, update_wager-Keeps)

  pub mark_rejected-Keeps :
      (id code : String) (r : PersistedResponse) (n : Option ℕ)
      → Keeps P (mark_rejected id code r n)
  unfolding mark_rejected
  mark_rejected-Keeps id code r n = search (keeps_rules, update_wager-Keeps)

  pub transition-Keeps :
      (id : String) (next attempt : ℕ) (r : PersistedResponse)
      → Keeps P (transition_to_pending_reference id next attempt r)
  unfolding transition_to_pending_reference
  transition-Keeps id next attempt r = update_wager-Keeps id _

  pub update_pending_retry-Keeps :
      (id : String) (next attempts : ℕ) → Keeps P (update_pending_retry id next attempts)
  unfolding update_pending_retry
  update_pending_retry-Keeps id next attempts = update_wager-Keeps id _

  pub set_reference-Keeps : (id r : String) → Keeps P (set_reference id r)
  unfolding set_reference is_insufficient_funds
  set_reference-Keeps id r =
      Keeps-writes _ λ db h. OkThen-refuse_if P _ _ _ refl λ _. frame.wagers db _ h

  pub set_reference_if-Keeps : (id : String) (r : Option String) → Keeps P (set_reference_if id r)
  unfolding set_reference_if
  set_reference_if-Keeps id none = Keeps-pure tt
  set_reference_if-Keeps id (some r) = set_reference-Keeps id r

  module _ {D : Type 0} (env : Env D) where
    insert_outbox_event-Keeps : (e : IntegrationEvent) → Keeps P (insert_outbox_event env e)
    unfolding insert_outbox_event
    insert_outbox_event-Keeps e = search (keeps_rules, write_event)
      where
        write_event : (row : OutboxRow) → Keeps P (writes (insert_outbox_row row))
        write_event row = Keeps-writes _ λ db h.
            unfold insert_outbox_row is_insufficient_funds in
            OkThen-refuse_if P _ _ _ refl
              λ _. OkThen-refuse_if P _ _ _ refl λ _. frame.outbox db _ h

    pub publish-Keeps : (input : SubmitInput) (p : EventPayload) → Keeps P (publish env input p)
    unfolding publish
    publish-Keeps input p = search (keeps_rules, insert_outbox_event-Keeps)

    pub finish_loss-Keeps :
        (input : SubmitInput) (tx wallet : String) → Keeps P (finish_loss env input tx wallet)
    unfolding finish_loss
    finish_loss-Keeps input tx wallet = search (keeps_rules, mark_processed-Keeps, publish-Keeps)

    pub reject_balance_change-Keeps :
        (input : SubmitInput) (tx wallet code : String)
        → Keeps P (reject_balance_change env input tx wallet code)
    unfolding reject_balance_change
    reject_balance_change-Keeps input tx wallet code =
        search (keeps_rules, mark_rejected-Keeps, publish-Keeps)

    pub mark_pending_reference-Keeps :
        (input : SubmitInput) (tx wallet : String)
        → Keeps P (mark_pending_reference env input tx wallet)
    unfolding mark_pending_reference
    mark_pending_reference-Keeps input tx wallet =
        search (keeps_rules, transition-Keeps, publish-Keeps)

    pub publish_movement-Keeps :
        (input : SubmitInput) (d : LedgerDirection) (a : Applied) (wallet : String)
        (p : WagerPayload)
        → Keeps P (publish_movement env input d a wallet p)
    unfolding publish_movement
    publish_movement-Keeps input d a wallet p = search (keeps_rules, publish-Keeps)

    pub finish_balance_change-Keeps :
        (input : SubmitInput) (tx : String) (d : LedgerDirection) (a : Applied) (wallet : String)
        → Keeps P (finish_balance_change env input tx d a wallet)
    unfolding finish_balance_change
    finish_balance_change-Keeps input tx d a wallet =
        search (keeps_rules, mark_processed-Keeps, publish_movement-Keeps)

    pub finish_reversal-Keeps :
        (input : SubmitInput) (tx : String) (d : LedgerDirection) (a : Applied) (wallet r : String)
        → Keeps P (finish_reversal env input tx d a wallet r)
    unfolding finish_reversal
    finish_reversal-Keeps input tx d a wallet r =
        search (keeps_rules, mark_processed-Keeps, publish_movement-Keeps, set_reference-Keeps)

    pub reject_reversal-Keeps :
        (input : SubmitInput) (tx wallet code : String) (r : Option String) (n : Option ℕ)
        → Keeps P (reject_reversal env input tx wallet code r n)
    unfolding reject_reversal
    reject_reversal-Keeps input tx wallet code r n =
        search (keeps_rules, mark_rejected-Keeps, publish-Keeps, set_reference_if-Keeps)
