-- ===== src/Wagering/LeavesInbox/Statements.antt =====
-- The statements of src/wagering/wager.repository.ts and the inbox.
use jungle_backend_challenge.Prelude.{refl, String, Option, none, some, ℕ}
use jungle_backend_challenge.Database.Rows.{WagerRow, PersistedResponse}
use jungle_backend_challenge.Database.Tx.{clock}
use jungle_backend_challenge.Wagering.Repository.{
  PendingInput, insert_pending, insert_row, update_wager, mark_processed, mark_rejected,
  set_reference, transition_to_pending_reference,
}
use jungle_backend_challenge.Wagering.Repository.Movements.{apply_wallet_mutation, set_balance}
use jungle_backend_challenge.Wagering.Effects.{set_reference_if}
use jungle_backend_challenge.Wagering.LeavesInbox.{
  LeavesInbox, LeavesInbox-writes, KeptBy-refuse_if, leaves_rules, LeavesInbox-bind,
  LeavesInbox-clock,
}

pub insert_pending-Leaves : (i : PendingInput) → LeavesInbox (insert_pending i)
unfolding insert_pending insert_row
insert_pending-Leaves i = LeavesInbox-writes _ λ db. search (KeptBy-refuse_if, refl) depth 12

update_wager-Leaves : (id : String) (f : WagerRow → WagerRow) → LeavesInbox (update_wager id f)
unfolding update_wager
update_wager-Leaves id f = LeavesInbox-writes _ λ db. refl

pub set_reference-Leaves : (id r : String) → LeavesInbox (set_reference id r)
unfolding set_reference
set_reference-Leaves id r = LeavesInbox-writes _ λ db. KeptBy-refuse_if db _ _ _ refl

pub mark_processed-Leaves :
    (id : String) (r : PersistedResponse) → LeavesInbox (mark_processed id r)
unfolding mark_processed
mark_processed-Leaves id r = search (leaves_rules, update_wager-Leaves)

pub mark_rejected-Leaves :
    (id code : String) (r : PersistedResponse) (attempts : Option ℕ)
    → LeavesInbox (mark_rejected id code r attempts)
unfolding mark_rejected
mark_rejected-Leaves id code r attempts = search (leaves_rules, update_wager-Leaves)

pub transition-Leaves :
    (id : String) (at attempt : ℕ) (r : PersistedResponse)
    → LeavesInbox (transition_to_pending_reference id at attempt r)
unfolding transition_to_pending_reference
transition-Leaves id at attempt r = update_wager-Leaves id _

pub set_reference_if-Leaves :
    (id : String) (r : Option String) → LeavesInbox (set_reference_if id r)
unfolding set_reference_if
set_reference_if-Leaves id none = search leaves_rules
set_reference_if-Leaves id (some r) = set_reference-Leaves id r

pub apply_wallet_mutation-Leaves :
    (wallet amount : String) → LeavesInbox (apply_wallet_mutation wallet amount)
unfolding apply_wallet_mutation set_balance
apply_wallet_mutation-Leaves wallet amount =
    LeavesInbox-bind clock _ LeavesInbox-clock
      λ now. LeavesInbox-writes _ λ db. KeptBy-refuse_if db _ _ _ refl
