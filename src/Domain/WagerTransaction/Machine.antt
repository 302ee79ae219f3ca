-- ===== src/Domain/WagerTransaction/Machine.antt =====
-- The state machine of src/domain/wager-transaction.ts as a step relation: a step is a call of a
-- method that returns.
use jungle_backend_challenge.Prelude.{ℕ, ◌≡◌, ◌≢◌, true, String, Option, none, arith}
use jungle_backend_challenge.Prelude.Results.{ok}
use jungle_backend_challenge.Domain.WagerTransaction.{
  WagerTransaction, CreateProps, opening, WagerStatus, pending, pending_reference, processed,
  rejected, failed, is_reversal, present, create_wager, mark_processed, mark_rejected, mark_failed,
  schedule_reference_retry,
}

-- A call of a method on a wager that returns the wager `u`.
pub data Step (t u : WagerTransaction) : Type 0 where
  to_processed : (r : String) (at : ℕ) → mark_processed t r at ≡ ok u → Step t u
  to_rejected : (c r : String) (at : ℕ) → mark_rejected t c r at ≡ ok u → Step t u
  to_failed : (c : String) (at : ℕ) → mark_failed t c at ≡ ok u → Step t u
  retried : (next attempt : ℕ) → schedule_reference_retry t next attempt ≡ ok u → Step t u

pub data Reach (t : WagerTransaction) : WagerTransaction → Type 0 where
  here : Reach t t
  next : {u v : WagerTransaction} → Reach t u → Step u v → Reach t v

abbrev pub IsTerminal : WagerStatus → Type 0
IsTerminal processed = Unit
IsTerminal rejected = Unit
IsTerminal failed = Unit
IsTerminal _ = ⊥

-- What identifies the wager and what it is worth.
pub record SameWager (t u : WagerTransaction) : Type 0 where
  pub id : u.id ≡ t.id
  pub type : u.type ≡ t.type
  pub wallet_id : u.wallet_id ≡ t.wallet_id
  pub provider_id : u.provider_id ≡ t.provider_id
  pub external : u.external_transaction_id ≡ t.external_transaction_id
  pub amount : u.amount ≡ t.amount
  pub reference : u.reference ≡ t.reference
  pub payload_hash : u.payload_hash ≡ t.payload_hash
  pub created_at : u.created_at ≡ t.created_at

-- A wager is processed at some time exactly if it is terminal, a rejected or failed one has a code,
-- and one that is still pending has neither a code nor a response.
abbrev pub StatusFields : WagerStatus → Option ℕ → Option String → Option String → Type 0
StatusFields pending at code response = (at ≡ none) × (code ≡ none) × (response ≡ none)
StatusFields pending_reference at code response = ⊥
StatusFields processed at code response = (at ≢ none) × (code ≡ none)
StatusFields rejected at code response = (at ≢ none) × (code ≢ none) × (response ≢ none)
StatusFields failed at code response = (at ≢ none) × (code ≢ none)

abbrev pub IsConsistent : WagerTransaction → Type 0
IsConsistent t = StatusFields t.status t.processed_at t.failure_code t.response_payload

-- A step starts at PENDING.
pub Step-pending : {t u : WagerTransaction} → Step t u → t.status ≡ pending
unfolding mark_processed mark_rejected mark_failed schedule_reference_retry
Step-pending (to_processed r at e) = ground arith
Step-pending (to_rejected c r at e) = ground arith
Step-pending (to_failed c at e) = ground arith
Step-pending (retried n a e) = ground arith

pub terminal-no-Step : {t u : WagerTransaction} → IsTerminal t.status → ¬ (Step t u)
terminal-no-Step h s = ground (arith, Step-pending s)

pub Step-SameWager : {t u : WagerTransaction} → Step t u → SameWager t u
unfolding mark_processed mark_rejected mark_failed schedule_reference_retry
Step-SameWager (to_processed r at e) = ground arith
Step-SameWager (to_rejected c r at e) = ground arith
Step-SameWager (to_failed c at e) = ground arith
Step-SameWager (retried n a e) = ground arith

-- A step keeps the fields consistent with the status.
pub Step-IsConsistent : {t u : WagerTransaction} → Step t u → IsConsistent t → IsConsistent u
unfolding mark_processed mark_rejected mark_failed schedule_reference_retry
Step-IsConsistent (to_processed r at e) h = ground arith
Step-IsConsistent (to_rejected c r at e) h = ground arith
Step-IsConsistent (to_failed c at e) h = ground arith
Step-IsConsistent (retried n a e) h = ground arith

pub create_wager-IsConsistent :
    (p : CreateProps) (t : WagerTransaction)
    → create_wager p ≡ ok t
    → (t.status ≡ pending)
      × IsConsistent t
      × (t.type ≡ p.type)
      × (t.type ≢ opening)
      × (is_reversal t.type ≡ true → present t.reference ≡ true)
unfolding create_wager
create_wager-IsConsistent p t h = grind arith

pub Reach-IsConsistent : {t u : WagerTransaction} → Reach t u → IsConsistent t → IsConsistent u
Reach-IsConsistent here h = h
Reach-IsConsistent (next r s) h = Step-IsConsistent s (Reach-IsConsistent r h)

SameWager-trans : {t u v : WagerTransaction} → SameWager t u → SameWager u v → SameWager t v
SameWager-trans h k = ground arith

pub Reach-SameWager : {t u : WagerTransaction} → Reach t u → SameWager t u
Reach-SameWager here = ground arith
Reach-SameWager (next r s) = SameWager-trans (Reach-SameWager r) (Step-SameWager s)

-- Whatever methods are called, in whatever order, on a wager that `create` returned: the wager
-- stays a wager of an external type with the reference that a reversal needs, its identity, amount
-- and reference never change, its fields match its status, and once it is processed, rejected or
-- failed no further call succeeds.
pub lifecycle :
    (p : CreateProps) {t u : WagerTransaction}
    → create_wager p ≡ ok t
    → Reach t u
    → SameWager t u
      × IsConsistent u
      × (u.type ≢ opening)
      × (is_reversal u.type ≡ true → present u.reference ≡ true)
      × (IsTerminal u.status → (v : WagerTransaction) → ¬ (Step u v))
lifecycle p {t} {u} h r =
    let (_, consistent, _, external, referenced) = create_wager-IsConsistent p t h in
    let same = Reach-SameWager r in
    (
      same,
      Reach-IsConsistent r consistent,
      ground arith,
      λ rev. ground (arith, referenced (rw same.type at rev)),
      λ terminal v. terminal-no-Step terminal,
    )
