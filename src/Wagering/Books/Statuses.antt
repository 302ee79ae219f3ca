-- ===== src/Wagering/Books/Statuses.antt =====
-- The status that each end of a command answers, not as a replay.
use jungle_backend_challenge.Prelude.{◌≡◌, refl, false, String, Option, ℕ}
use jungle_backend_challenge.Domain.LedgerEntry.{LedgerDirection}
use jungle_backend_challenge.Domain.Wallet.{Applied}
use jungle_backend_challenge.Database.Rows.{ResultStatus, Db}
use jungle_backend_challenge.Database.Tx.{Env, World, pure}
use jungle_backend_challenge.Wagering.Types.{SubmitInput, SubmitResult}
use jungle_backend_challenge.Wagering.Payload.{make_result}
use jungle_backend_challenge.Wagering.Effects.{
  finish_loss, reject_balance_change, reject_reversal, mark_pending_reference,
  finish_balance_change, finish_reversal,
}
use jungle_backend_challenge.Wagering.Keeps.{After, After-then, After-clock_bind}
use jungle_backend_challenge.Wagering.Books.Frame.{
  IsFramed, mark_processed-Keeps, publish-Keeps, publish_movement-Keeps, mark_rejected-Keeps,
  transition-Keeps, set_reference-Keeps, set_reference_if-Keeps,
}

abbrev pub Answers : ResultStatus → SubmitResult → Db → Type 0
Answers s r _ = (r.response.status ≡ s) × (r.idempotent_replay ≡ false)

anything : IsFramed (λ _. Unit {0})
anything = record { wagers = λ _ _ _. tt; outbox = λ _ _ _. tt }

module _ {D : Type 0} (env : Env D) where
  pub finish_loss-Answers :
      (input : SubmitInput) (tx_id wallet_id : String) (w : World)
      → After (Answers ResultStatus.processed) (finish_loss env input tx_id wallet_id w)
  unfolding finish_loss pure make_result
  finish_loss-Answers input tx_id wallet_id w =
      After-then _ _ _ w (mark_processed-Keeps anything tx_id _)
        λ w'. After-then _ _ _ w' (publish-Keeps anything env input _) λ _. (refl, refl)

  pub finish_balance_change-Answers :
      (input : SubmitInput) (tx_id : String) (d : LedgerDirection) (a : Applied)
      (wallet_id : String) (w : World)
      → After
          (Answers ResultStatus.processed)
          (finish_balance_change env input tx_id d a wallet_id w)
  unfolding finish_balance_change pure make_result
  finish_balance_change-Answers input tx_id d a wallet_id w =
      After-then _ _ _ w (mark_processed-Keeps anything tx_id _) λ w'.
        After-then _ _ _ w' (publish_movement-Keeps anything env input d a wallet_id _)
          λ _. (refl, refl)

  pub finish_reversal-Answers :
      (input : SubmitInput) (tx_id : String) (d : LedgerDirection) (a : Applied)
      (wallet_id reference : String) (w : World)
      → After
          (Answers ResultStatus.processed)
          (finish_reversal env input tx_id d a wallet_id reference w)
  unfolding finish_reversal pure make_result
  finish_reversal-Answers input tx_id d a wallet_id reference w =
      After-then _ _ _ w (set_reference-Keeps anything tx_id reference) λ w1.
        After-then _ _ _ w1 (mark_processed-Keeps anything tx_id _) λ w2.
          After-then _ _ _ w2 (publish_movement-Keeps anything env input d a wallet_id _)
            λ _. (refl, refl)

  pub reject_balance_change-Answers :
      (input : SubmitInput) (tx_id wallet_id code : String) (w : World)
      → After
          (Answers ResultStatus.rejected)
          (reject_balance_change env input tx_id wallet_id code w)
  unfolding reject_balance_change pure make_result
  reject_balance_change-Answers input tx_id wallet_id code w =
      After-then _ _ _ w (mark_rejected-Keeps anything tx_id code _ _)
        λ w'. After-then _ _ _ w' (publish-Keeps anything env input _) λ _. (refl, refl)

  pub reject_reversal-Answers :
      (input : SubmitInput) (tx_id wallet_id code : String) (r : Option String) (n : Option ℕ)
      (w : World)
      → After (Answers ResultStatus.rejected) (reject_reversal env input tx_id wallet_id code r n w)
  unfolding reject_reversal pure make_result
  reject_reversal-Answers input tx_id wallet_id code r n w =
      After-then _ _ _ w (set_reference_if-Keeps anything tx_id _) λ w1.
        After-then _ _ _ w1 (mark_rejected-Keeps anything tx_id code _ n)
          λ w2. After-then _ _ _ w2 (publish-Keeps anything env input _) λ _. (refl, refl)

  pub mark_pending_reference-Answers :
      (input : SubmitInput) (tx_id wallet_id : String) (w : World)
      → After (Answers ResultStatus.pending) (mark_pending_reference env input tx_id wallet_id w)
  unfolding mark_pending_reference pure make_result
  mark_pending_reference-Answers input tx_id wallet_id w = After-clock_bind _ _ w (
      After-then _ _ _ w (transition-Keeps anything tx_id _ _ _)
        λ w'. After-then _ _ _ w' (publish-Keeps anything env input _) λ _. (refl, refl))
