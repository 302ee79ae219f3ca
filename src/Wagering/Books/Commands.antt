-- ===== src/Wagering/Books/Commands.antt =====
-- The books and `execute` of src/wagering/process-wager.ts.
use jungle_backend_challenge.Prelude.{◌<◌, refl, String, none, sym, subst}
use jungle_backend_challenge.Prelude.Results.{ok, err}
use jungle_backend_challenge.Domain.Errors.{Outcome}
use jungle_backend_challenge.Domain.Amount.{cents}
use jungle_backend_challenge.Domain.Decimal.{IsDecimal}
use jungle_backend_challenge.Database.Rows.{numeric_limit}
use jungle_backend_challenge.Database.Tx.{Env, World, ◌>>=◌, lift}
use jungle_backend_challenge.Wagering.Types.{SubmitInput}
use jungle_backend_challenge.Wagering.Payload.{normalize_wager_input}
use jungle_backend_challenge.Wagering.ProcessWager.{work, submit, execute}
use jungle_backend_challenge.Wagering.Keeps.{After, After-bind}
use jungle_backend_challenge.Wagering.Dispatch.{After-insert_pending, Ends, dispatch-After}
use jungle_backend_challenge.Wagering.Atomic.{submit-After}
use jungle_backend_challenge.Wagering.Books.{IsSound}
use jungle_backend_challenge.Wagering.Books.Frame.{
  finish_loss-Keeps, reject_balance_change-Keeps, reject_reversal-Keeps,
  mark_pending_reference-Keeps, IsFramed, finish_balance_change-Keeps, finish_reversal-Keeps,
}
use jungle_backend_challenge.Wagering.Books.Processing.{move_balance-After, move_reversal-After}

pub IsSound-IsFramed : IsFramed IsSound
IsSound-IsFramed = record {
  wagers =
      λ db rows h. record { keyed = h.keyed; balanced = h.balanced; entries_hold = h.entries_hold };
  outbox =
      λ db rows h. record { keyed = h.keyed; balanced = h.balanced; entries_hold = h.entries_hold };
}

module _ {D : Type 0} (env : Env D) (laws : IsDecimal env.dec) where
  pub IsSound-Ends :
      (input : SubmitInput) (tx_id : String)
      → Ends env input tx_id
          (λ db. IsSound db × (cents input.money.amount < numeric_limit))
          (λ _. IsSound)
  IsSound-Ends input tx_id = record {
    keyed = λ db (h, _). h.keyed;
    loss = λ wallet w (h, _) _. (finish_loss-Keeps IsSound-IsFramed env input tx_id wallet).at w h;
    refused = λ wallet code w (h, _).
        (reject_balance_change-Keeps IsSound-IsFramed env input tx_id wallet code).at w h;
    not_reversed = λ wallet code w (h, _).
        (reject_reversal-Keeps IsSound-IsFramed env input tx_id wallet code none none).at w h;
    waiting = λ wallet w (h, _).
        (mark_pending_reference-Keeps IsSound-IsFramed env input tx_id wallet).at w h;
    moved = λ row w (h, small) _ found.
        move_balance-After env laws (λ _. IsSound) input tx_id row w h found small
          (λ a w' h' _ _.
            (finish_balance_change-Keeps IsSound-IsFramed env input tx_id _ a row.id).at w' h')
          ((reject_balance_change-Keeps IsSound-IsFramed env input tx_id row.id
              "INSUFFICIENT_FUNDS").at
            w h);
    reversed = λ row reference w (h, small) _ _ _ _ found.
        move_reversal-After env laws (λ _. IsSound) input tx_id row w h found small reference
          (λ a w' h' _ _.
            (finish_reversal-Keeps IsSound-IsFramed env input tx_id _ a row.id reference.id).at w'
              h')
          ((reject_reversal-Keeps IsSound-IsFramed env input tx_id row.id "REVERSAL_WOULD_OVERDRAW"
              none none).at
            w h);
  }

  work-IsSound :
      (input : SubmitInput) (hash tx_id : String) (w : World)
      → IsSound w.db
      → After (λ _. IsSound) (work env input hash tx_id w)
  unfolding work
  work-IsSound input hash tx_id w h =
      After-bind (λ _ db. IsSound db × (cents input.money.amount < numeric_limit)) (λ _. IsSound) _
        _ w (After-insert_pending _ _ w λ fits _ _. (IsSound-IsFramed.wagers w.db _ h, fits))
        (λ _ w' h'. dispatch-After (IsSound-Ends input tx_id) input.kind w' refl h')

  -- A command keeps sound books sound, whatever it answers or throws: each wallet's balance is the
  -- credits of the ledger less the debits, it is below the limit of its column, and every entry
  -- leads from its balance before to its balance after.
  pub execute-IsSound :
      (input : SubmitInput) (w : World) → IsSound w.db → IsSound (execute env input w).1.db
  unfolding execute ◌>>=◌
  execute-IsSound input w h = go (normalize_wager_input env.dec input)
    where
      go : (r : Outcome SubmitInput) → IsSound ((lift r >>= submit env) w).1.db
      go (ok i) =
          submit-After env IsSound i w h
            λ hash tx_id w' same. work-IsSound i hash tx_id w' (subst IsSound (sym same) h)
      go (err t) = h
