-- ===== src/Wagering/Books/Outcome.antt =====
-- What `execute` of src/wagering/process-wager.ts answers, and what it has done.
use jungle_backend_challenge.Wagering.Atomic.{
  transactional-ok, handle_failure-IsReadOnly, handle_failure-replays,
}
use jungle_backend_challenge.Wagering.Payload.{normalize_wager_input, wager_payload_hash}
use jungle_backend_challenge.Wagering.Books.Commands.{IsSound-IsFramed}
use jungle_backend_challenge.Prelude.{◌+◌, ◌<◌, ◌≡◌, refl, sym, subst, true, String, ◌⊎◌}
use jungle_backend_challenge.Prelude.Results.{ok}
use jungle_backend_challenge.Domain.Amount.{cents}
use jungle_backend_challenge.Domain.Decimal.{IsDecimal}
use jungle_backend_challenge.Database.Rows.{numeric_limit}
use jungle_backend_challenge.Database.Tx.{Env, World, ◌>>=◌, lift}
use jungle_backend_challenge.Wagering.Types.{SubmitInput, SubmitResult}
use jungle_backend_challenge.Wagering.Repository.{pending_row}
use jungle_backend_challenge.Wagering.ProcessWager.{execute, work, pending_input, submit}
use jungle_backend_challenge.Wagering.Keeps.{After, After-bind}
use jungle_backend_challenge.Wagering.Dispatch.{dispatch-After, After-insert_pending}
use jungle_backend_challenge.Wagering.Books.{IsSound}
use jungle_backend_challenge.Wagering.Books.Settled.{IsSettled, IsStarted, IsSettled-Ends}

module _ {D : Type 0} (env : Env D) (laws : IsDecimal env.dec) where
  work-IsSettled :
      (input : SubmitInput) (hash tx_id : String) (w : World)
      → IsSound w.db
      → After
          (IsSettled input tx_id (pending_row (pending_input env input hash tx_id)) w.db)
          (work env input hash tx_id w)
  unfolding work
  work-IsSettled input hash tx_id w h =
      After-bind
        (λ _ db.
          IsStarted (pending_row (pending_input env input hash tx_id)) w.db db
          × (cents input.money.amount < numeric_limit))
        _ _ _ w
        (After-insert_pending _ _ w λ fits _ _. (
          record {
            sound = IsSound-IsFramed.wagers w.db _ h;
            wallets = refl;
            ledger = refl;
            wagers = refl;
          },
          fits,
        ))
        (λ _ w' (started, small).
          dispatch-After (IsSettled-Ends env laws input tx_id _ w.db small) input.kind w' refl
            started)

  pub execute-IsSettled :
      (input i : SubmitInput) (r : SubmitResult) (w : World)
      → IsSound w.db
      → normalize_wager_input env.dec input ≡ ok i
      → (execute env input w).0 ≡ ok r
      → ((r.idempotent_replay ≡ true) × ((execute env input w).1.db ≡ w.db))
        ⊎ IsSettled i
            (env.uuid w.drawn)
            (pending_row (pending_input env i (wager_payload_hash env.sha256 i) (env.uuid w.drawn)))
            w.db
            r
            (execute env input w).1.db
  unfolding execute ◌>>=◌ submit
  execute-IsSettled input i r w h normal e =
      subst
        (λ n.
          ((lift n >>= submit env) w).0 ≡ ok r
          → ((r.idempotent_replay ≡ true) × (((lift n >>= submit env) w).1.db ≡ w.db))
            ⊎ IsSettled i (env.uuid w.drawn)
                (pending_row
                  (pending_input env i (wager_payload_hash env.sha256 i) (env.uuid w.drawn)))
                w.db r ((lift n >>= submit env) w).1.db)
        (sym normal)
        (transactional-ok _ _ (handle_failure-IsReadOnly env i _) _
          (λ r. r.idempotent_replay ≡ true) r (record w { drawn = w.drawn + 1 })
          (work-IsSettled i _ (env.uuid w.drawn) (record w { drawn = w.drawn + 1 }) h)
          (λ t v. handle_failure-replays env i _ r t v))
        e
