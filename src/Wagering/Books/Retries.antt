-- ===== src/Wagering/Books/Retries.antt =====
-- The books and one row of src/wagering/pending-reference.worker.ts.
use jungle_backend_challenge.Wagering.Atomic.{After-readonly_bind}
use jungle_backend_challenge.Wagering.ProcessWager.{apply_resolved_reversal}
use jungle_backend_challenge.Wagering.Types.{SubmitResult, same_status}
use jungle_backend_challenge.Wagering.Dispatch.{
  IsLocked, IsStored, apply_resolved_reversal-After, resolve_reversal-IsReadOnly,
  resolve_reversal-IsResolved,
}
use jungle_backend_challenge.Wagering.Books.Commands.{IsSound-IsFramed, IsSound-Ends}
use jungle_backend_challenge.Wagering.Books.Frame.{reject_reversal-Keeps}
use jungle_backend_challenge.Wagering.Repository.{wager_id, update_pending_retry, update_wager}
use jungle_backend_challenge.Wagering.Keeps.{After, After-bind, After-ok}
use jungle_backend_challenge.Prelude.{
  false, ◌+◌, ◌*◌, ◌<◌, ◌≡◌, refl, true, String, some, none, update_where, Option, Bool-cases, leb,
  Bool, inl, inr, lt_of_not_leb, ◌≢◌, find, arith, Has,
}
use jungle_backend_challenge.Prelude.Results.{ok}
use jungle_backend_challenge.Domain.Amount.{cents}
use jungle_backend_challenge.Domain.Decimal.{IsDecimal}
use jungle_backend_challenge.Domain.WagerTransaction.{is_reversal, present, processed}
use jungle_backend_challenge.Database.Rows.{Db, WagerRow, WalletRow, numeric_limit}
use jungle_backend_challenge.Database.Tx.{Env, World, pure, ◌>>=◌, ◌>>◌, clock}
use jungle_backend_challenge.Database.Tables.{has_key}
use jungle_backend_challenge.Wagering.PendingReferenceWorker.{
  RetryConfig, RetryOutcome, rejected, rescheduled, input_from_row, delay_seconds, outcome_of,
  give_up, reschedule, settle, process_one,
}
use jungle_backend_challenge.Wagering.Books.{IsSound, wallet_key}

-- The row waits on: one attempt more, which was allowed, due after the delay of that attempt.
abbrev pub waits : RetryConfig → WagerRow → World → WagerRow → WagerRow
waits cfg row w r = record r {
  next_retry_at = some (w.now + delay_seconds cfg (row.reference_attempts + 1) * 1000000);
  reference_attempts = row.reference_attempts + 1;
}

-- What holds after one row.
pub record IsRetried (cfg : RetryConfig) (row : WagerRow) (w : World) (o : RetryOutcome) (db : Db)
    : Type 0 where
  pub sound : IsSound db
  pub allowed : o ≡ rescheduled → row.reference_attempts < cfg.max_attempts
  pub only_waits :
      o ≡ rescheduled
      → db ≡ record w.db {
        wagers = update_where (has_key wager_id row.id) (waits cfg row w) w.db.wagers;
      }

module _ {D : Type 0} (env : Env D) (laws : IsDecimal env.dec) (cfg : RetryConfig)
    (row : WagerRow) where
  give_up-IsRetried :
      (wallet code : String) (w0 w : World)
      → IsSound w.db
      → After (IsRetried cfg row w0) (give_up env cfg row wallet code w)
  unfolding give_up pure
  give_up-IsRetried wallet code w0 w h =
      After-bind (λ _. IsSound) _ _ _ w
        ((reject_reversal-Keeps IsSound-IsFramed env (input_from_row row) row.id wallet code none
            (some cfg.max_attempts)).at
          w h)
        λ _ w' h'. record { sound = h'; allowed = λ e. cc; only_waits = λ e. cc }

  -- The statement of a row that waits on.
  waiting-IsRetried :
      (w : World)
      → IsSound w.db
      → row.reference_attempts < cfg.max_attempts
      → After (IsRetried cfg row w) (
          (do
            now ← clock
            update_pending_retry row.id
                (now + delay_seconds cfg (row.reference_attempts + 1) * 1000000)
                (row.reference_attempts + 1)
            pure rescheduled)
            w)
  unfolding ◌>>=◌ update_pending_retry update_wager
  waiting-IsRetried w h allowed = record {
    sound = IsSound-IsFramed.wagers w.db _ h;
    allowed = λ _. allowed;
    only_waits = λ _. refl;
  }

  reschedule-IsRetried :
      (wallet : WalletRow) (w : World)
      → IsSound w.db
      → After (IsRetried cfg row w) (reschedule env cfg row wallet w)
  unfolding reschedule
  reschedule-IsRetried wallet w h =
      elim (Bool-cases (leb cfg.max_attempts row.reference_attempts)) [
        | inl e ↦ rw e (give_up-IsRetried wallet.id "REFERENCE_NOT_FOUND" w w h)
        | inr e ↦ rw e (waiting-IsRetried w h (lt_of_not_leb _ _ e))
      ]

  module _ (small : cents row.amount_amount < numeric_limit)
      (reversal : is_reversal row.type ≡ true) where
    applied-IsRetried :
        (wallet : WalletRow) (reference : WagerRow) (o : SubmitResult → RetryOutcome) (w : World)
        → ((r : SubmitResult) → o r ≢ rescheduled)
        → IsSound w.db
        → find (has_key wallet_key wallet.id) w.db.wallets ≡ some wallet
        → Has reference w.db.wagers
        → After (IsRetried cfg row w) (
            (do
              result ← apply_resolved_reversal env (input_from_row row) row.id wallet reference
              pure (o result))
              w)
    unfolding pure input_from_row
    applied-IsRetried wallet reference o w not_again h found has =
        After-bind (λ _. IsSound) _ _ _ w
          (apply_resolved_reversal-After (IsSound-Ends env laws (input_from_row row) row.id) wallet
            reference w (h, small) reversal has found)
          λ r w' h'. record {
            sound = h';
            allowed = λ e. absurd (not_again r e);
            only_waits = λ e. absurd (not_again r e);
          }

    settle-IsRetried :
        (wallet : Option WalletRow) (reference : Option WagerRow) (mismatch : Bool) (w : World)
        → IsSound w.db
        → IsLocked w.db wallet
        → IsStored w.db reference
        → After (IsRetried cfg row w) (
            settle env cfg row
              (record {
                wallet_row = wallet;
                reference_row = reference;
                provider_mismatch = mismatch;
              })
              w)
    unfolding settle outcome_of
    settle-IsRetried none reference m w h locked has =
        give_up-IsRetried row.wallet_id "WALLET_NOT_FOUND" w w h
    settle-IsRetried (some wallet) none m w h locked has = reschedule-IsRetried wallet w h
    settle-IsRetried (some wallet) (some r) true w h locked has =
        applied-IsRetried wallet r (λ _. rejected) w (λ _ e. cc) h locked has
    settle-IsRetried (some wallet) (some r) false w h locked has =
        elim (Bool-cases (same_status r.status processed)) [
          | inl e ↦ rw e (applied-IsRetried wallet r outcome_of w outcome_of-final h locked has)
          | inr e ↦ rw e (reschedule-IsRetried wallet w h)
        ]
      where
        outcome_of-final : (r : SubmitResult) → outcome_of r ≢ rescheduled
        outcome_of-final r e = ground arith

    process_one-IsRetried :
        (w : World) → IsSound w.db → After (IsRetried cfg row w) (process_one env cfg row w)
    unfolding process_one
    process_one-IsRetried w h = elim (Bool-cases (present row.reference_external_transaction_id)) [
      | inl e ↦ rw e (
          After-readonly_bind _ _ _ _ w (resolve_reversal-IsReadOnly (input_from_row row))
            (resolve_reversal-IsResolved IsSound (input_from_row row) (λ db k. k.keyed) w h)
            (λ r (h', (locked, has)). settle-IsRetried _ _ _ w h' locked has))
      | inr e ↦ rw e (give_up-IsRetried row.wallet_id "REFERENCE_NOT_FOUND" w w h)
    ]

    -- One reversal that waits for its reference, its amount fitting its column, on sound books: they stay sound, and if the row is
    -- rescheduled, another attempt was allowed and nothing changed but its attempts, one more, and
    -- its time, later by the delay of that attempt.
    pub process_one-ok :
        (o : RetryOutcome) (w : World)
        → IsSound w.db
        → (process_one env cfg row w).0 ≡ ok o
        → IsRetried cfg row w o (process_one env cfg row w).1.db
    process_one-ok o w h e = After-ok _ (process_one env cfg row w) (process_one-IsRetried w h) e
