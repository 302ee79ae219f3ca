-- ===== src/Wagering/Batch.antt =====
-- The loop of src/wagering/pending-reference.worker.ts.
use jungle_backend_challenge.Database.Rows.{WagerRow}
use jungle_backend_challenge.Prelude.{
  ℕ, zero, suc, ◌+◌, ◌≡◌, refl, sym, ap, ◌∙◌, subst, Option, none, some, ◌⊎◌, inl, inr, arith, ◌≢◌,
}
use jungle_backend_challenge.Prelude.Results.{ok, err}
use jungle_backend_challenge.Domain.Errors.{Outcome}
use jungle_backend_challenge.Database.Tx.{Env, World, Tx, ◌>>=◌, pure, transactional}
use jungle_backend_challenge.Wagering.PendingReferenceWorker.{
  RetryConfig, RetryOutcome, resolved, rejected, rescheduled, Counts, count, first_due,
  find_pending_reference, process_one, process_next, process_batch,
}

abbrev pub counted : Counts → ℕ
counted c = c.resolved_rows + c.rejected_rows + c.rescheduled_rows

counted-count : (o : RetryOutcome) (c : Counts) → counted (count o c) ≡ counted c + 1
unfolding count
counted-count resolved c = omega arith
counted-count rejected c = omega arith
counted-count rescheduled c = omega arith

-- A row of the batch counts, and the lack of one leaves the world as it was.
module _ {D : Type 0} (env : Env D) (cfg : RetryConfig) where
  transactional-none :
      (m : Tx RetryOutcome) (w : World)
      → (transactional (do outcome ← m; pure (some outcome)) w).0 ≢ ok none
  unfolding transactional ◌>>=◌
  transactional-none m w = go (m w)
    where
      go :
          (r : Outcome RetryOutcome × World)
          → (transactional (do outcome ← (λ _. r); pure (some outcome)) w).0 ≢ ok none
      go (ok o, w') e = ground arith
      go (err t, w') e = cc

  -- The transaction of the row that is due, if there is one.
  abbrev retry : Option WagerRow → Tx (Option RetryOutcome)
  retry none = pure none
  retry (some row) = do outcome ← process_one env cfg row; pure (some outcome)

  retry-none :
      (due : Option WagerRow) (w : World)
      → (transactional (retry due) w).0 ≡ ok none
      → (due ≡ none) × ((transactional (retry due) w).1 ≡ w)
  unfolding transactional pure
  retry-none none w e = (refl, refl)
  retry-none (some row) w e = absurd (transactional-none (process_one env cfg row) w e)

  process_next-none :
      (w : World)
      → (process_next env cfg w).0 ≡ ok none
      → (first_due w.now w.db.wagers ≡ none) × ((process_next env cfg w).1 ≡ w)
  unfolding process_next find_pending_reference ◌>>=◌ transactional
  process_next-none w e = retry-none (first_due w.now w.db.wagers) w e

  pub process_batch-exhausts :
      (left : ℕ) (c c' : Counts) (w : World)
      → (process_batch env cfg left c w).0 ≡ ok c'
      → (counted c' ≡ counted c + left)
        ⊎ (first_due
              (process_batch env cfg left c w).1.now
              (process_batch env cfg left c w).1.db.wagers
            ≡ none)
  unfolding process_batch ◌>>=◌
  process_batch-exhausts zero c c' w e = inl (ground arith)
  process_batch-exhausts (suc left) c c' w e =
      go (process_next env cfg w) (process_next-none w) e
        (λ o w' e'. process_batch-exhausts left (count o c) c' w' e')
    where
      rest : Option RetryOutcome → Tx Counts
      rest none = pure c
      rest (some o) = process_batch env cfg left (count o c)

      go :
          (r : Outcome (Option RetryOutcome) × World)
          → (r.0 ≡ ok none → (first_due w.now w.db.wagers ≡ none) × (r.1 ≡ w))
          → (((λ _. r) >>= rest) w).0 ≡ ok c'
          → ((o : RetryOutcome) (w' : World)
              → (process_batch env cfg left (count o c) w').0 ≡ ok c'
              → (counted c' ≡ counted (count o c) + left)
                ⊎ (first_due
                      (process_batch env cfg left (count o c) w').1.now
                      (process_batch env cfg left (count o c) w').1.db.wagers
                    ≡ none))
          → (counted c' ≡ counted c + suc left)
            ⊎ (first_due (((λ _. r) >>= rest) w).1.now (((λ _. r) >>= rest) w).1.db.wagers ≡ none)
      go (ok none, w') quiet e' k = inr (
          subst (λ (v : World). first_due v.now v.db.wagers ≡ none) (sym (quiet refl).1)
            (quiet refl).0)
      go (ok (some o), w') quiet e' k = elim (k o w' e') [
        | inl same ↦ inl (same ∙ ap (λ n. n + left) (counted-count o c) ∙ omega arith)
        | inr no_more ↦ inr no_more
      ]
      go (err t, w') quiet e' k = cc
