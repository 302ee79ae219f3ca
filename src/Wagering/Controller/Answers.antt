-- ===== src/Wagering/Controller/Answers.antt =====
-- What the route of a command in src/wagering/wagering.controller.ts answers, and what it leaves.
use jungle_backend_challenge.Database.Rows.{ResultStatus}
use jungle_backend_challenge.Wagering.Controller.Transient.{
  IsTransient, classify-IsTransient, IsTransient-classify,
}
use jungle_backend_challenge.Prelude.{
  ℕ, ◌≡◌, refl, sym, ap, ◌∙◌, subst, Bool-cases, ◌⊎◌, inl, inr, ◌||◌, String, Option,
}
use jungle_backend_challenge.Prelude.Results.{Result, ok, err}
use jungle_backend_challenge.Domain.Errors.{Outcome, Thrown}
use jungle_backend_challenge.Domain.CanonicalJson.{Json}
use jungle_backend_challenge.Database.Tx.{Env, World}
use jungle_backend_challenge.Wagering.Types.{SubmitInput, SubmitResult}
use jungle_backend_challenge.Wagering.ProcessWager.{execute}
use jungle_backend_challenge.Wagering.Atomic.{execute-throws}
use jungle_backend_challenge.Wagering.Submission.{Formats}
use jungle_backend_challenge.Http.{HttpError, service_unavailable, passed, Answer}
use jungle_backend_challenge.Wagering.Controller.{
  is_transient_error, is_infrastructure, answer_failure, success_status, answered, read_request,
  submit_read, submit,
}

-- What a failure is answered with.
pub data IsFailureAnswer (e : Thrown) : HttpError → Type 0 where
  retry : IsTransient e → IsFailureAnswer e (service_unavailable "TRANSIENT_INFRASTRUCTURE")
  permanent : ¬ IsTransient e → IsFailureAnswer e (passed e)

-- The status of a result.
pub data IsSuccessStatus : ResultStatus → ℕ → Type 0 where
  pending : IsSuccessStatus ResultStatus.pending 202
  processed : IsSuccessStatus ResultStatus.processed 200
  rejected : IsSuccessStatus ResultStatus.rejected 200

answer_failure-IsFailureAnswer : (e : Thrown) → IsFailureAnswer e (answer_failure e)
unfolding answer_failure
answer_failure-IsFailureAnswer e = elim (Bool-cases (is_infrastructure e || is_transient_error e)) [
  | inl lost ↦ rw lost (retry (classify-IsTransient e lost))
  | inr kept ↦ rw kept (permanent (λ t. cc (IsTransient-classify e t)))
]

success_status-IsSuccessStatus :
    (r : SubmitResult) (s : ResultStatus)
    → r.response.status ≡ s
    → IsSuccessStatus s (success_status r)
unfolding success_status
success_status-IsSuccessStatus r ResultStatus.pending e = rw e pending
success_status-IsSuccessStatus r ResultStatus.processed e = rw e processed
success_status-IsSuccessStatus r ResultStatus.rejected e = rw e rejected

module _ {D : Type 0} (env : Env D) where
  -- The command threw, its error is answered, and the tables are as they were; or it returned, and
  -- its result is the body.
  pub data IsAnswered (input : SubmitInput) (w : World)
      : Result HttpError (Answer SubmitResult) × World → Type 0 where
    threw :
        (e : Thrown) (answer : HttpError) (w' : World)
        → (execute env input w).0 ≡ err e
        → IsFailureAnswer e answer
        → w'.db ≡ w.db
        → IsAnswered input w (err answer, w')
    returned :
        (result : SubmitResult) (status : ℕ)
        → (execute env input w).0 ≡ ok result
        → IsSuccessStatus result.response.status status
        → IsAnswered input w
            (ok (record { status = status; body = result }), (execute env input w).1)

  executed : (input : SubmitInput) (w : World) → IsAnswered input w (answered (execute env input w))
  unfolding answered
  executed input w = go (execute env input w) refl
    where
      go :
          (r : Outcome SubmitResult × World)
          → execute env input w ≡ r
          → IsAnswered input w (answered r)
      go (ok result, v) e =
          subst
            (λ u.
              IsAnswered input w (ok (record { status = success_status result; body = result }), u))
            (ap (λ (x : Outcome SubmitResult × World). x.1) e)
            (returned result (success_status result)
              (ap (λ (x : Outcome SubmitResult × World). x.0) e)
              (success_status-IsSuccessStatus result result.response.status refl))
      go (err t, v) e =
          threw t (answer_failure t) v (ap (λ (x : Outcome SubmitResult × World). x.0) e)
            (answer_failure-IsFailureAnswer t)
            (ap (λ (x : Outcome SubmitResult × World). x.1.db) (sym e)
              ∙ execute-throws env input t w (ap (λ (x : Outcome SubmitResult × World). x.0) e))

  -- A request that cannot be read is refused with what its reading threw, and nothing is touched.
  -- For one that can be read, if its command throws, the tables are as they were, and the answer is
  -- 503 if the error is wrapped as a failure of the infrastructure, or if it or a cause of it has one
  -- of six SQLSTATEs or a message that mentions a lost connection, in whatever case; any other error
  -- is passed on. If its command returns, the result is the body, with 202 if it is pending and 200
  -- if not.
  pub submit_lem :
      (fmt : Formats) (key correlation_id : Option String) (body : Json) (w : World)
      → ((e : Thrown) × (read_request env fmt key correlation_id body ≡ err e)
          × (submit env fmt key correlation_id body w ≡ (err (passed e), w)))
        ⊎ ((input : SubmitInput) × (read_request env fmt key correlation_id body ≡ ok input)
            × IsAnswered input w (submit env fmt key correlation_id body w))
  unfolding submit submit_read
  submit_lem fmt key correlation_id body w = go (read_request env fmt key correlation_id body)
    where
      go :
          (r : Outcome SubmitInput)
          → ((e : Thrown) × (r ≡ err e) × (submit_read env fmt r w ≡ (err (passed e), w)))
            ⊎ ((input : SubmitInput) × (r ≡ ok input)
                × IsAnswered input w (submit_read env fmt r w))
      go (err e) = inl (e, refl, refl)
      go (ok input) = inr (input, refl, executed input w)
