-- ===== src/Messaging/Publisher/PutOff.antt =====
-- How long `rescheduleAfterFailure` of src/messaging/outbox-publisher.ts puts a row off.
use jungle_backend_challenge.Prelude.{
  ℕ, ◌+◌, ◌*◌, ◌^◌, ◌≤◌, ◌<◌, sym, subst, leb, inl, inr, Bool-cases, arith,
}
use jungle_backend_challenge.Messaging.SendErrors.{
  SendFailureReason, network, throttle, permanent, backoff_seconds,
}
use jungle_backend_challenge.Messaging.SendErrors.Delays.{doublings, backoff_bounds}
use jungle_backend_challenge.Messaging.Publisher.{PublisherConfig, retry_delay}

-- A failure that is permanent, with no attempt left.
abbrev pub IsGivenUp : PublisherConfig → SendFailureReason → ℕ → Type 0
IsGivenUp cfg permanent attempts = cfg.max_attempts ≤ attempts + 1
IsGivenUp cfg _ attempts = ⊥

-- The seconds until the next attempt, after so many: a day if the row is given up, or else a second,
-- doubled with each attempt, once more if the failure is permanent, and a minute at most.
pub data IsPutOff (cfg : PublisherConfig) (reason : SendFailureReason) (attempts : ℕ)
    : ℕ → Type 0 where
  for_a_day : IsGivenUp cfg reason attempts → IsPutOff cfg reason attempts (24 * 60 * 60)
  doubled :
      ¬ IsGivenUp cfg reason attempts
      → doublings reason attempts ≤ 5
      → IsPutOff cfg reason attempts (2 ^ doublings reason attempts)
  for_a_minute :
      ¬ IsGivenUp cfg reason attempts
      → 5 < doublings reason attempts
      → IsPutOff cfg reason attempts 60

backed_off :
    (cfg : PublisherConfig) (reason : SendFailureReason) (attempts : ℕ)
    → ¬ IsGivenUp cfg reason attempts
    → IsPutOff cfg reason attempts (backoff_seconds reason attempts)
backed_off cfg reason attempts retried =
    subst (IsPutOff cfg reason attempts) (sym (backoff_bounds reason attempts).0)
      (elim (Bool-cases (leb (doublings reason attempts) 5)) [
        | inl few ↦ rw few (doubled retried (ground arith))
        | inr many ↦ rw many (for_a_minute retried (ground arith))
      ])

pub retry_delay-IsPutOff :
    (cfg : PublisherConfig) (reason : SendFailureReason) (attempts : ℕ)
    → IsPutOff cfg reason attempts (retry_delay cfg reason attempts)
unfolding retry_delay
retry_delay-IsPutOff cfg network attempts = backed_off cfg network attempts (λ h. h)
retry_delay-IsPutOff cfg throttle attempts = backed_off cfg throttle attempts (λ h. h)
retry_delay-IsPutOff cfg permanent attempts =
    elim (Bool-cases (leb cfg.max_attempts (attempts + 1))) [
      | inl last ↦ rw last (for_a_day (ground arith))
      | inr more ↦ rw more (backed_off cfg permanent attempts (λ h. ground arith))
    ]
