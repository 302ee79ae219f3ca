-- ===== src/Messaging/SendErrors/Delays.antt =====
-- `backoffSeconds` of src/messaging/outbox-publisher.ts: its values and its bounds.
use jungle_backend_challenge.Prelude.{
  ℕ, zero, suc, ◌+◌, ◌^◌, ◌≤◌, ◌<◌, ◌≡◌, refl, min, leb, if◌then◌else◌, arith, inl, inr, Bool-cases,
}
use jungle_backend_challenge.Messaging.SendErrors.{
  SendFailureReason, network, throttle, permanent, exponent, backoff_seconds,
}

pow-pos : (k : ℕ) → 1 ≤ 2 ^ k
pow-pos zero = omega arith
pow-pos (suc k) = omega (arith, pow-pos k)

pow_mono : (m n : ℕ) → m ≤ n → 2 ^ m ≤ 2 ^ n
pow_mono zero n h = pow-pos n
pow_mono (suc m) zero h = elim h [ ]
pow_mono (suc m) (suc n) h = omega (arith, pow_mono m n (omega arith))

-- How many doublings the reason asks for.
abbrev pub doublings : SendFailureReason → ℕ → ℕ
doublings permanent n = n + 1
doublings _ n = n

few_doublings : (n : ℕ) → n ≤ 5 → min 60 (2 ^ min n 10) ≡ 2 ^ n
few_doublings n h = let e : min n 10 ≡ n = omega arith in rw e (omega (arith, pow_mono n 5 h))

many_doublings : (n : ℕ) → 5 < n → min 60 (2 ^ min n 10) ≡ 60
many_doublings n h = omega (arith, pow_mono 6 (min n 10) (omega arith))

capped : (n : ℕ) → min 60 (2 ^ min n 10) ≡ (if leb n 5 then 2 ^ n else 60)
capped n = elim (Bool-cases (leb n 5)) [
  | inl few ↦ rw few (few_doublings n (ground arith))
  | inr many ↦ rw many (many_doublings n (ground arith))
]

exponent-doublings :
    (reason : SendFailureReason) (n : ℕ) → exponent reason n ≡ min (doublings reason n) 10
unfolding exponent
exponent-doublings network n = refl
exponent-doublings throttle n = refl
exponent-doublings permanent n = refl

exponent_grows : (reason : SendFailureReason) (n : ℕ) → exponent reason n ≤ exponent reason (n + 1)
unfolding exponent
exponent_grows network n = omega arith
exponent_grows throttle n = omega arith
exponent_grows permanent n = omega arith

-- The delay doubles with the attempts until a minute caps it, one doubling ahead for a permanent
-- failure; it is at least a second, at most a minute, and never falls with another attempt.
pub backoff_bounds :
    (reason : SendFailureReason) (attempts : ℕ)
    → (backoff_seconds reason attempts
        ≡ (if leb (doublings reason attempts) 5 then 2 ^ doublings reason attempts else 60))
      × (1 ≤ backoff_seconds reason attempts)
      × (backoff_seconds reason attempts ≤ 60)
      × (backoff_seconds reason attempts ≤ backoff_seconds reason (attempts + 1))
unfolding backoff_seconds
backoff_bounds reason n = (
  rw (exponent-doublings reason n) (capped (doublings reason n)),
  omega (arith, pow-pos (exponent reason n)),
  omega arith,
  omega (arith, pow_mono (exponent reason n) (exponent reason (n + 1)) (exponent_grows reason n)),
)
