-- ===== src/Messaging/SendErrors/Classes.antt =====
-- `classifySendError` of src/messaging/outbox-publisher.ts, described without the searches that
-- decide it.
use jungle_backend_challenge.Prelude.{
  ℕ, ◌≤◌, ◌≡◌, refl, ap, subst, inl, inr, ◌∙◌, if◌then◌else◌, Bool, true, false, ◌||◌, ◌&&◌, String,
  codes, Option, none, some, [], ◌∷◌, map, arith, Bool-cases, Has, nat_eq, leb,
}
use jungle_backend_challenge.Wagering.Failures.{lower, matches_any}
use jungle_backend_challenge.Wagering.Failures.Search.{Says, matches_any-Says, Says-matches_any}
use jungle_backend_challenge.Messaging.SendErrors.SlowDown.{
  IsSlowDown, slow_down-IsSlowDown, spread-slow_down,
}
use jungle_backend_challenge.Messaging.SendErrors.{
  SendError, SendFailureReason, network, throttle, permanent, haystack, slow_down, is_throttled,
  network_pieces, has_status, absent, undefined, classify_send_error,
}

-- The broker asks for fewer requests.
pub data IsThrottled (e : SendError) : Type 0 where
  by_status : e.http_status ≡ some 429 → IsThrottled e
  by_words :
      (piece : String)
      → Has piece ("throttl" ∷ "too many request" ∷ [])
      → Says piece (haystack e)
      → IsThrottled e
  by_slow_down : IsSlowDown (map lower (codes (haystack e))) → IsThrottled e

pub data IsBlank : Option String → Type 0 where
  missing : IsBlank none
  empty : IsBlank (some "")

-- The network or the broker fails, or the error says nothing of itself.
pub data IsNetwork (e : SendError) : Type 0 where
  by_server : (status : ℕ) → e.http_status ≡ some status → 500 ≤ status → IsNetwork e
  by_words : (piece : String) → Has piece network_pieces → Says piece (haystack e) → IsNetwork e
  by_silence : e.http_status ≡ none → IsBlank e.name → IsBlank e.code → IsNetwork e

pub data IsClassified (e : SendError) : SendFailureReason → Type 0 where
  throttled : IsThrottled e → IsClassified e throttle
  unreachable : ¬ IsThrottled e → IsNetwork e → IsClassified e network
  refused : ¬ IsThrottled e → ¬ IsNetwork e → IsClassified e permanent

or-right : (a b : Bool) → a ≡ false → (a || b) ≡ true → b ≡ true
or-right a b unset h = ground arith

or-first : (a b : Bool) → a ≡ true → (a || b) ≡ true
or-first a b h = ground arith

or-true : (a b : Bool) → b ≡ true → (a || b) ≡ true
or-true a b h = ground arith

is_throttled-words : (e : SendError) → is_throttled (haystack e) ≡ true → IsThrottled e
unfolding is_throttled
is_throttled-words e h =
    elim (Bool-cases (matches_any ("throttl" ∷ "too many request" ∷ []) (haystack e))) [
      | inl words ↦
          let (piece, has, says) = matches_any-Says _ (haystack e) words in by_words piece has says
      | inr other ↦ by_slow_down (slow_down-IsSlowDown _ (or-right _ _ other h))
    ]

is_throttle-IsThrottled :
    (e : SendError)
    → (has_status (λ s. nat_eq s 429) e.http_status || is_throttled (haystack e)) ≡ true
    → IsThrottled e
is_throttle-IsThrottled e h = go e.http_status refl h
  where
    go :
        (status : Option ℕ)
        → e.http_status ≡ status
        → (has_status (λ s. nat_eq s 429) status || is_throttled (haystack e)) ≡ true
        → IsThrottled e
    go none k h = is_throttled-words e h
    go (some s) k h = elim (Bool-cases (nat_eq s 429)) [
      | inl same ↦ by_status (k ∙ ap some (ground arith))
      | inr other ↦ is_throttled-words e (or-right _ _ other h)
    ]

IsThrottled-is_throttle :
    (e : SendError)
    → IsThrottled e
    → (has_status (λ s. nat_eq s 429) e.http_status || is_throttled (haystack e)) ≡ true
unfolding is_throttled
IsThrottled-is_throttle e (by_status k) = rw k refl
IsThrottled-is_throttle e (by_words piece has says) =
    or-true _ _ (or-first _ _ (Says-matches_any _ piece (haystack e) has says))
IsThrottled-is_throttle e (by_slow_down s) = or-true _ _ (
    or-true _ _
      (subst (λ l. slow_down l ≡ true) s.whole (spread-slow_down s.before s.gap s.after s.short)))

absent-IsBlank : (o : Option String) → absent o ≡ true → IsBlank o
absent-IsBlank none h = missing
absent-IsBlank (some String.[]) h = empty
absent-IsBlank (some (String.◌∷◌ c s)) h = ground arith

IsBlank-absent : {o : Option String} → IsBlank o → absent o ≡ true
IsBlank-absent missing = refl
IsBlank-absent empty = refl

undefined-none : (o : Option ℕ) → undefined o ≡ true → o ≡ none
undefined-none none h = refl
undefined-none (some s) h = ground arith

server-IsNetwork :
    (e : SendError) (status : Option ℕ)
    → e.http_status ≡ status
    → has_status (λ s. leb 500 s) status ≡ true
    → IsNetwork e
server-IsNetwork e none k h = ground arith
server-IsNetwork e (some s) k h = by_server s k (ground arith)

abbrev is_server : SendError → Bool
is_server e = has_status (λ s. leb 500 s) e.http_status

abbrev is_silent : SendError → Bool
is_silent e = undefined e.http_status && absent e.name && absent e.code

abbrev is_network : SendError → Bool
is_network e = is_server e || (matches_any network_pieces (haystack e) || is_silent e)

server-true : (e : SendError) (s : ℕ) → e.http_status ≡ some s → 500 ≤ s → is_server e ≡ true
server-true e s k h = rw k (ground arith)

silent-true :
    (e : SendError) → e.http_status ≡ none → IsBlank e.name → IsBlank e.code → is_silent e ≡ true
silent-true e k n c = rw k (rw (IsBlank-absent n, IsBlank-absent c) refl)

IsNetwork-is_network : (e : SendError) → IsNetwork e → is_network e ≡ true
IsNetwork-is_network e (by_server s k h) =
    or-first (is_server e) (matches_any network_pieces (haystack e) || is_silent e)
      (server-true e s k h)
IsNetwork-is_network e (by_words piece has says) =
    or-true (is_server e) (matches_any network_pieces (haystack e) || is_silent e) (
      or-first (matches_any network_pieces (haystack e)) (is_silent e)
        (Says-matches_any network_pieces piece (haystack e) has says))
IsNetwork-is_network e (by_silence k n c) =
    or-true (is_server e) (matches_any network_pieces (haystack e) || is_silent e)
      (or-true (matches_any network_pieces (haystack e)) (is_silent e) (silent-true e k n c))

pub classify_send_error-IsClassified : (e : SendError) → IsClassified e (classify_send_error e)
unfolding classify_send_error
classify_send_error-IsClassified e =
    elim (Bool-cases (has_status (λ s. nat_eq s 429) e.http_status || is_throttled (haystack e))) [
      | inl slow ↦ rw slow (throttled (is_throttle-IsThrottled e slow))
      | inr free ↦ rw free (others (λ t. differ free (IsThrottled-is_throttle e t)))
    ]
  where
    differ : {b : Bool} → b ≡ false → b ≡ true → ⊥
    differ unset set = cc

    others :
        ¬ IsThrottled e
        → IsClassified e (
            if has_status (λ s. leb 500 s) e.http_status
            then network
            else if matches_any network_pieces (haystack e)
            then network
            else if undefined e.http_status && absent e.name && absent e.code
            then network
            else permanent)
    others free = elim (Bool-cases (has_status (λ s. leb 500 s) e.http_status)) [
      | inl server ↦ rw server (unreachable free (server-IsNetwork e e.http_status refl server))
      | inr up ↦ elim (Bool-cases (matches_any network_pieces (haystack e))) [
        | inl words ↦
            let (piece, has, says) = matches_any-Says network_pieces (haystack e) words in
            rw (up, words) (unreachable free (by_words piece has says))
        | inr none_said ↦
            elim (Bool-cases (undefined e.http_status && absent e.name && absent e.code)) [
              | inl silent ↦
                  rw (up, none_said, silent)
                    (unreachable free (
                      by_silence (undefined-none _ (ground arith)) (absent-IsBlank _ (ground arith))
                        (absent-IsBlank _ (ground arith))))
              | inr shaped ↦
                  rw (up, none_said, shaped)
                    (refused free
                      (λ n. differ (rw (up, none_said, shaped) refl) (IsNetwork-is_network e n)))
            ]
      ]
    ]
