-- ===== src/Messaging/SendErrors.antt =====
-- src/messaging/outbox-publisher.ts: `classifySendError` and `backoffSeconds`. A text is searched by
-- code points, and the letters A to Z are those that `toLowerCase` changes.
pub mod Delays
pub mod SlowDown
pub mod Classes
use jungle_backend_challenge.Prelude.{
  ℕ, ◌+◌, ◌^◌, min, Bool, true, false, ◌&&◌, ◌||◌, not, String, codes, truthy, Option, none, some,
  List, [], ◌∷◌, map, leb, nat_eq, if◌then◌else◌,
}
use jungle_backend_challenge.Wagering.Failures.{matches_any, lower, starts_with_codes}
use Prim.Native.String.{◌++◌}

pub data SendFailureReason : Type 0 where
  network throttle permanent : SendFailureReason

-- What `classifySendError` and `messageOf` read of an error.
pub record SendError : Type 0 where
  pub name : Option String
  pub code : Option String
  pub message : Option String
  pub http_status : Option ℕ

abbrev pub text_of : Option String → String
text_of none = ""
text_of (some s) = s

-- `` `${name} ${code} ${message}` ``
unfoldable pub haystack : SendError → String
haystack e = text_of e.name ++ (" " ++ (text_of e.code ++ (" " ++ text_of e.message)))

-- `.?` before "down": one character, which is no line end, or none.
unfoldable pub down_follows : List ℕ → Bool
unfolding starts_with_codes
down_follows [] = false
down_follows (c ∷ s) =
    starts_with_codes (codes "down") (c ∷ s)
    || (not (nat_eq c 10 || (nat_eq c 13 || (nat_eq c 0x2028 || nat_eq c 0x2029)))
        && starts_with_codes (codes "down") s)

-- `slow.?down` from here on
unfoldable pub slow_down_here : List ℕ → Bool
unfolding down_follows
slow_down_here (a ∷ b ∷ c ∷ d ∷ rest) =
    nat_eq a b's' && nat_eq b b'l' && nat_eq c b'o' && nat_eq d b'w' && down_follows rest
slow_down_here _ = false

unfoldable pub slow_down : List ℕ → Bool
unfolding slow_down_here
slow_down [] = false
slow_down (c ∷ s) = slow_down_here (c ∷ s) || slow_down s

-- `/throttl|slow.?down|too many request/i`
unfoldable pub is_throttled : String → Bool
unfolding slow_down lower matches_any
is_throttled text =
    matches_any ("throttl" ∷ "too many request" ∷ []) text || slow_down (map lower (codes text))

abbrev pub network_pieces : List String
network_pieces =
    "econnrefused" ∷ "econnreset" ∷ "timeout" ∷ "timed out" ∷ "socket" ∷ "network" ∷ "eai_again"
    ∷ "fetch failed" ∷ "connection refused" ∷ []

abbrev pub has_status : (ℕ → Bool) → Option ℕ → Bool
has_status test none = false
has_status test (some s) = test s

abbrev pub absent : Option String → Bool
absent none = true
absent (some s) = not (truthy s)

abbrev pub undefined : Option ℕ → Bool
undefined none = true
undefined (some _) = false

unfoldable pub classify_send_error : SendError → SendFailureReason
unfolding haystack is_throttled matches_any
classify_send_error e =
    if has_status (λ s. nat_eq s 429) e.http_status || is_throttled (haystack e)
    then throttle
    else if has_status (λ s. leb 500 s) e.http_status
    then network
    else if matches_any network_pieces (haystack e)
    then network
    else if undefined e.http_status && absent e.name && absent e.code
    then network
    else permanent

-- `Math.min(…, 10)`
unfoldable pub exponent : SendFailureReason → ℕ → ℕ
exponent permanent attempts_before = min (attempts_before + 1) 10
exponent _ attempts_before = min attempts_before 10

unfoldable pub backoff_seconds : SendFailureReason → ℕ → ℕ
unfolding exponent
backoff_seconds reason attempts_before = min 60 (2 ^ exponent reason attempts_before)
