-- ===== src/Wagering/Controller/Transient.antt =====
-- The failures that src/wagering/wagering.controller.ts takes for passing ones of the
-- infrastructure, described without the search that decides it.
use jungle_backend_challenge.Prelude.{
  ◌≡◌, refl, sym, subst, inl, inr, Bool, true, ◌||◌, String, ◌==◌, eq_iff, Option, none, some, List,
  [], ◌∷◌, any, Has, here, there, arith, Bool-cases,
}
use jungle_backend_challenge.Domain.Errors.{
  Thrown, domain, unprocessable, conflict, infrastructure, failure, driver, driver_caused,
  domain_error_code, ErrorInfo,
}
use jungle_backend_challenge.Wagering.Failures.{
  matches_any, domain_error_message, or_else, one_of, message_matches, transient_messages, classify,
}
use jungle_backend_challenge.Wagering.Controller.Losses.{
  Mentions, matches-Mentions, Mentions-matches,
}
use jungle_backend_challenge.Wagering.Controller.{
  request_states, is_transient_error, is_infrastructure,
}

-- The SQLSTATEs of a transaction that may be tried again.
pub data IsTransientState : String → Type 0 where
  serialization_failure : IsTransientState "40001"
  connection_exception : IsTransientState "08000"
  connection_does_not_exist : IsTransientState "08003"
  connection_failure : IsTransientState "08006"
  admin_shutdown : IsTransientState "57P01"
  cannot_connect_now : IsTransientState "57P03"

abbrev pub code_of : Thrown → Option String
code_of (domain e) = some (domain_error_code e)
code_of (infrastructure cause) = some "TRANSIENT_INFRASTRUCTURE"
code_of (driver i) = or_else i.code i.sql_state
code_of (driver_caused i cause) = or_else i.code i.sql_state
code_of _ = none

abbrev pub message_of : Thrown → Option String
message_of (domain e) = some (domain_error_message e)
message_of (unprocessable code message) = or_else message (some "Unprocessable Entity Exception")
message_of (conflict code message) = some message
message_of (infrastructure cause) = some "wager processing is temporarily unavailable"
message_of (failure message) = some message
message_of (driver i) = i.message
message_of (driver_caused i cause) = i.message

-- The error or a cause of it has such a state or such a message.
pub data IsPassing : Thrown → Type 0 where
  by_state :
      {e : Thrown} (state : String) → code_of e ≡ some state → IsTransientState state → IsPassing e
  by_message : {e : Thrown} (text : String) → message_of e ≡ some text → Mentions text → IsPassing e
  caused : {cause : Thrown} → IsPassing cause → IsPassing (infrastructure cause)
  caused_driver :
      {i : ErrorInfo} {cause : Thrown} → IsPassing cause → IsPassing (driver_caused i cause)

-- It is wrapped as a failure of the infrastructure, or passing.
pub data IsTransient : Thrown → Type 0 where
  tagged : {cause : Thrown} → IsTransient (infrastructure cause)
  passing : {e : Thrown} → IsPassing e → IsTransient e

any-Has : (c : String) (keys : List String) → any (λ k. c == k) keys ≡ true → Has c keys
any-Has c [] h = ground arith
any-Has c (k ∷ keys) h = elim (Bool-cases (c == k)) [
  | inl e ↦ here ((eq_iff c k).0 e)
  | inr e ↦ there (any-Has c keys (ground arith))
]

Has-IsTransientState : (s : String) → Has s request_states → IsTransientState s
Has-IsTransientState s (here e) = subst IsTransientState (sym e) serialization_failure
Has-IsTransientState s (there (here e)) = subst IsTransientState (sym e) connection_exception
Has-IsTransientState s (there (there (here e))) =
    subst IsTransientState (sym e) connection_does_not_exist
Has-IsTransientState s (there (there (there (here e)))) =
    subst IsTransientState (sym e) connection_failure
Has-IsTransientState s (there (there (there (there (here e))))) =
    subst IsTransientState (sym e) admin_shutdown
Has-IsTransientState s (there (there (there (there (there (here e)))))) =
    subst IsTransientState (sym e) cannot_connect_now
Has-IsTransientState s (there (there (there (there (there (there h)))))) = elim h [ ]

state-one_of : {s : String} → IsTransientState s → one_of request_states (some s) ≡ true
state-one_of serialization_failure = refl
state-one_of connection_exception = refl
state-one_of connection_does_not_exist = refl
state-one_of connection_failure = refl
state-one_of admin_shutdown = refl
state-one_of cannot_connect_now = refl

-- What an error shows itself, its causes aside.
module _ (e : Thrown) where
  own-IsPassing :
      (code : Option String)
      → code_of e ≡ code
      → (message : Option String) → message_of e ≡ message
      → (one_of request_states code || message_matches transient_messages message) ≡ true
      → IsPassing e
  own-IsPassing none c none m h = ground arith
  own-IsPassing none c (some text) m h = by_message text m (matches-Mentions text h)
  own-IsPassing (some s) c message m h = elim (Bool-cases (one_of request_states (some s))) [
    | inl state ↦ by_state s c (Has-IsTransientState s (any-Has s request_states state))
    | inr other ↦ said message m (ground arith)
  ]
    where
      said :
          (message : Option String)
          → message_of e ≡ message
          → message_matches transient_messages message ≡ true
          → IsPassing e
      said none m h = ground arith
      said (some text) m h = by_message text m (matches-Mentions text h)

classify-IsPassing :
    (e : Thrown) → classify request_states transient_messages e ≡ true → IsPassing e
unfolding classify
classify-IsPassing (domain e) h = own-IsPassing (domain e) _ refl _ refl h
classify-IsPassing (unprocessable code message) h =
    own-IsPassing (unprocessable code message) none refl _ refl h
classify-IsPassing (conflict code message) h =
    own-IsPassing (conflict code message) none refl _ refl h
classify-IsPassing (failure message) h = own-IsPassing (failure message) none refl _ refl h
classify-IsPassing (driver i) h = own-IsPassing (driver i) _ refl _ refl h
classify-IsPassing (infrastructure cause) h =
    elim (Bool-cases (classify request_states transient_messages cause)) [
      | inl lost ↦ caused (classify-IsPassing cause lost)
      | inr kept ↦ own-IsPassing (infrastructure cause) _ refl _ refl (ground arith)
    ]
classify-IsPassing (driver_caused i cause) h =
    elim (Bool-cases (classify request_states transient_messages cause)) [
      | inl lost ↦ caused_driver (classify-IsPassing cause lost)
      | inr kept ↦ own-IsPassing (driver_caused i cause) _ refl _ refl (ground arith)
    ]

or-between : (a b c : Bool) → (a || c) ≡ true → (a || b || c) ≡ true
or-between a b c h = ground (arith, h)

own-classify :
    (e : Thrown)
    → (one_of request_states (code_of e) || message_matches transient_messages (message_of e))
      ≡ true
    → classify request_states transient_messages e ≡ true
unfolding classify
own-classify (domain d) h = h
own-classify (unprocessable code message) h = h
own-classify (conflict code message) h = h
own-classify (failure message) h = h
own-classify (driver i) h = h
own-classify (infrastructure cause) h =
    or-between (one_of request_states (code_of (infrastructure cause)))
      (classify request_states transient_messages cause)
      (message_matches transient_messages (message_of (infrastructure cause))) h
own-classify (driver_caused i cause) h =
    or-between (one_of request_states (code_of (driver_caused i cause)))
      (classify request_states transient_messages cause)
      (message_matches transient_messages (message_of (driver_caused i cause))) h

shows-state :
    (code message : Option String) (s : String)
    → code ≡ some s
    → one_of request_states (some s) ≡ true
    → (one_of request_states code || message_matches transient_messages message) ≡ true
shows-state code message s c h = rw c (rw h refl)

shows-message :
    (code message : Option String) (text : String)
    → message ≡ some text
    → matches_any transient_messages text ≡ true
    → (one_of request_states code || message_matches transient_messages message) ≡ true
shows-message code message text m h =
    rw m (elim (Bool-cases (one_of request_states code)) [
      | inl e ↦ rw e refl
      | inr e ↦ rw (e, h) refl
    ])

IsPassing-classify :
    {e : Thrown} → IsPassing e → classify request_states transient_messages e ≡ true
unfolding classify
IsPassing-classify {e} (by_state state c s) =
    own-classify e (shows-state (code_of e) (message_of e) state c (state-one_of s))
IsPassing-classify {e} (by_message text m says) =
    own-classify e (shows-message (code_of e) (message_of e) text m (Mentions-matches text says))
IsPassing-classify (caused p) = ground (arith, IsPassing-classify p)
IsPassing-classify (caused_driver p) = ground (arith, IsPassing-classify p)

pub classify-IsTransient :
    (e : Thrown) → (is_infrastructure e || is_transient_error e) ≡ true → IsTransient e
unfolding is_transient_error
classify-IsTransient (infrastructure cause) h = tagged
classify-IsTransient (domain d) h = passing (classify-IsPassing (domain d) h)
classify-IsTransient (unprocessable c m) h = passing (classify-IsPassing (unprocessable c m) h)
classify-IsTransient (conflict c m) h = passing (classify-IsPassing (conflict c m) h)
classify-IsTransient (failure m) h = passing (classify-IsPassing (failure m) h)
classify-IsTransient (driver i) h = passing (classify-IsPassing (driver i) h)
classify-IsTransient (driver_caused i c) h = passing (classify-IsPassing (driver_caused i c) h)

pub IsTransient-classify :
    (e : Thrown) → IsTransient e → (is_infrastructure e || is_transient_error e) ≡ true
unfolding is_transient_error
IsTransient-classify _ tagged = refl
IsTransient-classify e (passing p) = ground (arith, IsPassing-classify p)
