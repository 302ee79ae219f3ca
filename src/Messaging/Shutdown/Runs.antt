-- ===== src/Messaging/Shutdown/Runs.antt =====
-- The coordinator of src/messaging/consumer-shutdown.ts under any sequence of calls.
use jungle_backend_challenge.Prelude.{
  ℕ, ◌+◌, ◌-◌, ◌<◌, ◌≡◌, refl, sym, ap, ◌∙◌, ◌⊎◌, inl, inr, Bool, true, false, ◌||◌, List, [], ◌∷◌,
  ◌++◌, leb, nat_eq, Bool-cases, arith,
}
use mathlib.Core.List.{append_assoc, append-nil}
use jungle_backend_challenge.Messaging.Shutdown.{
  Coordinator, signal_shutdown, begin_work, end_work, wait_for_drained,
}

pub data Call : Type 0 where
  signal begin finish : Call
  wait : ℕ → Call

unfoldable pub call : Call → Coordinator → Coordinator
unfolding signal_shutdown begin_work end_work wait_for_drained
call signal c = signal_shutdown c
call begin c = begin_work c
call finish c = end_work c
call (wait n) c = wait_for_drained n c

unfoldable pub calls : List Call → Coordinator → Coordinator
unfolding call
calls [] c = c
calls (x ∷ xs) c = calls xs (call x c)

abbrev pub idle : Coordinator
idle = record { shutting_down = false; inflight = 0; waiting = []; drained = [] }

-- Those who have waited, in the order of their calls.
abbrev pub waits : List Call → List ℕ
waits [] = []
waits (wait n ∷ xs) = n ∷ waits xs
waits (signal ∷ xs) = waits xs
waits (begin ∷ xs) = waits xs
waits (finish ∷ xs) = waits xs

abbrev pub signals : List Call → Bool
signals [] = false
signals (signal ∷ xs) = true
signals (wait n ∷ xs) = signals xs
signals (begin ∷ xs) = signals xs
signals (finish ∷ xs) = signals xs

-- The work in flight after the calls, from so much: an end without a beginning counts for nothing.
abbrev pub in_flight : ℕ → List Call → ℕ
in_flight n [] = n
in_flight n (begin ∷ xs) = in_flight (n + 1) xs
in_flight n (finish ∷ xs) = in_flight (n - 1) xs
in_flight n (signal ∷ xs) = in_flight n xs
in_flight n (wait _ ∷ xs) = in_flight n xs

-- Nobody waits while nothing is in flight.
abbrev pub IsServed : Coordinator → Type 0
IsServed c = (c.waiting ≡ []) ⊎ (0 < c.inflight)

record Agrees (xs : List Call) (c d : Coordinator) : Type 0 where
  told : d.drained ++ d.waiting ≡ (c.drained ++ c.waiting) ++ waits xs
  served : IsServed d
  count : d.inflight ≡ in_flight c.inflight xs
  flag : d.shutting_down ≡ (c.shutting_down || signals xs)

-- One call: those who wait and those who were told are the same, but for a new one at the end.
told_step :
    (x : Call) (c : Coordinator)
    → IsServed c
    → (call x c).drained ++ (call x c).waiting ≡ (c.drained ++ c.waiting) ++ waits (x ∷ [])
unfolding call signal_shutdown begin_work end_work wait_for_drained
told_step signal c s = sym (append-nil _)
told_step begin c s = sym (append-nil _)
told_step finish c s = elim (Bool-cases (leb c.inflight 1)) [
  | inl e ↦ rw e refl
  | inr e ↦ rw e (sym (append-nil _))
]
told_step (wait n) c s = elim (Bool-cases (nat_eq c.inflight 0)) [
  | inl e ↦ rw e (elim s [
    | inl nobody ↦ rw nobody (rw (append-nil (c.drained ++ n ∷ []), append-nil c.drained) refl)
    | inr busy ↦ absurd (ground arith)
  ])
  | inr e ↦ rw e (sym (append_assoc c.drained c.waiting (n ∷ [])))
]

IsServed-step : (x : Call) (c : Coordinator) → IsServed c → IsServed (call x c)
unfolding call signal_shutdown begin_work end_work wait_for_drained
IsServed-step signal c s = s
IsServed-step begin c s = inr (omega arith)
IsServed-step finish c s = elim (Bool-cases (leb c.inflight 1)) [
  | inl e ↦ rw e (inl refl)
  | inr e ↦ rw e (inr (ground arith))
]
IsServed-step (wait n) c s = elim (Bool-cases (nat_eq c.inflight 0)) [
  | inl e ↦ rw e s
  | inr e ↦ rw e (inr (ground arith))
]

waits-cons : (x : Call) (xs : List Call) → waits (x ∷ xs) ≡ waits (x ∷ []) ++ waits xs
waits-cons signal xs = refl
waits-cons begin xs = refl
waits-cons finish xs = refl
waits-cons (wait n) xs = refl

in_flight-call :
    (x : Call) (xs : List Call) (c : Coordinator)
    → in_flight (call x c).inflight xs ≡ in_flight c.inflight (x ∷ xs)
unfolding call signal_shutdown begin_work end_work wait_for_drained
in_flight-call signal xs c = refl
in_flight-call begin xs c = refl
in_flight-call finish xs c = elim (Bool-cases (leb c.inflight 1)) [
  | inl e ↦ rw e (ap (λ n. in_flight n xs) (ground arith))
  | inr e ↦ rw e refl
]
in_flight-call (wait n) xs c = elim (Bool-cases (nat_eq c.inflight 0)) [
  | inl e ↦ rw e refl
  | inr e ↦ rw e refl
]

flag-call :
    (x : Call) (xs : List Call) (c : Coordinator)
    → ((call x c).shutting_down || signals xs) ≡ (c.shutting_down || signals (x ∷ xs))
unfolding call signal_shutdown begin_work end_work wait_for_drained
flag-call signal xs c = ground arith
flag-call begin xs c = refl
flag-call finish xs c = ground arith
flag-call (wait n) xs c = ground arith

calls-Agrees : (xs : List Call) (c : Coordinator) → IsServed c → Agrees xs c (calls xs c)
unfolding calls
calls-Agrees [] c s = record {
  told = sym (append-nil _);
  served = s;
  count = refl;
  flag = ground arith;
}
calls-Agrees (x ∷ xs) c s =
    let ih = calls-Agrees xs (call x c) (IsServed-step x c s) in
    record {
      told =
          ih.told
          ∙ ap (λ l. l ++ waits xs) (told_step x c s)
          ∙ append_assoc (c.drained ++ c.waiting) (waits (x ∷ [])) (waits xs)
          ∙ ap (λ l. (c.drained ++ c.waiting) ++ l) (sym (waits-cons x xs));
      served = ih.served;
      count = ih.count ∙ in_flight-call x xs c;
      flag = ih.flag ∙ flag-call x xs c;
    }

-- After any calls from the start: those who asked to be told when the work is done were told or are
-- waiting, each once and in their order; nobody waits unless work is in flight; the count is the
-- work that has begun and not ended; and the shutdown is on exactly if it was signalled.
pub calls_lem :
    (xs : List Call)
    → ((calls xs idle).drained ++ (calls xs idle).waiting ≡ waits xs)
      × IsServed (calls xs idle)
      × ((calls xs idle).inflight ≡ in_flight 0 xs)
      × ((calls xs idle).shutting_down ≡ signals xs)
calls_lem xs = let a = calls-Agrees xs idle (inl refl) in (a.told, a.served, a.count, a.flag)
