-- ===== src/Messaging/Shutdown.antt =====
-- src/messaging/consumer-shutdown.ts: the coordinator that counts the work in flight. Those who wait
-- for the count to reach zero are numbered.
pub mod Runs
use jungle_backend_challenge.Prelude.{
  ℕ, ◌+◌, ◌-◌, Bool, true, ◌&&◌, ◌||◌, List, [], ◌∷◌, ◌++◌, leb, nat_eq, if◌then◌else◌,
}

pub record Coordinator : Type 0 where
  pub shutting_down : Bool
  pub inflight : ℕ
  -- those who wait, and those who were told that the work is done
  pub waiting : List ℕ
  pub drained : List ℕ

unfoldable pub signal_shutdown : Coordinator → Coordinator
signal_shutdown c = record c { shutting_down = true }

unfoldable pub begin_work : Coordinator → Coordinator
begin_work c = record c { inflight = c.inflight + 1 }

-- `inflight--`, set back to 0 where it would be negative; at 0 every resolver is called and dropped.
unfoldable pub end_work : Coordinator → Coordinator
end_work c =
    if leb c.inflight 1
    then record c { inflight = 0; waiting = []; drained = c.drained ++ c.waiting }
    else record c { inflight = c.inflight - 1 }

-- `waitForDrained` up to its first suspension: resolved at once, or one who waits.
unfoldable pub wait_for_drained : ℕ → Coordinator → Coordinator
wait_for_drained n c =
    if nat_eq c.inflight 0
    then record c { drained = c.drained ++ n ∷ [] }
    else record c { waiting = c.waiting ++ n ∷ [] }

-- The end of `run`, at the coordinator once the loops have stopped or their timers have: whether
-- the work that is still in flight ends before the last timer, and whether the framework closes.
unfoldable pub exit_code : Coordinator → Bool → Bool → ℕ
exit_code c ends_in_time closes = if closes && (nat_eq c.inflight 0 || ends_in_time) then 0 else 1
