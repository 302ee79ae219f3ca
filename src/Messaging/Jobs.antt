-- ===== src/Messaging/Jobs.antt =====
-- Work of src/messaging/outbox-publisher.ts: database work, looks at the shutdown flag and calls of
-- the broker. What the process does not decide itself is a parameter, numbered by the calls.
use jungle_backend_challenge.Prelude.{ℕ, ◌+◌, Bool, ◌||◌, String, Option, none, some, List}
use jungle_backend_challenge.Prelude.Results.{Result, ok, err}
use jungle_backend_challenge.Domain.Errors.{Outcome, Thrown}
use jungle_backend_challenge.Domain.Events.{IntegrationEvent}
use jungle_backend_challenge.Database.Rows.{OutboxRow}
use jungle_backend_challenge.Database.Tx.{World, Tx}
use jungle_backend_challenge.Messaging.Shutdown.{Coordinator, begin_work, end_work}
use jungle_backend_challenge.Messaging.SendErrors.{SendError, SendFailureReason}

-- `SendMessageCommand`. The body is the payload of the row, kept as the event.
pub record EventMessage : Type 0 where
  pub body : IntegrationEvent
  pub deduplication_id : String
  pub group_id : String

-- The signals to shut down by the look before which they come, the broker's answers by the sends,
-- with the refused sends that it has accepted all the same, the failures of the database by the
-- statements and by the commits, the events that the test hook of test-hooks.ts fails, and
-- `Date#toISOString`.
pub record Outside : Type 0 where
  pub signalled : ℕ → Bool
  pub refusal : ℕ → EventMessage → Option SendError
  pub kept : ℕ → Bool
  pub failing : ℕ → Option Thrown
  pub lost_commit : ℕ → Option Thrown
  pub fault : String → Bool
  pub iso : ℕ → String

pub record Station : Type 0 where
  pub world : World
  pub coordinator : Coordinator
  pub looks : ℕ
  pub sends : ℕ
  pub statements : ℕ
  pub transactions : ℕ
  -- what the broker has accepted, the latest first
  pub accepted : List EventMessage

-- `SendFailedError`, and what else a claim may throw
pub data PublishError : Type 0 where
  send_failed : OutboxRow → SendFailureReason → String → PublishError
  database : Thrown → PublishError

abbrev pub Job : Type 0 → Type 0
Job A = Station → Result PublishError A × Station

infixl 5 ◌>>=◌
abbrev pub ◌>>=◌ : {A B : Type 0} → Job A → (A → Job B) → Job B
◌>>=◌ m f s = let (r, s') = m s in elim r [ ok a ↦ f a s' | err e ↦ (err e, s') ]

module _ {A : Type 0} where
  abbrev pub pure : A → Job A
  pure a s = (ok a, s)

  abbrev outcome : Outcome A → Result PublishError A
  outcome (ok a) = ok a
  outcome (err e) = err (database e)

  -- A statement that does not fail.
  abbrev pub ran : Tx A → Job A
  ran m s =
      let (r, w) = m s.world in (outcome r, record s { world = w; statements = s.statements + 1 })

  -- A statement that fails writes nothing.
  unfoldable pub issued : Tx A → Option Thrown → Job A
  issued m none s = ran m s
  issued m (some e) s = (err (database e), record s { statements = s.statements + 1 })

  -- `try { … } catch (err) { … }`
  unfoldable pub attempt : Job A → (PublishError → Job A) → Job A
  attempt m recover s = let (r, s') = m s in elim r [ ok a ↦ (ok a, s') | err e ↦ recover e s' ]

  -- `beginWork(); try { … } finally { endWork(); }`
  unfoldable pub counted : Job A → Job A
  unfolding begin_work end_work
  counted m s =
      let (r, s') = m (record s { coordinator = begin_work s.coordinator }) in
      (r, record s' { coordinator = end_work s'.coordinator })

-- A transaction that began at these tables undoes what it wrote.
abbrev pub rolled_back : World → Station → Station
rolled_back start s = record s {
  world = record s.world { db = start.db };
  transactions = s.transactions + 1;
}

unfoldable pub closed :
    {A : Type 0} → World → A → Option Thrown → Station → Result PublishError A × Station
closed start a none s = (ok a, record s { transactions = s.transactions + 1 })
closed start a (some e) s = (err (database e), rolled_back start s)

module _ (out : Outside) where
  unfoldable pub query : {A : Type 0} → Tx A → Job A
  unfolding issued
  query m s = issued m (out.failing s.statements) s

  -- `isShuttingDown()`; a signal sets the flag, and nothing clears it.
  unfoldable pub is_shutting_down : Job Bool
  is_shutting_down s =
      let flag = s.coordinator.shutting_down || out.signalled s.looks in
      (
        ok flag,
        record s {
          coordinator = record s.coordinator { shutting_down = flag };
          looks = s.looks + 1;
        },
      )

  -- A transaction that began at these tables ends in a throw, or at a commit that may be lost.
  unfoldable pub ended :
      {A : Type 0} → World → Result PublishError A × Station → Result PublishError A × Station
  unfolding closed
  ended start (ok a, s) = closed start a (out.lost_commit s.transactions) s
  ended start (err e, s) = (err e, rolled_back start s)

  -- `em.transactional(work)`: a throw, or a commit that is lost, undoes what the work wrote.
  unfoldable pub transactional : {A : Type 0} → Job A → Job A
  unfolding ended
  transactional m s = ended s.world (m s)
