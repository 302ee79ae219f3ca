-- ===== src/Messaging/CommandConsumer.antt =====
-- src/messaging/command-consumer.ts: `class CommandConsumer`, less its log lines and the depth of
-- the dead-letter queue. Groups run concurrently: a batch is processed along any interleaving of
-- them, one message at a time.
mod Keys
pub mod Groups
pub mod Deletions
use Prim.Native.String.{◌++◌}
use jungle_backend_challenge.Prelude.{
  ℕ, ◌+◌, Bool, true, false, ◌||◌, String, ◌==◌, Option, none, some, List, [], ◌∷◌, if◌then◌else◌,
}
use jungle_backend_challenge.Prelude.Results.{ok, err}
use jungle_backend_challenge.Domain.Errors.{Outcome}
use jungle_backend_challenge.Domain.CanonicalJson.{
  Json, str, obj, Fields, end, property, text_property,
}
use jungle_backend_challenge.Database.Tx.{Env, World}
use jungle_backend_challenge.Messaging.Shutdown.{Coordinator, begin_work, end_work}
use jungle_backend_challenge.Messaging.Requests.{SqsMessage, or}
use jungle_backend_challenge.Wagering.Submission.{Formats}
use jungle_backend_challenge.Messaging.CommandHandler.{HandleAction, ack, redeliver, process}

-- `body.data?.walletId`, where it is a string
unfoldable pub wallet_of_body : Option Json → Option String
unfolding property
wallet_of_body (some (obj fs)) = elim (property "data" fs) [
  | some (obj data_fields) ↦ text_property "walletId" data_fields
  | _ ↦ none
]
wallet_of_body _ = none

unfoldable pub wallet_key : Formats → SqsMessage → Option String
unfolding wallet_of_body
wallet_key fmt message = wallet_of_body (fmt.parse (or "" message.body))

-- `` walletKey(m) ?? `__singleton__${m.MessageId}` ``
unfoldable pub group_key : Formats → SqsMessage → String
unfolding wallet_key
group_key fmt message = elim (wallet_key fmt message) [
  | some id ↦ id
  | none ↦ "__singleton__" ++ or "undefined" message.message_id
]

-- A `Map` keeps its keys in the order of their first use.
abbrev pub Group : Type 0
Group = String × List SqsMessage

-- `push` at the end of a group.
unfoldable pub push : SqsMessage → List SqsMessage → List SqsMessage
push m [] = m ∷ []
push m (x ∷ xs) = x ∷ push m xs

unfoldable pub add_to_group : String → SqsMessage → List Group → List Group
unfolding push
add_to_group key m [] = (key, m ∷ []) ∷ []
add_to_group key m ((k, ms) ∷ groups) =
    if k == key then (k, push m ms) ∷ groups else (k, ms) ∷ add_to_group key m groups

unfoldable pub group_from : Formats → List Group → List SqsMessage → List Group
unfolding add_to_group group_key
group_from fmt groups [] = groups
group_from fmt groups (m ∷ ms) = group_from fmt (add_to_group (group_key fmt m) m groups) ms

-- The grouping of `processBatch`.
unfoldable pub group_messages : Formats → List SqsMessage → List Group
unfolding group_from
group_messages fmt messages = group_from fmt [] messages

-- The next message of some group.
pub data Take : List Group → SqsMessage → List Group → Type 0 where
  here :
      {k : String} {m : SqsMessage} {ms : List SqsMessage} {groups : List Group}
      → Take ((k, m ∷ ms) ∷ groups) m ((k, ms) ∷ groups)
  there :
      {g : Group} {m : SqsMessage} {groups groups' : List Group}
      → Take groups m groups'
      → Take (g ∷ groups) m (g ∷ groups')

abbrev pub AllDone : List Group → Type 0
AllDone [] = Unit
AllDone ((k, []) ∷ groups) = AllDone groups
AllDone ((k, m ∷ ms) ∷ groups) = ⊥

-- An order in which `Promise.all` over the groups may process their messages.
pub data Interleaves : List Group → List SqsMessage → Type 0 where
  done : {groups : List Group} → AllDone groups → Interleaves groups []
  next :
      {groups groups' : List Group} {m : SqsMessage} {order : List SqsMessage}
      → Take groups m groups'
      → Interleaves groups' order
      → Interleaves groups (m ∷ order)

-- What the consumer changes: the database, the coordinator and the queue.
pub record Consumer : Type 0 where
  pub world : World
  pub coordinator : Coordinator
  -- the receipt handles of the messages that it asked the queue to delete, the latest first
  pub deleted : List String
  pub asked : ℕ

module _ {D : Type 0} (env : Env D) (fmt : Formats) (lost : ℕ → Bool) where
  -- `applyAction`; the request to delete may be lost, which is logged and no more.
  unfoldable pub apply_action : Option String → HandleAction → Consumer → Consumer
  apply_action none action c = c
  apply_action (some receipt) redeliver c = c
  apply_action (some receipt) ack c =
      if lost c.asked
      then record c { asked = c.asked + 1 }
      else record c { asked = c.asked + 1; deleted = receipt ∷ c.deleted }

  unfoldable pub after_process : SqsMessage → Outcome HandleAction × World → Consumer → Consumer
  unfolding apply_action
  after_process message (ok action, w) c =
      apply_action message.receipt_handle action (record c { world = w })
  after_process message (err e, w) c = record c { world = w }

  unfoldable pub process_message : SqsMessage → Consumer → Consumer
  unfolding after_process begin_work end_work
  process_message message c =
      let c' =
        after_process message (process env fmt message c.world)
          (record c { coordinator = begin_work c.coordinator }) in
      record c' { coordinator = end_work c'.coordinator }

  -- The messages of a batch in one of its orders.
  unfoldable pub process_order : List SqsMessage → Consumer → Consumer
  unfolding process_message
  process_order [] c = c
  process_order (m ∷ ms) c = process_order ms (process_message m c)

  -- `pollOnce` with what is received, unless a shutdown comes before or after the receive. The
  -- order is one that the groups of the batch allow.
  unfoldable pub poll_once :
      Bool
      → Bool
      → Option (List SqsMessage)
      → (List SqsMessage → List SqsMessage)
      → Consumer
      → Consumer
  unfolding process_order
  poll_once true stopping_after received order c = c
  poll_once false stopping_after none order c = c
  poll_once false true (some messages) order c = c
  poll_once false false (some messages) order c = process_order (order messages) c
