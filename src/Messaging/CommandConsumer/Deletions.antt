-- ===== src/Messaging/CommandConsumer/Deletions.antt =====
-- Which messages src/messaging/command-consumer.ts deletes from the queue.
use jungle_backend_challenge.Prelude.{
  ℕ, ◌+◌, ◌≡◌, refl, ◌⊎◌, inl, inr, Bool, true, false, String, Option, none, some, List, [], ◌∷◌,
  Has, arith, if◌then◌else◌,
}
use jungle_backend_challenge.Prelude.Results.{ok, err}
use jungle_backend_challenge.Domain.Errors.{Outcome}
use jungle_backend_challenge.Database.Rows.{Db}
use jungle_backend_challenge.Database.Tx.{Env, World}
use jungle_backend_challenge.Wagering.Submission.{Formats}
use jungle_backend_challenge.Messaging.Shutdown.{begin_work}
use jungle_backend_challenge.Messaging.Requests.{SqsMessage, Command, read_command}
use jungle_backend_challenge.Messaging.CommandHandler.{HandleAction, ack, redeliver, process}
use jungle_backend_challenge.Messaging.CommandHandler.Handled.{IsRecorded}
use jungle_backend_challenge.Messaging.CommandHandler.Deliveries.{process_settles}
use jungle_backend_challenge.Messaging.CommandHandler.Recorded.{process-IsRecorded}
use jungle_backend_challenge.Messaging.CommandConsumer.{
  Consumer, apply_action, after_process, process_message, process_order,
}

-- All messages of the first list are in the second.
abbrev pub AllIn : List SqsMessage → List SqsMessage → Type 0
AllIn [] received = Unit
AllIn (m ∷ ms) received = Has m received × AllIn ms received

module _ {D : Type 0} (env : Env D) (fmt : Formats) where
  -- The receipt is that of a message that was received, can be read, and is recorded as processed.
  pub record IsHandled (received : List SqsMessage) (db : Db) (receipt : String) : Type 0 where
    pub message : SqsMessage
    pub command : Command
    pub known : Has message received
    pub handle : message.receipt_handle ≡ some receipt
    pub read : read_command env.dec env.sha256 fmt message ≡ ok command
    pub recorded : IsRecorded command db

  abbrev pub AllHandled : List SqsMessage → Db → List String → Type 0
  AllHandled received db [] = Unit
  AllHandled received db (receipt ∷ rest) =
      IsHandled received db receipt × AllHandled received db rest

  still_handled :
      (received : List SqsMessage) (message : SqsMessage) (w : World) (receipts : List String)
      → AllHandled received w.db receipts
      → AllHandled received (process env fmt message w).1.db receipts
  still_handled received message w [] h = tt
  still_handled received message w (receipt ∷ rest) (h, hs) = (
    record {
      message = h.message;
      command = h.command;
      known = h.known;
      handle = h.handle;
      read = h.read;
      recorded = (process-IsRecorded h.command env fmt message).at w h.recorded;
    },
    still_handled received message w rest hs,
  )

  -- What `process_settles` says of a result.
  abbrev Settled : SqsMessage → Outcome HandleAction × World → Type 0
  Settled message r =
      ((command : Command) × (read_command env.dec env.sha256 fmt message ≡ ok command)
        × (r.0 ≡ ok ack)
        × IsRecorded command r.1.db)
      ⊎ (r.0 ≡ ok redeliver)

  settled : (message : SqsMessage) (w : World) → Settled message (process env fmt message w)
  settled message w = elim (process_settles env fmt message w) [
    | inl acked ↦ inl acked
    | inr (left, unmoved) ↦ inr left
  ]

  module _ (lost : ℕ → Bool) (received : List SqsMessage) where
    abbrev pub IsAccounted : Consumer → Type 0
    IsAccounted c = AllHandled received c.world.db c.deleted

    applied :
        (message : SqsMessage) (command : Command) (c : Consumer)
        → Has message received
        → read_command env.dec env.sha256 fmt message ≡ ok command
        → IsRecorded command c.world.db
        → IsAccounted c
        → (o : Option String) → message.receipt_handle ≡ o
        → IsAccounted (apply_action env fmt lost o ack c)
    unfolding apply_action
    applied message command c known read recorded h none e = h
    applied message command c known read recorded h (some receipt) e = asked (lost c.asked)
      where
        asked :
            (b : Bool)
            → IsAccounted (
                if b
                then record c { asked = c.asked + 1 }
                else record c { asked = c.asked + 1; deleted = receipt ∷ c.deleted })
        asked true = h
        asked false = (
          record {
            message = message;
            command = command;
            known = known;
            handle = e;
            read = read;
            recorded = recorded;
          },
          h,
        )

    kept :
        (c : Consumer) (o : Option String)
        → IsAccounted c
        → IsAccounted (apply_action env fmt lost o redeliver c)
    unfolding apply_action
    kept c none h = h
    kept c (some receipt) h = h

    processed :
        (message : SqsMessage) (c : Consumer) (r : Outcome HandleAction × World)
        → Has message received
        → Settled message r
        → AllHandled received r.1.db c.deleted
        → IsAccounted (after_process env fmt lost message r c)
    unfolding after_process
    processed message c (ok ack, v) known (inl (command, read, acked, recorded)) h =
        applied message command (record c { world = v }) known read recorded h
          message.receipt_handle refl
    processed message c (ok ack, v) known (inr e) h = absurd (ground arith)
    processed message c (ok redeliver, v) known s h =
        kept (record c { world = v }) message.receipt_handle h
    processed message c (err e, v) known s h = h

    -- Messages that were received are processed, in whatever order: if the receipts deleted before
    -- are those of received messages that can be read and are recorded as processed, so are all
    -- receipts deleted afterwards.
    pub process_order-IsAccounted :
        (order : List SqsMessage) (c : Consumer)
        → AllIn order received
        → IsAccounted c
        → IsAccounted (process_order env fmt lost order c)
    unfolding process_order process_message begin_work
    process_order-IsAccounted [] c known h = h
    process_order-IsAccounted (m ∷ ms) c (k, known) h = process_order-IsAccounted ms _ known (
        processed m _ (process env fmt m c.world) k (settled m c.world)
          (still_handled received m c.world c.deleted h))
