-- ===== src/Messaging/Publisher/Attempts.antt =====
-- What the transaction of a claim leaves, in src/messaging/outbox-publisher.ts.
use jungle_backend_challenge.Prelude.{
  ℕ, ◌+◌, ◌≡◌, refl, ◌∙◌, Bool, true, String, Option, none, some, ◌∷◌, ◌⊎◌, inl, inr, update_where,
}
use jungle_backend_challenge.Prelude.Results.{Result, ok, err}
use jungle_backend_challenge.Domain.Errors.{Thrown}
use jungle_backend_challenge.Database.Rows.{OutboxRow}
use jungle_backend_challenge.Database.Tx.{World, Tx}
use jungle_backend_challenge.Database.Tables.{has_key}
use jungle_backend_challenge.Messaging.Outbox.{
  outbox_id, first_claimable, published_row, failed_row,
}
use jungle_backend_challenge.Messaging.SendErrors.{
  SendError, SendFailureReason, text_of, classify_send_error,
}
use jungle_backend_challenge.Messaging.Publisher.PutOff.{IsPutOff}
use jungle_backend_challenge.Messaging.SendErrors.Classes.{IsClassified}
use jungle_backend_challenge.Messaging.Jobs.{
  Outside, Station, PublishError, send_failed, database, Job, ◌>>=◌, query, issued, ran,
  is_shutting_down,
}
use jungle_backend_challenge.Messaging.Publisher.{
  PublishOutcome, published, failed, PublisherConfig, event_message, injected,
}

-- Neither the database nor the broker has seen anything.
pub record IsQuiet (s t : Station) : Type 0 where
  pub world : t.world ≡ s.world
  pub accepted : t.accepted ≡ s.accepted

pub IsQuiet-trans : {s t u : Station} → IsQuiet s t → IsQuiet t u → IsQuiet s u
IsQuiet-trans p q = record { world = q.world ∙ p.world; accepted = q.accepted ∙ p.accepted }

-- The row that a claim finds.
abbrev pub Due : Station → OutboxRow → Type 0
Due s row = first_claimable s.world.now s.world.db.outbox ≡ some row

-- The row of the claim is changed, and nothing else in the database.
abbrev pub changed : World → String → (OutboxRow → OutboxRow) → World
changed w id f = record w {
  db = record w.db { outbox = update_where (has_key outbox_id id) f w.db.outbox };
}

module _ (out : Outside) where
  -- Nothing is written. The broker may have accepted the event of the due row all the same, if what
  -- was to follow failed.
  pub record IsUntouched (s t : Station) : Type 0 where
    pub world : t.world ≡ s.world
    pub accepted :
        (t.accepted ≡ s.accepted)
        ⊎ ((row : OutboxRow) × Due s row × (t.accepted ≡ event_message out.iso row ∷ s.accepted))

  -- The broker has accepted the event of the due row, and the row says so.
  pub record IsPublished (s t : Station) : Type 0 where
    pub row : OutboxRow
    pub due : Due s row
    pub accepted : t.accepted ≡ event_message out.iso row ∷ s.accepted
    pub world : t.world ≡ changed s.world row.id (published_row s.world.now)

  -- The hook fails the event, or the broker refuses its message.
  abbrev pub IsRefused : OutboxRow → SendError → Type 0
  IsRefused row e =
      ((out.fault row.event_id ≡ true) × (e ≡ injected))
      ⊎ ((n : ℕ) × (out.refusal n (event_message out.iso row) ≡ some e))

  -- The send of the row's event failed. The broker may have accepted it all the same.
  pub record IsUnsent (row : OutboxRow) (reason : SendFailureReason) (message : String)
      (s t : Station) : Type 0 where
    pub error : SendError
    pub refused : IsRefused row error
    pub for_reason : reason ≡ classify_send_error error
    pub for_message : message ≡ text_of error.message
    pub world : t.world ≡ s.world
    pub accepted : (t.accepted ≡ s.accepted) ⊎ (t.accepted ≡ event_message out.iso row ∷ s.accepted)

  -- The due row stays, for another attempt after the delay for the failure, with the failure's
  -- message. The broker may have accepted the event all the same.
  pub record IsRescheduled (cfg : PublisherConfig) (s t : Station) : Type 0 where
    pub row : OutboxRow
    pub error : SendError
    pub reason : SendFailureReason
    pub delay : ℕ
    pub due : Due s row
    pub refused : IsRefused row error
    pub classified : IsClassified error reason
    pub put_off : IsPutOff cfg reason row.attempts delay
    pub accepted : (t.accepted ≡ s.accepted) ⊎ (t.accepted ≡ event_message out.iso row ∷ s.accepted)
    pub world :
        t.world ≡ changed s.world row.id (failed_row s.world.now delay (text_of error.message))

  -- The database failed a statement with the error.
  abbrev pub IsFailure : PublishError → Type 0
  IsFailure (send_failed row reason message) = ⊥
  IsFailure (database e) = (n : ℕ) × (out.failing n ≡ some e)

  -- The statement that was to put the due row off failed, and nothing is written. The broker may have
  -- accepted the event all the same.
  pub record IsStuck (s : Station) (e : PublishError) (t : Station) : Type 0 where
    pub row : OutboxRow
    pub error : SendError
    pub due : Due s row
    pub refused : IsRefused row error
    pub failure : IsFailure e
    pub accepted : (t.accepted ≡ s.accepted) ⊎ (t.accepted ≡ event_message out.iso row ∷ s.accepted)
    pub world : t.world ≡ s.world

  pub IsStuck-IsUntouched : {s t : Station} {e : PublishError} → IsStuck s e t → IsUntouched s t
  IsStuck-IsUntouched c = record {
    world = c.world;
    accepted = elim c.accepted [ inl same ↦ inl same | inr more ↦ inr (c.row, c.due, more) ];
  }

  -- What the transaction leaves, before and after its end.
  abbrev pub Attempted : Station → Result PublishError (Option PublishOutcome) × Station → Type 0
  Attempted s (ok none, t) = IsUntouched s t
  Attempted s (ok (some published), t) = IsPublished s t
  Attempted s (ok (some failed), t) = ⊥
  Attempted s (err (send_failed row reason message), t) =
      Due s row × IsUnsent row reason message s t
  Attempted s (err (database e), t) = IsUntouched s t

  abbrev pub Claimed :
      PublisherConfig → Station → Result PublishError (Option PublishOutcome) × Station → Type 0
  Claimed cfg s (ok none, t) = IsUntouched s t
  Claimed cfg s (ok (some published), t) = IsPublished s t
  Claimed cfg s (ok (some failed), t) = IsRescheduled cfg s t
  Claimed cfg s (err e, t) = IsStuck s e t

  -- A look at the flag is quiet, whatever it sees.
  pub look-bind :
      {A : Type 0} (P : Result PublishError A × Station → Type 0) (f : Bool → Job A) (s : Station)
      → ((stopping : Bool) (t : Station) → IsQuiet s t → P (f stopping t))
      → P ((is_shutting_down out >>= f) s)
  unfolding is_shutting_down
  look-bind P f s k = k _ _ (record { world = refl; accepted = refl })

  -- A statement fails and writes nothing, or it runs.
  pub query-bind :
      {A B : Type 0} (P : Result PublishError B × Station → Type 0) (m : Tx A) (f : A → Job B)
      (s : Station)
      → ((e : Thrown)
          → IsFailure (database e)
          → P (err (database e), record s { statements = s.statements + 1 }))
      → P ((ran m >>= f) s)
      → P ((query out m >>= f) s)
  unfolding query issued
  query-bind P m f s fails runs = go (out.failing s.statements) refl
    where
      go :
          (failing : Option Thrown)
          → out.failing s.statements ≡ failing
          → P ((issued m failing >>= f) s)
      go none e = runs
      go (some t) e = fails t (s.statements, e)

  pub untouched : {s t : Station} → IsQuiet s t → IsUntouched s t
  untouched q = record { world = q.world; accepted = inl q.accepted }
