-- ===== src/Wagering/Replay.antt =====
-- A key that was used before, and src/wagering/process-wager.ts: the unique constraint, the `catch`
-- of `execute` and `replayFromPersisted`.
use jungle_backend_challenge.Prelude.{
  ◌+◌, ◌<◌, ◌≡◌, refl, true, false, String, codes, some, find, any, arith, leb_of_lt, sym, ap, ◌∙◌,
  subst, ◌≢◌, eq_iff, none, eq_true,
}
use jungle_backend_challenge.Prelude.Results.{ok, err}
use jungle_backend_challenge.Domain.Errors.{Thrown, unprocessable}
use jungle_backend_challenge.Domain.Amount.{cents, currency_pattern}
use jungle_backend_challenge.Database.Rows.{Db, WagerRow, numeric_limit, PersistedResponse}
use jungle_backend_challenge.Database.Tx.{
  Env, World, Tx, ◌>>=◌, attempt, transactional, refuse_if, unique_violation, throw,
}
use jungle_backend_challenge.Database.Tables.{has_key, find-any_lem}
use jungle_backend_challenge.Wagering.Types.{SubmitInput}
use jungle_backend_challenge.Wagering.Failures.{is_unique_violation}
use jungle_backend_challenge.Wagering.Payload.{
  normalize_wager_input, wager_payload_hash, normalize_persisted_response, make_result,
}
use jungle_backend_challenge.Wagering.Repository.{
  wager_id, by_idempotency_key, insert_row, insert_pending, pending_row,
}
use jungle_backend_challenge.Wagering.ProcessWager.{
  work, pending_input, answer_from, replay_from_persisted, handle_failure, submit, execute,
}

-- The command passes the checks before the unique key: the amount fits its column, the currency is
-- a code, and the next identifier is new.
pub record IsInsertable {D : Type 0} (env : Env D) (i : SubmitInput) (w : World) : Type 0 where
  pub fits : cents i.money.amount < numeric_limit
  pub code : currency_pattern (codes i.money.currency) ≡ true
  pub fresh : any (has_key wager_id (env.uuid w.drawn)) w.db.wagers ≡ false

transactional-err :
    {A : Type 0} (m : Tx A) (recover : Thrown → Tx A) (w w' : World) (e : Thrown)
    → m w ≡ (err e, w')
    → attempt (transactional m) recover w ≡ recover e (record w' { db = w.db })
unfolding attempt transactional
transactional-err m recover w w' e h =
    subst (λ r. attempt (transactional (λ _. r)) recover w ≡ recover e (record w' { db = w.db }))
      (sym h) refl

module _ {D : Type 0} (env : Env D) where
  used_key-insert :
      (i : SubmitInput) (hash tx_id : String) (db : Db) (row : WagerRow)
      → cents i.money.amount < numeric_limit
      → currency_pattern (codes i.money.currency) ≡ true
      → any (has_key wager_id tx_id) db.wagers ≡ false
      → find (by_idempotency_key i.idempotency_key) db.wagers ≡ some row
      → insert_row (pending_row (pending_input env i hash tx_id)) db
        ≡ err (unique_violation "uq_wager_idempotency_key")
  unfolding insert_row pending_row pending_input refuse_if
  used_key-insert i hash tx_id db row fits code fresh used =
      rw
        (
          leb_of_lt (cents i.money.amount) numeric_limit fits,
          code,
          fresh,
          find-any_lem wager_id (by_idempotency_key i.idempotency_key) db.wagers row used,
        )
        refl

  used_key-work :
      (i : SubmitInput) (hash tx_id : String) (row : WagerRow) (w : World)
      → cents i.money.amount < numeric_limit
      → currency_pattern (codes i.money.currency) ≡ true
      → any (has_key wager_id tx_id) w.db.wagers ≡ false
      → find (by_idempotency_key i.idempotency_key) w.db.wagers ≡ some row
      → work env i hash tx_id w ≡ (err (unique_violation "uq_wager_idempotency_key"), w)
  unfolding work ◌>>=◌ insert_pending
  used_key-work i hash tx_id row w fits code fresh used =
      ground (arith, used_key-insert i hash tx_id w.db row fits code fresh used)

  used_key-handle_failure :
      (i : SubmitInput) (hash : String) (w : World)
      → handle_failure env i hash (unique_violation "uq_wager_idempotency_key") w
        ≡ answer_from env hash (find (by_idempotency_key i.idempotency_key) w.db.wagers) w
  unfolding handle_failure replay_from_persisted is_unique_violation ◌>>=◌
  used_key-handle_failure i hash w = refl

  -- A command that passes the checks before the unique key, under a key that a stored wager has,
  -- ends as `replayFromPersisted` says of that wager, and writes nothing.
  pub used_key-execute :
      (input i : SubmitInput) (row : WagerRow) (w : World)
      → normalize_wager_input env.dec input ≡ ok i
      → IsInsertable env i w
      → find (by_idempotency_key i.idempotency_key) w.db.wagers ≡ some row
      → execute env input w
        ≡ answer_from env
            (wager_payload_hash env.sha256 i)
            (some row)
            (record w { drawn = w.drawn + 1 })
  unfolding execute ◌>>=◌ submit
  used_key-execute input i row w normal h used =
      let started : World = record w { drawn = w.drawn + 1 } in
      let hash = wager_payload_hash env.sha256 i in
      rw (normal, ◌>>=◌, submit)
        (transactional-err _ _ started started _
            (used_key-work i hash (env.uuid w.drawn) row started h.fits h.code h.fresh used)
          ∙ used_key-handle_failure i hash started
          ∙ ap (λ r. answer_from env hash r started) used)

  pub same_payload-execute :
      (input i : SubmitInput) (row : WagerRow) (stored answer : PersistedResponse) (w : World)
      → normalize_wager_input env.dec input ≡ ok i
      → IsInsertable env i w
      → find (by_idempotency_key i.idempotency_key) w.db.wagers ≡ some row
      → row.response_payload ≡ some stored
      → row.payload_hash ≡ wager_payload_hash env.sha256 i
      → normalize_persisted_response stored ≡ ok answer
      → execute env input w ≡ (ok (make_result answer true none), record w { drawn = w.drawn + 1 })
  unfolding answer_from ◌>>=◌
  same_payload-execute input i row stored answer w normal h used response same persisted =
      used_key-execute input i row w normal h used ∙ rw (response, eq_true _ _ same, persisted) refl

  -- A valid command that could be inserted but for its used key, under which a response to another
  -- payload hash is stored: it is refused as a conflict, and nothing is written.
  pub other_payload-execute :
      (input i : SubmitInput) (row : WagerRow) (stored : PersistedResponse) (w : World)
      → normalize_wager_input env.dec input ≡ ok i
      → IsInsertable env i w
      → find (by_idempotency_key i.idempotency_key) w.db.wagers ≡ some row
      → row.response_payload ≡ some stored
      → row.payload_hash ≢ wager_payload_hash env.sha256 i
      → execute env input w ≡ (
        err (
            unprocessable "IDEMPOTENCY_CONFLICT"
              (some "idempotency key reused with a different payload")),
        record w { drawn = w.drawn + 1 },
      )
  unfolding answer_from throw
  other_payload-execute input i row stored w normal h used response other =
      used_key-execute input i row w normal h used
      ∙ rw response (ground (arith, eq_iff row.payload_hash (wager_payload_hash env.sha256 i)))
