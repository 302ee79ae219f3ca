-- ===== src/Wallets/Controller.antt =====
-- src/wallets/wallets.controller.ts: the handlers of the HTTP routes. The routing and the pipe that
-- checks the form of an identifier belong to the framework.
pub mod Following
use jungle_backend_challenge.Prelude.{
  ℕ, Bool, true, false, ◌&&◌, String, truthy, Option, none, some, List, [], ◌∷◌, find, leb,
  if◌then◌else◌,
}
use jungle_backend_challenge.Prelude.Results.{Result, ok, err, ◌>>=◌, ◌>>◌}
use jungle_backend_challenge.Domain.Errors.{Outcome, Thrown, unprocessable, driver}
use jungle_backend_challenge.Domain.CanonicalJson.{Json, obj, Fields}
use jungle_backend_challenge.Database.Rows.{WalletRow, LedgerRow}
use jungle_backend_challenge.Database.Tables.{has_key}
use jungle_backend_challenge.Database.Tx.{Env, World}
use jungle_backend_challenge.Http.{HttpError, not_found, passed, Answer, Handler}
use jungle_backend_challenge.Wagering.Payload.{invalid_payload}
use jungle_backend_challenge.Wagering.Repository.{wallet_key}
use jungle_backend_challenge.Wagering.Submission.{
  Formats, text_field, object_field, only_keys, require, read_money,
}
use jungle_backend_challenge.Wallets.Creation.{CreateInput, create_wallet}
use jungle_backend_challenge.Wallets.Cursor.{
  LedgerCursor, CursorCodec, encode_ledger_cursor, decode_ledger_cursor,
}
use jungle_backend_challenge.Wallets.Pages.{Position, LedgerPage, page_ledger}
use jungle_backend_challenge.Wallets.Ledger.{Reconciliation, reconcile}

-- What a query of the ledger relies on: `Number` of a text where that is a natural number,
-- `Date#toISOString`, and the time that PostgreSQL reads in a text.
pub record QueryFormats : Type 0 where
  pub to_number : String → Option ℕ
  pub iso : ℕ → String
  pub to_timestamp : String → Option ℕ

-- The end of a handler: what the work throws passes.
abbrev pub respond : {A : Type 0} → ℕ → Outcome A × World → Result HttpError (Answer A) × World
respond status (ok a, w) = (ok (record { status = status; body = a }), w)
respond status (err e, w) = (err (passed e), w)

-- `CreateWalletSchema`
unfoldable pub read_wallet_fields : Formats → Option String → Fields → Outcome CreateInput
unfolding text_field object_field only_keys read_money
read_wallet_fields fmt correlation_id fs = do
  player_id ← text_field "playerId" fmt.is_uuid fs
  balance_fields ← object_field "initialBalance" fs
  initial_balance ← read_money balance_fields
  require (only_keys ("playerId" ∷ "initialBalance" ∷ []) fs)
  ok (record {
    player_id = player_id;
    initial_balance = initial_balance;
    correlation_id = correlation_id;
  })

unfoldable pub read_wallet : Formats → Option String → Json → Outcome CreateInput
unfolding read_wallet_fields
read_wallet fmt correlation_id (obj fs) = read_wallet_fields fmt correlation_id fs
read_wallet fmt correlation_id _ = invalid_payload

module _ {D : Type 0} (env : Env D) (fmt : Formats) where
  unfoldable pub create_read : Outcome CreateInput → Handler WalletRow
  unfolding create_wallet
  create_read (err e) w = (err (passed e), w)
  create_read (ok input) w = respond 201 (create_wallet env input w)

  unfoldable pub create : Option String → Json → Handler WalletRow
  unfolding create_read read_wallet
  create correlation_id body = create_read (read_wallet fmt correlation_id body)

-- `findById` of the service, before what follows it.
unfoldable pub with_wallet : {A : Type 0} → String → (WalletRow → Handler A) → Handler A
with_wallet id next w = elim (find (has_key wallet_key id) w.db.wallets) [
  | none ↦ (err (not_found "WALLET_NOT_FOUND"), w)
  | some row ↦ next row w
]

unfoldable pub find_one : String → Handler WalletRow
unfolding with_wallet
find_one id = with_wallet id (λ row w. (ok (record { status = 200; body = row }), w))

unfoldable pub reconcile_wallet : String → Handler Reconciliation
unfolding with_wallet reconcile
reconcile_wallet id = with_wallet id (λ row w. respond 200 (reconcile id w))

-- The page, with the text of its cursor.
pub record PageView : Type 0 where
  pub entries : List LedgerRow
  pub next_cursor : Option String

abbrev pub invalid_query : Thrown
invalid_query = unprocessable "INVALID_QUERY" none

abbrev pub invalid_cursor : Thrown
invalid_cursor = unprocessable "INVALID_CURSOR" (some "cursor is malformed")

-- `LedgerQuerySchema`: the limit
unfoldable pub read_limit : QueryFormats → Option String → Outcome ℕ
read_limit q none = ok 50
read_limit q (some text) = elim (q.to_number text) [
  | none ↦ err invalid_query
  | some n ↦ if leb 1 n && leb n 100 then ok n else err invalid_query
]

-- `LedgerQuerySchema` and `decodeLedgerCursor`: the cursor
unfoldable pub read_cursor : CursorCodec → Option String → Outcome (Option LedgerCursor)
unfolding decode_ledger_cursor
read_cursor codec none = ok none
read_cursor codec (some raw) =
    if truthy raw
    then elim (decode_ledger_cursor codec raw) [ none ↦ err invalid_cursor | some c ↦ ok (some c) ]
    else err invalid_query

abbrev pub bad_datetime : Thrown
bad_datetime =
    driver (record { code = some "22007"; sql_state = none; constraint = none; message = none })

-- `?::timestamptz`, which throws where the text is no time.
unfoldable pub position_of : QueryFormats → Option LedgerCursor → Outcome (Option Position)
position_of q none = ok none
position_of q (some c) = elim (q.to_timestamp c.created_at) [
  | none ↦ err bad_datetime
  | some t ↦ ok (some (record { at = t; id = c.id }))
]

abbrev pub next_text : CursorCodec → QueryFormats → Option Position → Option String
next_text codec q none = none
next_text codec q (some p) =
    some (encode_ledger_cursor codec (record { created_at = q.iso p.at; id = p.id }))

abbrev pub page_view :
    CursorCodec → QueryFormats → Outcome LedgerPage × World → Outcome PageView × World
page_view codec q (ok page, w) =
    (ok (record { entries = page.entries; next_cursor = next_text codec q page.next_cursor }), w)
page_view codec q (err e, w) = (err e, w)

module _ (codec : CursorCodec) (q : QueryFormats) where
  unfoldable pub page_at : String → ℕ → Outcome (Option Position) → Handler PageView
  unfolding page_ledger
  page_at id limit (err e) w = (err (passed e), w)
  page_at id limit (ok position) w =
      respond 200 (page_view codec q (page_ledger id position (some limit) w))

  unfoldable pub ledger_read : String → Outcome ℕ → Outcome (Option LedgerCursor) → Handler PageView
  unfolding with_wallet page_at position_of
  ledger_read id (err e) cursor w = (err (passed e), w)
  ledger_read id (ok limit) (err e) w = (err (passed e), w)
  ledger_read id (ok limit) (ok cursor) w =
      with_wallet id (λ row. page_at id limit (position_of q cursor)) w

  -- The limit is checked before the cursor is decoded.
  unfoldable pub ledger : String → Option String → Option String → Handler PageView
  unfolding ledger_read read_limit read_cursor
  ledger id cursor limit = ledger_read id (read_limit q limit) (read_cursor codec cursor)
