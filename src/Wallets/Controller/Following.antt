-- ===== src/Wallets/Controller/Following.antt =====
-- Following the cursor of a page by the ledger route of src/wallets/wallets.controller.ts.
use jungle_backend_challenge.Prelude.{
  ℕ, ◌≡◌, refl, subst, Bool, true, false, ◌&&◌, String, codes, truthy, Option, none, some, find,
  leb, arith, if◌then◌else◌,
}
use jungle_backend_challenge.Prelude.Results.{ok, err, ok-injective}
use jungle_backend_challenge.Database.Rows.{WalletRow}
use jungle_backend_challenge.Database.Tables.{has_key}
use jungle_backend_challenge.Database.Tx.{World, reads}
use jungle_backend_challenge.Wagering.Repository.{wallet_key}
use jungle_backend_challenge.Wallets.Cursor.{
  LedgerCursor, CursorCodec, IsReadBack, uuid_pattern, encode_ledger_cursor, decode-encode,
}
use jungle_backend_challenge.Wallets.Pages.{Position, clamp_limit, page_of, page_ledger}
use jungle_backend_challenge.Wallets.Controller.{
  QueryFormats, next_text, read_limit, read_cursor, position_of, page_at, ledger_read, ledger,
  with_wallet, invalid_query,
}

clamp_inside : (n : ℕ) → (leb 1 n && leb n 100) ≡ true → clamp_limit (some n) ≡ n
unfolding clamp_limit
clamp_inside n h = ground arith

-- A limit that the query accepts is one that the repository does not change.
read_limit-clamp :
    (q : QueryFormats) (text : Option String) (n : ℕ)
    → read_limit q text ≡ ok n
    → clamp_limit (some n) ≡ n
unfolding read_limit
read_limit-clamp q none n h =
    subst (λ k. clamp_limit (some k) ≡ k) (ok-injective h) (clamp_inside 50 refl)
read_limit-clamp q (some s) n h = go (q.to_number s) h
  where
    checked :
        (m : ℕ) (b : Bool)
        → (leb 1 m && leb m 100) ≡ b
        → (if b then ok m else err invalid_query) ≡ ok n
        → clamp_limit (some n) ≡ n
    checked m true inside e =
        subst (λ k. clamp_limit (some k) ≡ k) (ok-injective e) (clamp_inside m inside)
    checked m false outside e = absurd (ground arith)

    go :
        (o : Option ℕ)
        → elim o [
          | none ↦ err invalid_query
          | some m ↦ if leb 1 m && leb m 100 then ok m else err invalid_query
        ]
          ≡ ok n
        → clamp_limit (some n) ≡ n
    go none e = absurd (ground arith)
    go (some m) e = checked m (leb 1 m && leb m 100) refl e

-- The cursor of a position, as a page shows it.
abbrev pub cursor_of : QueryFormats → Position → LedgerCursor
cursor_of q p = record { created_at = q.iso p.at; id = p.id }

-- What the texts of one cursor must be: read back by the codec, not empty, with a UUID and a time
-- that JavaScript and PostgreSQL read, the latter as the time that it was made of.
pub record IsFollowed (codec : CursorCodec) (q : QueryFormats) (p : Position) : Type 0 where
  pub read_back : IsReadBack codec (cursor_of q p)
  pub filled : truthy (encode_ledger_cursor codec (cursor_of q p)) ≡ true
  pub uuid : uuid_pattern (codes p.id) ≡ true
  pub time : ℕ
  pub date : codec.parse_date (q.iso p.at) ≡ some time
  pub timestamp : q.to_timestamp (q.iso p.at) ≡ some p.at

module _ (codec : CursorCodec) (q : QueryFormats) where
  cursor_read :
      (p : Position)
      → IsFollowed codec q p
      → read_cursor codec (next_text codec q (some p)) ≡ ok (some (cursor_of q p))
  unfolding read_cursor
  cursor_read p f =
      rw (f.filled, decode-encode codec (cursor_of q p) f.read_back, f.uuid, f.date) refl

  -- The cursor text of a page, sent with a limit that the query accepts, for a wallet that is stored:
  -- the answer is the page after that position, with the limit as it was sent, and nothing changes.
  pub ledger-next_text :
      (id : String) (limit_text : Option String) (limit : ℕ) (row : WalletRow) (p : Position)
      (w : World)
      → find (has_key wallet_key id) w.db.wallets ≡ some row
      → read_limit q limit_text ≡ ok limit
      → IsFollowed codec q p
      → let page = page_of id (some p) limit w.db.ledger in
        ledger codec q id (next_text codec q (some p)) limit_text w ≡ (
          ok (record {
            status = 200;
            body = record {
              entries = page.entries;
              next_cursor = next_text codec q page.next_cursor;
            };
          }),
          w,
        )
  unfolding ledger ledger_read with_wallet page_at position_of page_ledger reads
  ledger-next_text id limit_text limit row p w found accepted f =
      rw
        (
          accepted,
          cursor_read p f,
          ledger_read,
          with_wallet,
          found,
          page_at,
          position_of,
          f.timestamp,
          read_limit-clamp q limit_text limit accepted,
        )
        refl
