-- ===== src/Tests/WalletWitnesses.antt =====
-- The theorems on the ledger of src/wallets at concrete inputs.
use jungle_backend_challenge.Prelude.{
  ℕ, ◌+◌, ◌≡◌, refl, ◌↔◌, true, String, none, some, List, [], ◌∷◌, length, arith,
}
use jungle_backend_challenge.Prelude.Results.{ok}
use jungle_backend_challenge.Domain.Amount.{cents}
use jungle_backend_challenge.Domain.LedgerEntry.{debit, credit}
use jungle_backend_challenge.Wagering.Books.{total, entries}
use jungle_backend_challenge.Domain.CanonicalJson.{stringify}
use jungle_backend_challenge.Wallets.Ledger.{Reconciliation, reconcile}
use jungle_backend_challenge.Wallets.Ledger.Reconciles.{reconcile_lem, reconcile-IsSound}
use jungle_backend_challenge.Wallets.Cursor.Uuids.{Decoded, decode-Decoded}
use jungle_backend_challenge.Wallets.Cursor.{
  LedgerCursor, CursorCodec, cursor_json, uuid_pattern, encode_ledger_cursor, decode_ledger_cursor,
}
use jungle_backend_challenge.Database.Rows.{LedgerRow}
use jungle_backend_challenge.Wallets.Pages.{
  listed, page_of, take, next_of, last_entry, newest_first, insert_entry, is_before, codes_lt,
}
use jungle_backend_challenge.Wallets.Pages.Order.{IsSorted}
use jungle_backend_challenge.Wallets.Pages.Walk.{walk, walk-listed}
use jungle_backend_challenge.Wallets.Pages.{Position}
use jungle_backend_challenge.Wallets.Controller.{QueryFormats, next_text, read_limit, ledger}
use jungle_backend_challenge.Wallets.Controller.Following.{IsFollowed, ledger-next_text}
use jungle_backend_challenge.Tests.Fixtures.{world, wallet, opened, opening_entry}
use jungle_backend_challenge.Tests.Witnesses.{opened-IsSound}

reconcile_lem_example :
    (r : Reconciliation) × (reconcile "w1" world ≡ (ok r, world))
    × ((r.consistent ≡ true)
        ↔ (cents "100.00" + total debit "w1" opened.ledger ≡ total credit "w1" opened.ledger))
    × ((r.consistent ≡ true) ↔ (r.difference.amount ≡ "0.00"))
    × (r.stored_balance.amount ≡ "100.00")
    × (r.checked_entries ≡ entries "w1" opened.ledger)
reconcile_lem_example = reconcile_lem "w1" wallet world refl

reconcile-IsSound_example :
    (r : Reconciliation) × (reconcile "w1" world ≡ (ok r, world))
    × (r.consistent ≡ true)
    × (r.difference.amount ≡ "0.00")
reconcile-IsSound_example = reconcile-IsSound "w1" wallet world opened-IsSound refl

abbrev cursor : LedgerCursor
cursor = record {
  created_at = "2026-01-01T00:00:00.000Z";
  id = "0195f3a0-0000-7000-8000-000000000001";
}

-- A codec that hides nothing, at the one cursor.
abbrev codec : CursorCodec
codec = record {
  to_base64url = λ s. s;
  from_base64url = λ s. s;
  parse = λ s. some (cursor_json cursor);
  parse_date = λ s. some 1767225600000;
}

decode-Decoded_example :
    Decoded codec cursor (decode_ledger_cursor codec (encode_ledger_cursor codec cursor))
decode-Decoded_example = decode-Decoded codec cursor (record { base64url = refl; json = refl })

abbrev entry_at : String → ℕ → LedgerRow
entry_at id at = record opening_entry { id = id; created_at = at }

-- Entries of three milliseconds, read one by one.
abbrev spaced : List LedgerRow
spaced = entry_at "l1" 1000 ∷ entry_at "l2" 3000 ∷ entry_at "l3" 2000 ∷ []

walk-listed_example :
    (walk (length (listed "w1" none spaced) + 1) "w1" none 1 spaced ≡ listed "w1" none spaced)
    × IsSorted (listed "w1" none spaced)
walk-listed_example =
    walk-listed "w1" spaced 1 (omega arith) (refl, (refl, (refl, tt))) (refl, (refl, (refl, tt)))

-- Two entries of one millisecond, read one by one: the cursor of the newer one passes over the other.
entry_skipped :
    walk 3 "w1" none 1 (entry_at "l1" 1500 ∷ entry_at "l2" 1700 ∷ []) ≡ entry_at "l2" 1700 ∷ []
unfolding walk page_of listed take next_of last_entry newest_first insert_entry is_before codes_lt
entry_skipped = refl

-- What the codec of the cursor is for a position.
abbrev query_formats : QueryFormats
query_formats = record {
  to_number = λ s. some 2;
  iso = λ t. "2026-01-01T00:00:00.000Z";
  to_timestamp = λ s. some 5000;
}

abbrev position : Position
position = record { at = 5000; id = "0195f3a0-0000-7000-8000-000000000001" }

position-IsFollowed : IsFollowed codec query_formats position
unfolding encode_ledger_cursor uuid_pattern stringify
position-IsFollowed = record {
  read_back = record { base64url = refl; json = refl };
  filled = refl;
  uuid = refl;
  time = 1767225600000;
  date = refl;
  timestamp = refl;
}

ledger-next_text_example :
    ledger codec query_formats "w1" (next_text codec query_formats (some position)) (some "2") world
    ≡ (
      ok (record {
        status = 200;
        body = record {
          entries = (page_of "w1" (some position) 2 opened.ledger).entries;
          next_cursor =
              next_text codec query_formats
                (page_of "w1" (some position) 2 opened.ledger).next_cursor;
        };
      }),
      world,
    )
unfolding read_limit
ledger-next_text_example =
    ledger-next_text codec query_formats "w1" (some "2") 2 wallet position world refl refl
      position-IsFollowed
