-- ===== src/Wallets/Cursor.antt =====
-- src/wallets/ledger-cursor.ts: the opaque cursor of a page. Base64URL over UTF-8, JSON.parse and
-- Date.parse are parameters.
pub mod Uuids
use jungle_backend_challenge.Prelude.{
  ℕ, zero, suc, ◌≡◌, refl, Bool, true, false, ◌&&◌, ◌||◌, String, codes, Option, none, some, List,
  [], ◌∷◌, leb, nat_eq, is_digit, if◌then◌else◌,
}
use jungle_backend_challenge.Domain.CanonicalJson.{
  Json, str, obj, Fields, end, field, property, text_property, stringify,
}

-- `LedgerCursor`
pub record LedgerCursor : Type 0 where
  pub created_at : String
  pub id : String

-- `Buffer` and `JSON.parse`, which fails on some texts, and `Date.parse`, which may give no number.
pub record CursorCodec : Type 0 where
  pub to_base64url : String → String
  pub from_base64url : String → String
  pub parse : String → Option Json
  pub parse_date : String → Option ℕ

unfoldable pub is_hex : ℕ → Bool
is_hex c = is_digit c || ((leb b'a' c && leb c b'f') || (leb b'A' c && leb c b'F'))

-- So many hexadecimal digits, and then the rest.
unfoldable pub hex_then : ℕ → (List ℕ → Bool) → List ℕ → Bool
unfolding is_hex
hex_then zero rest s = rest s
hex_then (suc n) rest [] = false
hex_then (suc n) rest (c ∷ s) = is_hex c && hex_then n rest s

unfoldable pub dash_then : (List ℕ → Bool) → List ℕ → Bool
dash_then rest [] = false
dash_then rest (c ∷ s) = nat_eq c b'-' && rest s

unfoldable pub nothing_left : List ℕ → Bool
nothing_left [] = true
nothing_left (c ∷ s) = false

-- `UUID_REGEX`
unfoldable pub uuid_pattern : List ℕ → Bool
unfolding hex_then dash_then nothing_left
uuid_pattern = hex_then 8 (
    dash_then (
      hex_then 4
        (dash_then (hex_then 4 (dash_then (hex_then 4 (dash_then (hex_then 12 nothing_left))))))))

abbrev pub cursor_json : LedgerCursor → Json
cursor_json c = obj (field "createdAt" (str c.created_at) (field "id" (str c.id) end))

unfoldable pub encode_ledger_cursor : CursorCodec → LedgerCursor → String
encode_ledger_cursor codec c = codec.to_base64url (stringify (cursor_json c))

-- The two properties that are checked; others are left alone.
unfoldable pub checked_cursor : CursorCodec → String → String → Option LedgerCursor
unfolding uuid_pattern
checked_cursor codec created_at id =
    if uuid_pattern (codes id)
    then elim (codec.parse_date created_at) [
      | none ↦ none
      | some time ↦ some (record { created_at = created_at; id = id })
    ]
    else none

unfoldable pub cursor_of_fields : CursorCodec → Fields → Option LedgerCursor
unfolding checked_cursor property
cursor_of_fields codec fs = elim (text_property "createdAt" fs) [
  | none ↦ none
  | some created_at ↦ elim (text_property "id" fs) [
    | none ↦ none
    | some id ↦ checked_cursor codec created_at id
  ]
]

unfoldable pub cursor_of_json : CursorCodec → Option Json → Option LedgerCursor
unfolding cursor_of_fields
cursor_of_json codec (some (obj fs)) = cursor_of_fields codec fs
cursor_of_json codec _ = none

unfoldable pub decode_ledger_cursor : CursorCodec → String → Option LedgerCursor
unfolding cursor_of_json
decode_ledger_cursor codec raw = cursor_of_json codec (codec.parse (codec.from_base64url raw))

-- What is documented of the codec, for one cursor: base64url decodes what it encoded, and JSON.parse
-- reads what JSON.stringify wrote.
pub record IsReadBack (codec : CursorCodec) (c : LedgerCursor) : Type 0 where
  pub base64url :
      codec.from_base64url (codec.to_base64url (stringify (cursor_json c)))
      ≡ stringify (cursor_json c)
  pub json : codec.parse (stringify (cursor_json c)) ≡ some (cursor_json c)

pub decode-encode :
    (codec : CursorCodec) (c : LedgerCursor)
    → IsReadBack codec c
    → decode_ledger_cursor codec (encode_ledger_cursor codec c) ≡ (
        if uuid_pattern (codes c.id)
        then elim (codec.parse_date c.created_at) [ none ↦ none | some time ↦ some c ]
        else none)
unfolding decode_ledger_cursor encode_ledger_cursor cursor_of_json cursor_of_fields checked_cursor
decode-encode codec c back = rw (back.base64url, back.json) refl
