-- ===== src/Domain/CanonicalJson.antt =====
-- src/domain/canonical-json.ts: JSON with its keys sorted at every depth, and its hash. Keys are
-- compared by code points, which is the order of UTF-16 units for keys in ASCII, and are no
-- numerals, which JavaScript would move to the front.
use Prim.Native.Char.{Char, code}
use Prim.Native.String.{compare, ◌++◌}
use text.Mathlib.Text.{is_le}
use jungle_backend_challenge.Prelude.{
  ℕ, ◌≡◌, refl, Bool, true, false, String, Option, none, some, ◌==◌, if◌then◌else◌, nat_eq, ltb,
  ◌/◌, ◌%◌,
}
use jungle_backend_challenge.Domain.Amount.Print.{digit_char}

mutual
  pub data Json : Type 0 where
    null : Json
    bool : Bool → Json
    str : String → Json
    -- the text of a number, as JSON.stringify writes it
    num : String → Json
    arr : Items → Json
    obj : Fields → Json

  pub data Items : Type 0 where
    nil : Items
    cons : Json → Items → Items

  pub data Fields : Type 0 where
    end : Fields
    field : String → Json → Fields → Fields

-- One step of `Object.keys(obj).sort()`.
unfoldable pub insert_field : String → Json → Fields → Fields
insert_field k v end = field k v end
insert_field k v (field j u rest) =
    if is_le (compare k j) then field k v (field j u rest) else field j u (insert_field k v rest)

unfoldable mutual
  unfolding insert_field

  pub to_canonical : Json → Json
  to_canonical (arr xs) = arr (canonical_items xs)
  to_canonical (obj fs) = obj (canonical_fields fs)
  to_canonical null = null
  to_canonical (bool b) = bool b
  to_canonical (str s) = str s
  to_canonical (num s) = num s

  pub canonical_items : Items → Items
  canonical_items nil = nil
  canonical_items (cons x xs) = cons (to_canonical x) (canonical_items xs)

  pub canonical_fields : Fields → Fields
  canonical_fields end = end
  canonical_fields (field k v rest) = insert_field k (to_canonical v) (canonical_fields rest)

-- `\u` and four hexadecimal digits, for the control characters below 32.
unfoldable pub hex_digit : ℕ → Char
unfolding digit_char
hex_digit n =
    if ltb n 10
    then digit_char n
    else (if nat_eq n 10
        then "a"
        else if nat_eq n 11
        then "b"
        else if nat_eq n 12
        then "c"
        else if nat_eq n 13
        then "d"
        else if nat_eq n 14
        then "e"
        else "f")

unfoldable pub escape : Char → String
unfolding hex_digit
escape c =
    if nat_eq (code c) b'"'
    then "\\\""
    else if nat_eq (code c) 92
    then "\\\\"
    else if nat_eq (code c) 8
    then "\\b"
    else if nat_eq (code c) 9
    then "\\t"
    else if nat_eq (code c) 10
    then "\\n"
    else if nat_eq (code c) 12
    then "\\f"
    else if nat_eq (code c) 13
    then "\\r"
    else if ltb (code c) 32
    then "\\u00"
      ++ String.◌∷◌ (hex_digit (code c / 16)) (String.◌∷◌ (hex_digit (code c % 16)) String.[])
    else String.◌∷◌ c String.[]

unfoldable pub escaped : String → String
unfolding escape
escaped String.[] = String.[]
escaped (String.◌∷◌ c s) = escape c ++ escaped s

unfoldable pub quote : String → String
unfolding escaped
quote s = "\"" ++ (escaped s ++ "\"")

-- `JSON.stringify`
unfoldable mutual
  unfolding quote

  pub stringify : Json → String
  stringify null = "null"
  stringify (bool true) = "true"
  stringify (bool false) = "false"
  stringify (str s) = quote s
  stringify (num s) = s
  stringify (arr xs) = "[" ++ (stringify_items xs ++ "]")
  stringify (obj fs) = "{" ++ (stringify_fields fs ++ "}")

  pub stringify_items : Items → String
  stringify_items nil = ""
  stringify_items (cons x nil) = stringify x
  stringify_items (cons x (cons y ys)) = stringify x ++ ("," ++ stringify_items (cons y ys))

  pub stringify_fields : Fields → String
  stringify_fields end = ""
  stringify_fields (field k v end) = quote k ++ (":" ++ stringify v)
  stringify_fields (field k v (field j u rest)) =
      quote k ++ (":" ++ (stringify v ++ ("," ++ stringify_fields (field j u rest))))

unfoldable pub canonicalize : Json → String
unfolding stringify to_canonical
canonicalize value = stringify (to_canonical value)

-- SHA-256 in hexadecimal is a parameter.
unfoldable pub payload_hash : (String → String) → Json → String
unfolding canonicalize
payload_hash sha256 value = sha256 (canonicalize value)

-- The value of a property of what JSON.parse returns, which keeps the last of two with one name.
unfoldable pub property : String → Fields → Option Json
property key end = none
property key (field k v rest) = elim (property key rest) [
  | some later ↦ some later
  | none ↦ if k == key then some v else none
]

abbrev pub text_property : String → Fields → Option String
text_property key fs = elim (property key fs) [ some (str s) ↦ some s | _ ↦ none ]

sorted_keys :
    canonicalize
      (obj (field "b" (str "x\"") (field "a" (arr (cons null (cons (num "1") nil))) end)))
    ≡ "{\"a\":[null,1],\"b\":\"x\\\"\"}"
unfolding canonicalize
sorted_keys = refl
