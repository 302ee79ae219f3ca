-- ===== src/Wallets/Cursor/Uuids.antt =====
-- The cursors that src/wallets/ledger-cursor.ts decodes: those of a UUID, in a form of its own, and a
-- date.
use jungle_backend_challenge.Prelude.{
  ℕ, zero, suc, ◌≤◌, ◌≡◌, refl, ap, sym, subst, inl, inr, true, codes, Option, none, some, List, [],
  ◌∷◌, ◌++◌, length, leb, ◌∙◌, arith, Bool, Bool-cases,
}
use mathlib.Core.List.{append-nil}
use jungle_backend_challenge.Wallets.Cursor.{
  LedgerCursor, CursorCodec, IsReadBack, is_hex, hex_then, dash_then, nothing_left, uuid_pattern,
  encode_ledger_cursor, decode_ledger_cursor, decode-encode,
}

pub data IsHex (c : ℕ) : Type 0 where
  digit : b'0' ≤ c → c ≤ b'9' → IsHex c
  small : b'a' ≤ c → c ≤ b'f' → IsHex c
  capital : b'A' ≤ c → c ≤ b'F' → IsHex c

abbrev pub AllHex : List ℕ → Type 0
AllHex [] = Unit
AllHex (c ∷ cs) = IsHex c × AllHex cs

-- So many hexadecimal digits.
abbrev pub IsBlock : ℕ → List ℕ → Type 0
IsBlock n s = (length s ≡ n) × AllHex s

-- A block, a dash and what follows.
abbrev pub dashed : List ℕ → List ℕ → List ℕ
dashed a s = a ++ (b'-' ∷ s)

-- Five blocks of 8, 4, 4, 4 and 12 hexadecimal digits, with dashes between them.
pub data IsUuid : List ℕ → Type 0 where
  blocks :
      (a b c d e : List ℕ)
      → IsBlock 8 a
      → IsBlock 4 b
      → IsBlock 4 c
      → IsBlock 4 d
      → IsBlock 12 e
      → IsUuid (dashed a (dashed b (dashed c (dashed d e))))

is_hex-IsHex : (c : ℕ) → is_hex c ≡ true → IsHex c
unfolding is_hex
is_hex-IsHex c h = elim (Bool-cases (leb c b'9')) [
  | inl low ↦ digit (ground arith) (ground arith)
  | inr high ↦ elim (Bool-cases (leb b'a' c)) [
    | inl late ↦ small (ground arith) (ground arith)
    | inr early ↦ capital (ground arith) (ground arith)
  ]
]

IsHex-is_hex : (c : ℕ) → IsHex c → is_hex c ≡ true
unfolding is_hex
IsHex-is_hex c (digit low high) = ground arith
IsHex-is_hex c (small low high) = ground arith
IsHex-is_hex c (capital low high) = ground arith

-- What a block and the rest take from a text.
record Split (n : ℕ) (rest : List ℕ → Bool) (s : List ℕ) : Type 0 where
  block : List ℕ
  tail : List ℕ
  whole : block ++ tail ≡ s
  digits : IsBlock n block
  passes : rest tail ≡ true

hex_then-Split :
    (n : ℕ) (rest : List ℕ → Bool) (s : List ℕ) → hex_then n rest s ≡ true → Split n rest s
unfolding hex_then
hex_then-Split zero rest s h = record {
  block = [];
  tail = s;
  whole = refl;
  digits = (refl, tt);
  passes = h;
}
hex_then-Split (suc n) rest [] h = ground arith
hex_then-Split (suc n) rest (c ∷ s) h =
    let more = hex_then-Split n rest s (ground arith) in
    record {
      block = c ∷ more.block;
      tail = more.tail;
      whole = ap (λ l. c ∷ l) more.whole;
      digits = (omega (arith, more.digits.0), (is_hex-IsHex c (ground arith), more.digits.1));
      passes = more.passes;
    }

-- A block of the digits passes on what follows it.
Block-hex_then :
    (n : ℕ) (rest : List ℕ → Bool) (block tail : List ℕ)
    → IsBlock n block
    → hex_then n rest (block ++ tail) ≡ rest tail
unfolding hex_then
Block-hex_then zero rest [] tail h = refl
Block-hex_then zero rest (c ∷ block) tail h = absurd (omega (arith, h.0))
Block-hex_then (suc n) rest [] tail h = absurd (omega (arith, h.0))
Block-hex_then (suc n) rest (c ∷ block) tail h =
    rw (IsHex-is_hex c h.1.0) (Block-hex_then n rest block tail (omega (arith, h.0), h.1.1))

record Dashed (rest : List ℕ → Bool) (s : List ℕ) : Type 0 where
  tail : List ℕ
  whole : b'-' ∷ tail ≡ s
  passes : rest tail ≡ true

dash_then-Dashed : (rest : List ℕ → Bool) (s : List ℕ) → dash_then rest s ≡ true → Dashed rest s
unfolding dash_then
dash_then-Dashed rest [] h = ground arith
dash_then-Dashed rest (c ∷ s) h =
    let same : b'-' ≡ c = ground arith in
    record { tail = s; whole = ap (λ c. c ∷ s) same; passes = ground arith }

nothing_left-empty : (s : List ℕ) → nothing_left s ≡ true → s ≡ []
unfolding nothing_left
nothing_left-empty [] h = refl
nothing_left-empty (c ∷ s) h = ground arith

-- A block, a dash and what follows it are the text.
joined :
    {n : ℕ} {rest : List ℕ → Bool} {s : List ℕ} (a : Split n (dash_then rest) s)
    (d : Dashed rest a.tail) (x : List ℕ)
    → x ≡ d.tail
    → dashed a.block x ≡ s
joined a d x e = ap (λ l. dashed a.block l) e ∙ ap (λ l. a.block ++ l) d.whole ∙ a.whole

uuid_pattern-IsUuid : (s : List ℕ) → uuid_pattern s ≡ true → IsUuid s
unfolding uuid_pattern
uuid_pattern-IsUuid s h =
    let a = hex_then-Split 8 _ s h in
    let a' = dash_then-Dashed _ a.tail a.passes in
    let b = hex_then-Split 4 _ a'.tail a'.passes in
    let b' = dash_then-Dashed _ b.tail b.passes in
    let c = hex_then-Split 4 _ b'.tail b'.passes in
    let c' = dash_then-Dashed _ c.tail c.passes in
    let d = hex_then-Split 4 _ c'.tail c'.passes in
    let d' = dash_then-Dashed _ d.tail d.passes in
    let e = hex_then-Split 12 nothing_left d'.tail d'.passes in
    let last : e.block ≡ d'.tail =
      sym (append-nil e.block)
      ∙ ap (λ l. e.block ++ l) (sym (nothing_left-empty e.tail e.passes))
      ∙ e.whole in
    subst IsUuid (joined a a' _ (joined b b' _ (joined c c' _ (joined d d' _ last))))
      (blocks a.block b.block c.block d.block e.block a.digits b.digits c.digits d.digits e.digits)

IsUuid-uuid_pattern : (s : List ℕ) → IsUuid s → uuid_pattern s ≡ true
unfolding uuid_pattern dash_then nothing_left
IsUuid-uuid_pattern s (blocks a b c d e ha hb hc hd he) =
    Block-hex_then 8 _ a _ ha
    ∙ Block-hex_then 4 _ b _ hb
    ∙ Block-hex_then 4 _ c _ hc
    ∙ Block-hex_then 4 _ d _ hd
    ∙ ap (λ l. hex_then 12 nothing_left l) (sym (append-nil e))
    ∙ Block-hex_then 12 nothing_left e [] he

-- What is decoded of a cursor that was encoded.
pub data Decoded (codec : CursorCodec) (c : LedgerCursor) : Option LedgerCursor → Type 0 where
  accepted :
      (time : ℕ)
      → IsUuid (codes c.id)
      → codec.parse_date c.created_at ≡ some time
      → Decoded codec c (some c)
  no_uuid : ¬ IsUuid (codes c.id) → Decoded codec c none
  no_date : codec.parse_date c.created_at ≡ none → Decoded codec c none

-- A cursor that is encoded, and that the codec reads back, is decoded to itself if its identifier is
-- five blocks of 8, 4, 4, 4 and 12 hexadecimal digits with dashes between them and its time is a date;
-- it is refused if not.
pub decode-Decoded :
    (codec : CursorCodec) (c : LedgerCursor)
    → IsReadBack codec c
    → Decoded codec c (decode_ledger_cursor codec (encode_ledger_cursor codec c))
decode-Decoded codec c back =
    subst (Decoded codec c) (sym (decode-encode codec c back))
      (elim (Bool-cases (uuid_pattern (codes c.id))) [
        | inl uuid ↦
            rw uuid (dated (uuid_pattern-IsUuid _ uuid) (codec.parse_date c.created_at) refl)
        | inr other ↦ rw other (no_uuid (λ uuid. cc (IsUuid-uuid_pattern _ uuid)))
      ])
  where
    dated :
        IsUuid (codes c.id)
        → (time : Option ℕ) → codec.parse_date c.created_at ≡ time
        → Decoded codec c (elim time [ none ↦ none | some t ↦ some c ])
    dated uuid none e = no_date e
    dated uuid (some t) e = accepted t uuid e
