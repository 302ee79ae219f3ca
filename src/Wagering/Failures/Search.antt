-- ===== src/Wagering/Failures/Search.antt =====
-- The search for pieces of a text in src/wagering/process-wager.ts: a piece is found if it is there.
use jungle_backend_challenge.Prelude.{
  ℕ, ◌≡◌, refl, ap, subst, inl, inr, true, String, codes, List, [], ◌∷◌, ◌++◌, map, arith,
  Bool-cases, Has, here, there,
}
use jungle_backend_challenge.Wagering.Failures.{
  lower, starts_with_codes, contains_codes, matches_any,
}

pub starts-append :
    (p s : List ℕ) → starts_with_codes p s ≡ true → (after : List ℕ) × (p ++ after ≡ s)
unfolding starts_with_codes
starts-append [] s h = (s, refl)
starts-append (c ∷ p) [] h = ground arith
starts-append (c ∷ p) (d ∷ s) h =
    let (after, e) = starts-append p s (ground arith) in
    let same : c ≡ d = ground arith in (after, cc)

pub append-starts : (p after : List ℕ) → starts_with_codes p (p ++ after) ≡ true
unfolding starts_with_codes
append-starts [] after = refl
append-starts (c ∷ p) after = ground (arith, append-starts p after)

pub contains-append :
    (p s : List ℕ)
    → contains_codes p s ≡ true
    → (before : List ℕ) × (after : List ℕ) × (before ++ (p ++ after) ≡ s)
unfolding contains_codes
contains-append p [] h = let (after, e) = starts-append p [] h in ([], after, e)
contains-append p (c ∷ s) h = elim (Bool-cases (starts_with_codes p (c ∷ s))) [
  | inl first ↦ let (after, e) = starts-append p (c ∷ s) first in ([], after, e)
  | inr later ↦
      let (before, after, e) = contains-append p s (ground arith) in
      (c ∷ before, after, ap (λ l. c ∷ l) e)
]

starts-contains : (p s : List ℕ) → starts_with_codes p s ≡ true → contains_codes p s ≡ true
unfolding contains_codes
starts-contains p [] h = h
starts-contains p (c ∷ s) h = rw h refl

pub append-contains : (p before after : List ℕ) → contains_codes p (before ++ (p ++ after)) ≡ true
unfolding contains_codes
append-contains p [] after = starts-contains p (p ++ after) (append-starts p after)
append-contains p (c ∷ before) after = ground (arith, append-contains p before after)

-- A text has a piece somewhere, in whatever case.
pub record Says (piece text : String) : Type 0 where
  pub before : List ℕ
  pub after : List ℕ
  pub whole : before ++ (codes piece ++ after) ≡ map lower (codes text)

pub matches_any-Says :
    (pieces : List String) (text : String)
    → matches_any pieces text ≡ true
    → (piece : String) × Has piece pieces × Says piece text
unfolding matches_any
matches_any-Says [] text h = ground arith
matches_any-Says (p ∷ pieces) text h =
    elim (Bool-cases (contains_codes (codes p) (map lower (codes text)))) [
      | inl found ↦
          let (before, after, e) = contains-append (codes p) (map lower (codes text)) found in
          (p, here refl, record { before = before; after = after; whole = e })
      | inr other ↦
          let (piece, has, says) = matches_any-Says pieces text (ground arith) in
          (piece, there has, says)
    ]

pub Says-matches_any :
    (pieces : List String) (piece text : String)
    → Has piece pieces
    → Says piece text
    → matches_any pieces text ≡ true
unfolding matches_any
Says-matches_any [] piece text has says = elim has [ ]
Says-matches_any (p ∷ pieces) piece text (here e) says =
    let found : contains_codes (codes p) (map lower (codes text)) ≡ true =
      subst (λ q. contains_codes (codes q) (map lower (codes text)) ≡ true) e
        (subst (λ s. contains_codes (codes piece) s ≡ true) says.whole
          (append-contains (codes piece) says.before says.after)) in
    rw found refl
Says-matches_any (p ∷ pieces) piece text (there has) says =
    ground (arith, Says-matches_any pieces piece text has says)
