-- ===== src/Wagering/Controller/Losses.antt =====
-- What src/wagering/wagering.controller.ts reads of a message: that a connection is lost, described
-- without the search that decides it.
use jungle_backend_challenge.Prelude.{
  ℕ, ◌≡◌, subst, inl, inr, true, String, codes, List, ◌++◌, map, arith, Bool-cases,
}
use jungle_backend_challenge.Wagering.Failures.Search.{contains-append, append-contains}
use jungle_backend_challenge.Wagering.Failures.{
  lower, contains_codes, matches_any, transient_messages,
}

-- What a message says of a connection that is lost.
pub data IsLoss : String → Type 0 where
  reset : IsLoss "econnreset"
  refused : IsLoss "econnrefused"
  terminated : IsLoss "connection terminated"

-- A text says so somewhere, in whatever case.
pub data Mentions (text : String) : Type 0 where
  mention :
      (piece : String) (before after : List ℕ)
      → IsLoss piece
      → before ++ (codes piece ++ after) ≡ map lower (codes text)
      → Mentions text

any-IsLoss :
    (text : String)
    → matches_any transient_messages text ≡ true
    → (piece : String) × IsLoss piece
      × (contains_codes (codes piece) (map lower (codes text)) ≡ true)
unfolding matches_any
any-IsLoss text h =
    elim (Bool-cases (contains_codes (codes "econnreset") (map lower (codes text)))) [
      | inl e ↦ ("econnreset", reset, e)
      | inr n ↦ elim (Bool-cases (contains_codes (codes "econnrefused") (map lower (codes text)))) [
        | inl e ↦ ("econnrefused", refused, e)
        | inr n' ↦ ("connection terminated", terminated, ground arith)
      ]
    ]

IsLoss-matches :
    (text : String) {piece : String}
    → IsLoss piece
    → contains_codes (codes piece) (map lower (codes text)) ≡ true
    → matches_any transient_messages text ≡ true
unfolding matches_any
IsLoss-matches text reset h = ground arith
IsLoss-matches text refused h = ground arith
IsLoss-matches text terminated h = ground arith

pub matches-Mentions : (text : String) → matches_any transient_messages text ≡ true → Mentions text
matches-Mentions text h =
    let (piece, loss, found) = any-IsLoss text h in
    let (before, after, e) = contains-append (codes piece) (map lower (codes text)) found in
    mention piece before after loss e

pub Mentions-matches : (text : String) → Mentions text → matches_any transient_messages text ≡ true
Mentions-matches text (mention piece before after loss e) = IsLoss-matches text loss (
    subst (λ s. contains_codes (codes piece) s ≡ true) e
      (append-contains (codes piece) before after))
