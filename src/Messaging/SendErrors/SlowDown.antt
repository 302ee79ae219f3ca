-- ===== src/Messaging/SendErrors/SlowDown.antt =====
-- The piece `slow.?down` that src/messaging/outbox-publisher.ts searches for: it is found if it is
-- there.
use jungle_backend_challenge.Prelude.{
  ℕ, ◌≡◌, refl, ap, inl, inr, true, codes, List, [], ◌∷◌, ◌++◌, arith, Bool-cases,
}
use jungle_backend_challenge.Wagering.Failures.{starts_with_codes}
use jungle_backend_challenge.Wagering.Failures.Search.{starts-append, append-starts}
use jungle_backend_challenge.Messaging.SendErrors.{down_follows, slow_down_here, slow_down}

-- Nothing, or one character that ends no line.
pub data IsGap : List ℕ → Type 0 where
  nothing : IsGap []
  one : {c : ℕ} → (c ≡ 10 → ⊥) → (c ≡ 13 → ⊥) → (c ≡ 0x2028 → ⊥) → (c ≡ 0x2029 → ⊥) → IsGap (c ∷ [])

-- "slow" and "down" with such a gap between them.
pub record IsSlowDown (s : List ℕ) : Type 0 where
  pub before : List ℕ
  pub gap : List ℕ
  pub after : List ℕ
  pub short : IsGap gap
  pub whole : before ++ (codes "slow" ++ (gap ++ (codes "down" ++ after))) ≡ s

-- A gap, and what follows it.
Gapped : List ℕ → Type 0
Gapped s = (gap : List ℕ) × (after : List ℕ) × IsGap gap × (gap ++ (codes "down" ++ after) ≡ s)

one-Gapped :
    (c : ℕ) (s : List ℕ)
    → IsGap (c ∷ [])
    → (after : List ℕ) × (codes "down" ++ after ≡ s)
    → Gapped (c ∷ s)
unfolding Gapped
one-Gapped c s short (after, e) = (c ∷ [], after, short, ap (λ l. c ∷ l) e)

none-Gapped : (s : List ℕ) → (after : List ℕ) × (codes "down" ++ after ≡ s) → Gapped s
unfolding Gapped
none-Gapped s (after, e) = ([], after, nothing, e)

down_follows-Gapped : (s : List ℕ) → down_follows s ≡ true → Gapped s
unfolding down_follows
down_follows-Gapped [] h = ground arith
down_follows-Gapped (c ∷ s) h = elim (Bool-cases (starts_with_codes (codes "down") (c ∷ s))) [
  | inl now ↦ none-Gapped (c ∷ s) (starts-append (codes "down") (c ∷ s) now)
  | inr later ↦
      one-Gapped c s
        (one (λ k. ground arith) (λ k. ground arith) (λ k. ground arith) (λ k. ground arith))
        (starts-append (codes "down") s (ground arith))
]

slow-IsSlowDown :
    (a b c d : ℕ) (rest : List ℕ)
    → b's' ≡ a
    → b'l' ≡ b
    → b'o' ≡ c
    → b'w' ≡ d
    → Gapped rest
    → IsSlowDown (a ∷ b ∷ c ∷ d ∷ rest)
unfolding Gapped
slow-IsSlowDown a b c d rest ha hb hc hd (gap, after, short, e) = record {
  before = [];
  gap = gap;
  after = after;
  short = short;
  whole = rw (← ha, ← hb, ← hc, ← hd, e) refl;
}

slow_down_here-IsSlowDown : (s : List ℕ) → slow_down_here s ≡ true → IsSlowDown s
unfolding slow_down_here
slow_down_here-IsSlowDown [] h = ground arith
slow_down_here-IsSlowDown (a ∷ []) h = ground arith
slow_down_here-IsSlowDown (a ∷ b ∷ []) h = ground arith
slow_down_here-IsSlowDown (a ∷ b ∷ c ∷ []) h = ground arith
slow_down_here-IsSlowDown (a ∷ b ∷ c ∷ d ∷ rest) h =
    slow-IsSlowDown a b c d rest (ground arith) (ground arith) (ground arith) (ground arith)
      (down_follows-Gapped rest (ground arith))

pub slow_down-IsSlowDown : (s : List ℕ) → slow_down s ≡ true → IsSlowDown s
unfolding slow_down
slow_down-IsSlowDown [] h = ground arith
slow_down-IsSlowDown (c ∷ s) h = elim (Bool-cases (slow_down_here (c ∷ s))) [
  | inl now ↦ slow_down_here-IsSlowDown (c ∷ s) now
  | inr later ↦
      let more = slow_down-IsSlowDown s (ground arith) in
      record {
        before = c ∷ more.before;
        gap = more.gap;
        after = more.after;
        short = more.short;
        whole = ap (λ l. c ∷ l) more.whole;
      }
]

gap-down_follows :
    (gap after : List ℕ) → IsGap gap → down_follows (gap ++ (codes "down" ++ after)) ≡ true
unfolding down_follows starts_with_codes
gap-down_follows [] after nothing = refl
gap-down_follows (c ∷ []) after (one a b d e) =
    ground (arith, append-starts (codes "down") after, a, b, d, e)
gap-down_follows (c ∷ d ∷ gap) after short = elim short [ ]

slow-here : (s : List ℕ) → down_follows s ≡ true → slow_down_here (codes "slow" ++ s) ≡ true
unfolding slow_down_here
slow-here s h = h

here-slow_down : (s : List ℕ) → slow_down_here s ≡ true → slow_down s ≡ true
unfolding slow_down slow_down_here
here-slow_down [] h = h
here-slow_down (c ∷ s) h = rw h refl

more-slow_down : (c : ℕ) (s : List ℕ) → slow_down s ≡ true → slow_down (c ∷ s) ≡ true
unfolding slow_down
more-slow_down c s h = elim (Bool-cases (slow_down_here (c ∷ s))) [
  | inl e ↦ rw e refl
  | inr e ↦ rw (e, h) refl
]

pub spread-slow_down :
    (before gap after : List ℕ)
    → IsGap gap
    → slow_down (before ++ (codes "slow" ++ (gap ++ (codes "down" ++ after)))) ≡ true
spread-slow_down [] gap after short =
    here-slow_down _ (slow-here _ (gap-down_follows gap after short))
spread-slow_down (c ∷ before) gap after short =
    more-slow_down c _ (spread-slow_down before gap after short)
