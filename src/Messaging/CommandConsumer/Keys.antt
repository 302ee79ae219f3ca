-- ===== src/Messaging/CommandConsumer/Keys.antt =====
-- The groups of src/messaging/command-consumer.ts by their keys: the messages of a key stay in order.
use jungle_backend_challenge.Prelude.{
  ◌≡◌, refl, sym, ap, ◌∙◌, inl, inr, Bool, true, false, String, ◌==◌, eq_iff, List, [], ◌∷◌, ◌++◌,
  keep, Bool-cases, arith, if◌then◌else◌,
}
use mathlib.Core.List.{append_assoc, append-nil}
use jungle_backend_challenge.Messaging.Requests.{SqsMessage}
use jungle_backend_challenge.Wagering.Submission.{Formats}
use jungle_backend_challenge.Messaging.CommandConsumer.{
  Group, group_key, push, add_to_group, group_from, group_messages, Take, here, there, AllDone,
  Interleaves, done, next,
}

-- The messages of a key.
abbrev pub of_key : Formats → String → List SqsMessage → List SqsMessage
of_key fmt key = keep (λ m. group_key fmt m == key)

messages_of : String → List Group → List SqsMessage
messages_of key [] = []
messages_of key ((k, ms) ∷ groups) = if k == key then ms else messages_of key groups

has_group : String → List Group → Bool
has_group key [] = false
has_group key ((k, ms) ∷ groups) = if k == key then true else has_group key groups

push-append : (m : SqsMessage) (ms : List SqsMessage) → push m ms ≡ ms ++ m ∷ []
unfolding push
push-append m [] = refl
push-append m (x ∷ xs) = ap (λ l. x ∷ l) (push-append m xs)

module _ (fmt : Formats) where
  AllKeyed : String → List SqsMessage → Type 0
  AllKeyed k [] = Unit
  AllKeyed k (m ∷ ms) = (group_key fmt m ≡ k) × AllKeyed k ms

  -- Each group has the messages of its key, and no two groups have one key.
  AllGrouped : List Group → Type 0
  AllGrouped [] = Unit
  AllGrouped ((k, ms) ∷ groups) = AllKeyed k ms × (has_group k groups ≡ false) × AllGrouped groups

  AllKeyed-push :
      (k : String) (m : SqsMessage) (ms : List SqsMessage)
      → group_key fmt m ≡ k
      → AllKeyed k ms
      → AllKeyed k (push m ms)
  unfolding push AllKeyed
  AllKeyed-push k m [] e h = (e, tt)
  AllKeyed-push k m (x ∷ xs) e h = (h.0, AllKeyed-push k m xs e h.1)

  has_group-add :
      (j k : String) (m : SqsMessage) (groups : List Group)
      → (k == j) ≡ false
      → has_group j (add_to_group k m groups) ≡ has_group j groups
  unfolding has_group add_to_group
  has_group-add j k m [] other = rw other refl
  has_group-add j k m ((i, ms) ∷ groups) other =
      ground (arith, has_group-add j k m groups other, eq_iff i k, eq_iff i j, eq_iff k j)

  add-AllGrouped :
      (m : SqsMessage) (groups : List Group)
      → AllGrouped groups
      → AllGrouped (add_to_group (group_key fmt m) m groups)
  unfolding AllGrouped add_to_group AllKeyed has_group
  add-AllGrouped m [] h = ((refl, tt), refl, tt)
  add-AllGrouped m ((k, ms) ∷ groups) h = elim (Bool-cases (k == group_key fmt m)) [
    | inl e ↦ rw e (AllKeyed-push k m ms (sym ((eq_iff k (group_key fmt m)).0 e)) h.0, h.1, h.2)
    | inr e ↦ rw e (
      h.0,
      has_group-add k (group_key fmt m) m groups
            (ground (arith, eq_iff k (group_key fmt m), eq_iff (group_key fmt m) k))
          ∙ h.1,
      add-AllGrouped m groups h.2,
    )
  ]

  messages_of-add :
      (j k : String) (m : SqsMessage) (groups : List Group)
      → messages_of j (add_to_group k m groups)
        ≡ messages_of j groups ++ (if k == j then m ∷ [] else [])
  unfolding messages_of add_to_group
  messages_of-add j k m [] = refl
  messages_of-add j k m ((i, ms) ∷ groups) = ground (
    arith,
    eq_iff i k,
    eq_iff i j,
    eq_iff k j,
    push-append m ms,
    append-nil ms,
    append-nil (messages_of j groups),
    messages_of-add j k m groups,
  )

  group_from-AllGrouped :
      (ms : List SqsMessage) (groups : List Group)
      → AllGrouped groups
      → AllGrouped (group_from fmt groups ms)
  unfolding group_from
  group_from-AllGrouped [] groups h = h
  group_from-AllGrouped (m ∷ ms) groups h = group_from-AllGrouped ms _ (add-AllGrouped m groups h)

  messages_of-group_from :
      (j : String) (ms : List SqsMessage) (groups : List Group)
      → messages_of j (group_from fmt groups ms) ≡ messages_of j groups ++ of_key fmt j ms
  unfolding group_from
  messages_of-group_from j [] groups = sym (append-nil _)
  messages_of-group_from j (m ∷ ms) groups =
      messages_of-group_from j ms (add_to_group (group_key fmt m) m groups)
      ∙ ap (λ l. l ++ of_key fmt j ms) (messages_of-add j (group_key fmt m) m groups)
      ∙ append_assoc (messages_of j groups) _ (of_key fmt j ms)
      ∙ ap (λ l. messages_of j groups ++ l) (first (group_key fmt m == j))
    where
      first :
          (b : Bool)
          → (if b then m ∷ [] else []) ++ of_key fmt j ms
            ≡ (if b then m ∷ of_key fmt j ms else of_key fmt j ms)
      first true = refl
      first false = refl

  -- A step of an interleaving takes the first message of its key.
  has_group-Take :
      {groups groups' : List Group} {m : SqsMessage} (j : String)
      → Take groups m groups'
      → has_group j groups' ≡ has_group j groups
  unfolding has_group
  has_group-Take j here = refl
  has_group-Take j (there {g = (k, ms)} t) = ground (arith, has_group-Take j t)

  Take-AllGrouped :
      {groups groups' : List Group} {m : SqsMessage}
      → Take groups m groups'
      → AllGrouped groups
      → AllGrouped groups'
  unfolding AllGrouped AllKeyed
  Take-AllGrouped here h = (h.0.1, h.1, h.2)
  Take-AllGrouped (there {g = (k, ms)} t) h = (h.0, has_group-Take k t ∙ h.1, Take-AllGrouped t h.2)

  -- The group of a message that is taken is there.
  Take-has_group :
      {groups groups' : List Group} {m : SqsMessage}
      → Take groups m groups'
      → AllGrouped groups
      → has_group (group_key fmt m) groups ≡ true
  unfolding has_group AllGrouped AllKeyed
  Take-has_group {m} (here {k = k}) h = ground (arith, eq_iff k (group_key fmt m))
  Take-has_group {m} (there {g = (k, ms)} t) h = ground (arith, Take-has_group t h.2)

  messages_of-Take :
      {groups groups' : List Group} {m : SqsMessage} (j : String)
      → Take groups m groups'
      → AllGrouped groups
      → messages_of j groups
        ≡ (if group_key fmt m == j then m ∷ messages_of j groups' else messages_of j groups')
  unfolding messages_of AllGrouped AllKeyed
  messages_of-Take {m} j (here {k = k}) h = ground (arith, eq_iff k j, eq_iff (group_key fmt m) j)
  messages_of-Take {m} j (there {g = (k, ms)} t) h = ground (
    arith,
    eq_iff k j,
    eq_iff (group_key fmt m) j,
    Take-has_group t h.2,
    messages_of-Take j t h.2,
  )

  AllDone-messages_of :
      (j : String) (groups : List Group) → AllDone groups → messages_of j groups ≡ []
  unfolding messages_of
  AllDone-messages_of j [] h = refl
  AllDone-messages_of j ((k, []) ∷ groups) h = ground (arith, AllDone-messages_of j groups h)
  AllDone-messages_of j ((k, m ∷ ms) ∷ groups) h = absurd h

  Interleaves-of_key :
      {groups : List Group} {order : List SqsMessage} (j : String)
      → Interleaves groups order
      → AllGrouped groups
      → of_key fmt j order ≡ messages_of j groups
  Interleaves-of_key {groups} j (done d) h = sym (AllDone-messages_of j groups d)
  Interleaves-of_key j (next {m = m} t i) h =
      ground (arith, messages_of-Take j t h, Interleaves-of_key j i (Take-AllGrouped t h))

  pub of_key-order :
      (messages order : List SqsMessage) (key : String)
      → Interleaves (group_messages fmt messages) order
      → of_key fmt key order ≡ of_key fmt key messages
  unfolding group_messages AllGrouped messages_of
  of_key-order messages order key i =
      Interleaves-of_key key i (group_from-AllGrouped messages [] tt)
      ∙ messages_of-group_from key messages []
