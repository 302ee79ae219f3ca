-- ===== src/Messaging/CommandConsumer/Groups.antt =====
-- The groups of src/messaging/command-consumer.ts: the messages of a wallet stay in order.
use jungle_backend_challenge.Prelude.{
  Option, none, some, ◌≡◌, refl, sym, ap, ◌∙◌, inl, inr, Bool, true, false, String, ◌==◌, List, [],
  ◌∷◌, keep, Bool-cases, arith,
}
use jungle_backend_challenge.Messaging.Requests.{SqsMessage, or}
use jungle_backend_challenge.Wagering.Submission.{Formats}
use jungle_backend_challenge.Domain.CanonicalJson.{Json, str, obj, property, text_property}
use jungle_backend_challenge.Messaging.CommandConsumer.Keys.{of_key, of_key-order}
use jungle_backend_challenge.Messaging.CommandConsumer.{
  wallet_key, wallet_of_body, group_key, group_messages, Interleaves,
}

-- Whether a property is the text.
abbrev pub is_text : String → Option Json → Bool
is_text text (some (str s)) = s == text
is_text text _ = false

-- Whether a property of a property, which is an object, is the text.
abbrev pub is_text_in : String → String → Option Json → Bool
is_text_in name text (some (obj inner)) = is_text text (property name inner)
is_text_in name text _ = false

-- Whether the message's body is an object with the wallet as `data.walletId`.
abbrev pub is_about_body : String → Option Json → Bool
is_about_body wallet (some (obj fs)) = is_text_in "walletId" wallet (property "data" fs)
is_about_body wallet _ = false

abbrev pub is_about : Formats → String → SqsMessage → Bool
is_about fmt wallet m = is_about_body wallet (fmt.parse (or "" m.body))

-- The messages of a wallet.
abbrev pub of_wallet : Formats → String → List SqsMessage → List SqsMessage
of_wallet fmt wallet = keep (is_about fmt wallet)

-- Whether a message goes to the group of the wallet, by what its body names.
abbrev is_keyed : String → String → Option String → Bool
is_keyed single wallet named =
    elim named as (λ _. String) [ some id ↦ id | none ↦ single ] == wallet

text-keyed :
    (wallet single : String) (p : Option Json)
    → is_text wallet p ≡ true
    → is_keyed single wallet (elim p as (λ _. Option String) [ some (str s) ↦ some s | _ ↦ none ])
      ≡ true
text-keyed wallet single none h = ground arith
text-keyed wallet single (some (str s)) h = h
text-keyed wallet single (some _) h = ground arith

data-keyed :
    (wallet single : String) (p : Option Json)
    → is_text_in "walletId" wallet p ≡ true
    → is_keyed single wallet (elim p as (λ _. Option String) [
      | some (obj fields) ↦ text_property "walletId" fields
      | _ ↦ none
    ])
      ≡ true
data-keyed wallet single none h = ground arith
data-keyed wallet single (some (obj fields)) h =
    text-keyed wallet single (property "walletId" fields) h
data-keyed wallet single (some _) h = ground arith

about-keyed :
    (wallet single : String) (body : Option Json)
    → is_about_body wallet body ≡ true
    → is_keyed single wallet (wallet_of_body body) ≡ true
unfolding wallet_of_body
about-keyed wallet single none h = ground arith
about-keyed wallet single (some (obj fs)) h = data-keyed wallet single (property "data" fs) h
about-keyed wallet single (some _) h = ground arith

module _ (fmt : Formats) where
  -- The messages of a wallet are in its group, with others if their key is the wallet by chance.
  about-group_key :
      (wallet : String) (m : SqsMessage)
      → is_about fmt wallet m ≡ true
      → (group_key fmt m == wallet) ≡ true
  unfolding group_key wallet_key
  about-group_key wallet m h = about-keyed wallet _ (fmt.parse (or "" m.body)) h

  of_wallet-of_key :
      (wallet : String) (ms : List SqsMessage)
      → of_wallet fmt wallet (of_key fmt wallet ms) ≡ of_wallet fmt wallet ms
  of_wallet-of_key wallet [] = refl
  of_wallet-of_key wallet (m ∷ ms) = elim (Bool-cases (is_about fmt wallet m)) [
    | inl about ↦
        rw (about-group_key wallet m about, about) (ap (λ l. m ∷ l) (of_wallet-of_key wallet ms))
    | inr other ↦ elim (Bool-cases (group_key fmt m == wallet)) [
      | inl same ↦ rw (same, other) (of_wallet-of_key wallet ms)
      | inr different ↦ rw (different, other) (of_wallet-of_key wallet ms)
    ]
  ]

  -- In every order in which the groups of a batch may run, the messages whose body names a wallet
  -- come as they were received: none is lost, none is repeated, and none overtakes another.
  pub group_messages-keeps_order :
      (messages order : List SqsMessage) (wallet : String)
      → Interleaves (group_messages fmt messages) order
      → of_wallet fmt wallet order ≡ of_wallet fmt wallet messages
  group_messages-keeps_order messages order wallet i =
      sym (of_wallet-of_key wallet order)
      ∙ ap (λ l. of_wallet fmt wallet l) (of_key-order fmt messages order wallet i)
      ∙ of_wallet-of_key wallet messages
