-- ===== src/Wire/Nested.antt =====
-- typescript/src/gen: messages within messages.
use signet_clients.Prelude.{
  ℕ, suc, ◌^◌, true, Option, none, some, List, [], ◌∷◌, ◌++◌, All, All-imp, ltb, ◌≡◌, subst,
}
use signet_clients.Runtime.{Outcome}
use signet_clients.Wire.{Protobuf, Fields, decode_message}
use signet_clients.Wire.Fields.{message_field, repeated_message_field, into_message}
use signet_clients.Wire.Laws.{IsLawful}
use signet_clients.Wire.Feeding.{Writes}
use signet_clients.Wire.Statements.{message-Writes}
use signet_clients.Wire.Repeated.{repeated_message-Writes}
use signet_clients.Wire.Reading.{decode_message-Gets}

abbrev pub AllOption : {A : Type 0} → (A → Type 0) → Option A → Type 0
AllOption P none = Unit
AllOption P (some a) = P a

-- A field that holds a message, or an array of messages, of which `encode` and `decode` are known.
module _ {lib : Protobuf} (laws : IsLawful lib) {M : Type 0} {fields : Fields M} (tag : ℕ)
    (small : ltb tag (2 ^ 32) ≡ true) {A : Type 0} (encode : A → Outcome (List ℕ))
    (read_field : ℕ → Fields A) (base : A) (levels : ℕ) {IsValid : A → Type 0}
    (writes : (a : A) → IsValid a → Writes lib (read_field levels) (encode a) base a) where
  pub nested-Writes :
      (o : Option A) (set : Option A → M)
      → AllOption IsValid o
      → fields tag (set none)
        ≡ into_message lib (decode_message lib read_field base (suc levels)) (λ a. set (some a))
      → Writes lib fields (message_field lib tag encode o) (set none) (set o)
  nested-Writes o set valid h =
      message-Writes laws tag small encode (decode_message lib read_field base (suc levels)) o set
        (λ a bs e.
          decode_message-Gets read_field base levels bs
            (writes a (subst (AllOption IsValid) e valid)))
        h

  pub repeated_nested-Writes :
      (elements : List A) (set : List A → M)
      → All IsValid elements
      → ((vs : List A)
          → fields tag (set vs)
            ≡ into_message lib
                (decode_message lib read_field base (suc levels))
                (λ v. set (vs ++ v ∷ [])))
      → Writes lib fields (repeated_message_field lib tag encode elements) (set []) (set elements)
  repeated_nested-Writes elements set valid h =
      repeated_message-Writes laws tag small encode
        (decode_message lib read_field base (suc levels)) elements set
        (All-imp elements
          (λ a ok_a bs. decode_message-Gets read_field base levels bs (writes a ok_a)) valid)
        h
