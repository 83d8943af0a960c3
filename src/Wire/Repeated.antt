-- ===== src/Wire/Repeated.antt =====
-- typescript/src/gen: what `encode` writes for a repeated field, `decode` takes in.
use signet_clients.Prelude.{
  ℕ, ◌^◌, true, Option, some, List, [], ◌∷◌, ◌++◌, append-nil, append_assoc, length, All, ltb,
  ltb→lt, ◌≡◌, sym, ap,
}
use signet_clients.Runtime.{Text, Outcome, resolved}
use signet_clients.Wire.{Protobuf, Get, Fields}
use signet_clients.Wire.Laws.{IsLawful, IsText}
use signet_clients.Wire.Fields.{repeated_string_field, repeated_message_field, into, into_message}
use signet_clients.Wire.Feeding.{Gets, Writes, Writes-then, Eats-field}
use signet_clients.Wire.Statements.{
  into-Gets, Writes-of, Writes-eq, empty-Writes, one_message-Writes,
}

module _ {lib : Protobuf} (laws : IsLawful lib) {M : Type 0} {fields : Fields M} (tag : ℕ)
    (small : ltb tag (2 ^ 32) ≡ true) where
  -- Each element is put behind those that were read before.
  repeated_string-Writes_on :
      (before ss : List Text) (set : List Text → M)
      → All IsText ss
      → ((vs : List Text) → fields tag (set vs) ≡ into lib.string (λ v. set (vs ++ v ∷ [])))
      → Writes lib fields (repeated_string_field lib tag ss) (set before) (set (before ++ ss))
  unfolding repeated_string_field
  repeated_string-Writes_on before [] set texts h =
      Writes-eq (empty-Writes (set before)) (ap set (sym (append-nil before)))
  repeated_string-Writes_on before (s ∷ ss) set texts h =
      Writes-then
        (Writes-of (
          Eats-field laws tag _ _ (ltb→lt _ _ small) (h before)
            (into-Gets lib.string (λ v. set (before ++ v ∷ [])) _ (laws.string_back s texts.0))))
        (Writes-eq (repeated_string-Writes_on (before ++ s ∷ []) ss set texts.1 h)
          (ap set (append_assoc before (s ∷ []) ss)))

  pub repeated_string-Writes :
      (ss : List Text) (set : List Text → M)
      → All IsText ss
      → ((vs : List Text) → fields tag (set vs) ≡ into lib.string (λ v. set (vs ++ v ∷ [])))
      → Writes lib fields (repeated_string_field lib tag ss) (set []) (set ss)
  repeated_string-Writes ss set texts h = repeated_string-Writes_on [] ss set texts h

  repeated_message-Writes_on :
      {A : Type 0} (encode : A → Outcome (List ℕ)) (decode_in : Option ℕ → Get A)
      (before rest : List A) (set : List A → M)
      → All
          (λ a. (bs : List ℕ) → encode a ≡ resolved bs → Gets (decode_in (some (length bs))) bs a)
          rest
      → ((vs : List A) → fields tag (set vs) ≡ into_message lib decode_in (λ v. set (vs ++ v ∷ [])))
      → Writes lib fields
          (repeated_message_field lib tag encode rest)
          (set before)
          (set (before ++ rest))
  unfolding repeated_message_field
  repeated_message-Writes_on encode decode_in before [] set back h =
      Writes-eq (empty-Writes (set before)) (ap set (sym (append-nil before)))
  repeated_message-Writes_on encode decode_in before (a ∷ rest) set back h =
      Writes-then
        (one_message-Writes laws tag small encode decode_in a (set before)
          (λ v. set (before ++ v ∷ [])) back.0 (h before))
        (Writes-eq
          (repeated_message-Writes_on encode decode_in (before ++ a ∷ []) rest set back.1 h)
          (ap set (append_assoc before (a ∷ []) rest)))

  pub repeated_message-Writes :
      {A : Type 0} (encode : A → Outcome (List ℕ)) (decode_in : Option ℕ → Get A)
      (elements : List A) (set : List A → M)
      → All
          (λ a. (bs : List ℕ) → encode a ≡ resolved bs → Gets (decode_in (some (length bs))) bs a)
          elements
      → ((vs : List A) → fields tag (set vs) ≡ into_message lib decode_in (λ v. set (vs ++ v ∷ [])))
      → Writes lib fields (repeated_message_field lib tag encode elements) (set []) (set elements)
  repeated_message-Writes encode decode_in elements set back h =
      repeated_message-Writes_on encode decode_in [] elements set back h
