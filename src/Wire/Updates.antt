-- ===== src/Wire/Updates.antt =====
-- typescript/src/gen: `encode` and `decode` of a field of a message, where `up` sets the field and the
-- message that has been read so far holds the field's default.
use signet_clients.Prelude.{
  ℕ, suc, ◌^◌, Bool, true, false, Option, none, some, List, [], ◌∷◌, ◌++◌, All, ltb, ◌≡◌, subst,
}
use signet_clients.Prelude.Int.{ℤ, pos}
use signet_clients.Runtime.{Text, Outcome}
use signet_clients.Wire.{Protobuf, Get, Fields, decode_message}
use signet_clients.Wire.Laws.{IsLawful, IsText}
use signet_clients.Wire.Fields.{
  ◌⊕◌, string_field, bytes_field, int32_field, bool_field, message_field, optional_bytes_field,
  repeated_string_field, repeated_message_field, into, into_message,
}
use signet_clients.Wire.Feeding.{Writes, Writes-then}
use signet_clients.Wire.Statements.{
  string-Writes, bytes-Writes, int32-Writes, bool-Writes, optional_bytes-Writes,
}
use signet_clients.Wire.Repeated.{repeated_string-Writes}
use signet_clients.Wire.Nested.{AllOption, nested-Writes, repeated_nested-Writes}

-- One field after another.
infixr 20 ◌⟫◌
pub ◌⟫◌ :
    {lib : Protobuf} {M : Type 0} {fields : Fields M} {w v : Outcome (List ℕ)} {m m' m'' : M}
    → Writes lib fields w m m'
    → Writes lib fields v m' m''
    → Writes lib fields (w ⊕ v) m m''
f ⟫ g = Writes-then f g

-- A message may be written another way before its field is read.
pub started :
    {lib : Protobuf} {M : Type 0} {fields : Fields M} {w : Outcome (List ℕ)} (tag : ℕ) {m m' n : M}
    {get : Option (Get M)}
    → m ≡ m'
    → (fields tag m ≡ get → Writes lib fields w m n)
    → fields tag m' ≡ get
    → Writes lib fields w m' n
started {lib} {fields} {w} tag {n} {get} e f =
    subst (λ x. fields tag x ≡ get → Writes lib fields w x n) e f

module _ {lib : Protobuf} (laws : IsLawful lib) {M : Type 0} {fields : Fields M} (tag : ℕ)
    (small : ltb tag (2 ^ 32) ≡ true) {m : M} where
  pub put_string-Writes :
      (s : Text) (up : Text → M → M)
      → IsText s
      → up [] m ≡ m
      → fields tag m ≡ into lib.string (λ v. up v m)
      → Writes lib fields (string_field lib tag s) m (up s m)
  put_string-Writes s up valid e =
      started tag e (string-Writes laws tag small s (λ v. up v m) valid)

  pub put_bytes-Writes :
      (bs : List ℕ) (up : List ℕ → M → M)
      → up [] m ≡ m
      → fields tag m ≡ into lib.bytes (λ v. up v m)
      → Writes lib fields (bytes_field lib tag bs) m (up bs m)
  put_bytes-Writes bs up e = started tag e (bytes-Writes laws tag small bs (λ v. up v m))

  pub put_int32-Writes :
      (v : ℤ) (up : ℤ → M → M)
      → up (pos 0) m ≡ m
      → fields tag m ≡ into lib.int32 (λ v. up v m)
      → Writes lib fields (int32_field lib tag v) m (up v m)
  put_int32-Writes v up e = started tag e (int32-Writes laws tag small v (λ v. up v m))

  pub put_bool-Writes :
      (b : Bool) (up : Bool → M → M)
      → up false m ≡ m
      → fields tag m ≡ into lib.bool (λ v. up v m)
      → Writes lib fields (bool_field lib tag b) m (up b m)
  put_bool-Writes b up e = started tag e (bool-Writes laws tag small b (λ v. up v m))

  pub put_optional_bytes-Writes :
      (o : Option (List ℕ)) (up : Option (List ℕ) → M → M)
      → up none m ≡ m
      → fields tag m ≡ into lib.bytes (λ v. up (some v) m)
      → Writes lib fields (optional_bytes_field lib tag o) m (up o m)
  put_optional_bytes-Writes o up e =
      started tag e (optional_bytes-Writes laws tag small o (λ v. up v m))

  pub put_strings-Writes :
      (ss : List Text) (up : List Text → M → M)
      → All IsText ss
      → up [] m ≡ m
      → ((vs : List Text) → fields tag (up vs m) ≡ into lib.string (λ v. up (vs ++ v ∷ []) m))
      → Writes lib fields (repeated_string_field lib tag ss) m (up ss m)
  put_strings-Writes ss up valid e h =
      subst (λ x. Writes lib fields (repeated_string_field lib tag ss) x (up ss m)) e
        (repeated_string-Writes laws tag small ss (λ v. up v m) valid h)

  module _ {A : Type 0} (encode : A → Outcome (List ℕ)) (read_field : ℕ → Fields A) (base : A)
      (levels : ℕ) {IsValid : A → Type 0}
      (writes : (a : A) → IsValid a → Writes lib (read_field levels) (encode a) base a) where
    pub put_message-Writes :
        (o : Option A) (up : Option A → M → M)
        → AllOption IsValid o
        → up none m ≡ m
        → fields tag m
          ≡ into_message lib (decode_message lib read_field base (suc levels)) (λ a. up (some a) m)
        → Writes lib fields (message_field lib tag encode o) m (up o m)
    put_message-Writes o up valid e =
        started tag e
          (nested-Writes laws tag small encode read_field base levels writes o (λ v. up v m) valid)

    pub put_messages-Writes :
        (elements : List A) (up : List A → M → M)
        → All IsValid elements
        → up [] m ≡ m
        → ((vs : List A)
            → fields tag (up vs m)
              ≡ into_message lib
                  (decode_message lib read_field base (suc levels))
                  (λ v. up (vs ++ v ∷ []) m))
        → Writes lib fields (repeated_message_field lib tag encode elements) m (up elements m)
    put_messages-Writes elements up valid e h =
        subst
          (λ x.
            Writes lib fields (repeated_message_field lib tag encode elements) x (up elements m))
          e
          (repeated_nested-Writes laws tag small encode read_field base levels writes elements
            (λ v. up v m) valid h)
