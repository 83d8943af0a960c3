-- ===== src/Wire/Fields.antt =====
-- typescript/src/gen: the statements that write and read one field of a message.
use signet_clients.Prelude.{ℕ, Bool, true, false, Option, none, some, List, [], ◌∷◌, ◌++◌}
use signet_clients.Prelude.Int.{ℤ, is_zero}
use signet_clients.Runtime.{Text, Outcome, resolved, rejected}
use signet_clients.Wire.{Reader, Protobuf, Get, call, pure, ◌>>=◌}

-- One statement after another: the bytes that both append, or what the first to throw throws.
infixr 60 ◌⊕◌
abbrev pub ◌⊕◌ : Outcome (List ℕ) → Outcome (List ℕ) → Outcome (List ℕ)
rejected e ⊕ w = rejected e
resolved bs ⊕ rejected e = rejected e
resolved bs ⊕ resolved cs = resolved (bs ++ cs)

abbrev pub joined : (List ℕ → Outcome (List ℕ)) → Outcome (List ℕ) → Outcome (List ℕ)
joined join (resolved chunk) = join chunk
joined join (rejected e) = rejected e

-- A field is not written if it holds its default.
module _ (lib : Protobuf) (tag : ℕ) where
  open lib use {write_uint32, write_string, write_bytes, write_int32, write_int64, write_bool, join}

  unfoldable pub string_field : Text → Outcome (List ℕ)
  string_field [] = resolved []
  string_field (c ∷ s) = resolved (write_uint32 tag ++ write_string (c ∷ s))

  unfoldable pub bytes_field : List ℕ → Outcome (List ℕ)
  bytes_field [] = resolved []
  bytes_field (b ∷ bs) = resolved (write_uint32 tag ++ write_bytes (b ∷ bs))

  unfoldable pub bool_field : Bool → Outcome (List ℕ)
  bool_field false = resolved []
  bool_field true = resolved (write_uint32 tag ++ write_bool true)

  unfoldable pub int32_field : ℤ → Outcome (List ℕ)
  int32_field v = elim (is_zero v) [
    | true ↦ resolved []
    | false ↦ resolved (write_uint32 tag) ⊕ write_int32 v
  ]

  unfoldable pub int64_field : ℤ → Outcome (List ℕ)
  int64_field v = elim (is_zero v) [
    | true ↦ resolved []
    | false ↦ resolved (write_uint32 tag) ⊕ write_int64 v
  ]

  -- A message within a message, by what encodes it: `X.encode(…, writer.uint32(tag).fork()).join()`.
  unfoldable pub message_field : {A : Type 0} → (A → Outcome (List ℕ)) → Option A → Outcome (List ℕ)
  message_field encode none = resolved []
  message_field encode (some m) = resolved (write_uint32 tag) ⊕ joined join (encode m)

  unfoldable pub optional_bytes_field : Option (List ℕ) → Outcome (List ℕ)
  optional_bytes_field none = resolved []
  optional_bytes_field (some bs) = resolved (write_uint32 tag ++ write_bytes bs)

  -- `for (const v of message.field)`
  unfoldable pub repeated_string_field : List Text → Outcome (List ℕ)
  repeated_string_field [] = resolved []
  repeated_string_field (s ∷ ss) =
      resolved (write_uint32 tag ++ write_string s) ⊕ repeated_string_field ss

  unfoldable pub repeated_message_field :
      {A : Type 0} → (A → Outcome (List ℕ)) → List A → Outcome (List ℕ)
  unfolding message_field
  repeated_message_field encode [] = resolved []
  repeated_message_field encode (m ∷ ms) =
      message_field encode (some m) ⊕ repeated_message_field encode ms

-- `message.field = reader.op(); continue;`
abbrev pub into : {A M : Type 0} → (Reader → Outcome (A × Reader)) → (A → M) → Option (Get M)
into read set = some (call read >>= λ v. pure (set v))

-- `message.field = X.decode(reader, reader.uint32()); continue;`
abbrev pub nested : {A M : Type 0} → Protobuf → (Option ℕ → Get A) → (A → M) → Get M
nested lib decode set = call (lib.uint32) >>= λ size. (decode (some size) >>= λ m. pure (set m))

abbrev pub into_message : {A M : Type 0} → Protobuf → (Option ℕ → Get A) → (A → M) → Option (Get M)
into_message lib decode set = some (nested lib decode set)

-- `object.field ?? value`.
abbrev pub given_or : {A : Type 0} → Option A → A → A
given_or none v = v
given_or (some w) v = w
