-- ===== src/Structs/Decoding.antt =====
-- typescript/src/gen/google/protobuf/struct.ts: reading the four messages, and Value.encode.
use signet_clients.Prelude.{ℕ, zero, suc, max, Option, none, some, List, [], ◌==◌, if◌then◌else◌}
use signet_clients.Runtime.{Outcome, resolved}
use signet_clients.Wire.{Protobuf, Get, Fields, pure, ◌>>=◌, decode_message}
use signet_clients.Wire.Fields.{◌⊕◌, message_field, into, into_message}
use signet_clients.Structs.{
  Any, Items, no_items, item, Entries, no_entries, FieldsEntry, Value, base_value, base_entry,
  entry, array, object, is_undefined, assign, copied, unwrap, encode_struct, encode_items,
}

-- `message.values.push(v)`.
unfoldable pub push : Any → Items → Items
push v no_items = item v no_items
push v (item w xs) = item w (push v xs)

-- `if (entry1.value !== undefined) message.fields[entry1.key] = entry1.value;`
unfoldable pub add_entry : FieldsEntry → Entries → Entries
unfolding is_undefined assign
add_entry e es = if is_undefined e.value then es else assign e.key e.value es

-- The `decode` of each message.
pub record Decoders : Type 0 where
  pub value : Option ℕ → Get Value
  pub struct : Option ℕ → Get Entries
  pub fields_entry : Option ℕ → Get FieldsEntry
  pub list_value : Option ℕ → Get Items

module _ (lib : Protobuf) where
  open lib use {
    write_uint32, write_string, write_int32, write_bool, write_double, int32, double, string, bool,
  }

  -- A field that is written whenever it is set.
  abbrev pub set_field : {A : Type 0} → ℕ → (A → Outcome (List ℕ)) → Option A → Outcome (List ℕ)
  set_field tag write none = resolved []
  set_field tag write (some a) = resolved (write_uint32 tag) ⊕ write a

  unfoldable pub encode_value : Value → Outcome (List ℕ)
  unfolding message_field
  encode_value m =
      set_field 8 write_int32 m.null_value
      ⊕ set_field 17 (λ d. resolved (write_double d)) m.number_value
      ⊕ set_field 26 (λ s. resolved (write_string s)) m.string_value
      ⊕ set_field 32 (λ b. resolved (write_bool b)) m.bool_value
      ⊕ message_field lib 42 (encode_struct lib) m.struct_value
      ⊕ message_field lib 50 (encode_items lib) m.list_value

  module _ (d : Decoders) where
    -- `Value.unwrap(Value.decode(reader, …))` and the like.
    abbrev pub unwrapped_value : Option ℕ → Get Any
    unwrapped_value size = d.value size >>= λ m. pure (unwrap m)

    abbrev pub unwrapped_struct : Option ℕ → Get Entries
    unwrapped_struct size = d.struct size >>= λ es. pure (copied es)

    unfoldable pub read_value : Fields Value
    read_value tag message =
        if tag == 8
        then into int32 (λ v. record message { null_value = some v })
        else if tag == 17
        then into double (λ v. record message { number_value = some v })
        else if tag == 26
        then into string (λ v. record message { string_value = some v })
        else if tag == 32
        then into bool (λ v. record message { bool_value = some v })
        else if tag == 42
        then into_message lib unwrapped_struct (λ v. record message { struct_value = some v })
        else if tag == 50
        then into_message lib d.list_value (λ v. record message { list_value = some v })
        else none

    unfoldable pub read_struct : Fields Entries
    unfolding add_entry
    read_struct tag message =
        if tag == 10 then into_message lib d.fields_entry (λ e. add_entry e message) else none

    unfoldable pub read_entry : Fields FieldsEntry
    read_entry tag message =
        if tag == 10
        then into string (λ v. record message { key = v })
        else if tag == 18
        then into_message lib unwrapped_value (λ v. record message { value = v })
        else none

    unfoldable pub read_items : Fields Items
    unfolding push
    read_items tag message =
        if tag == 10 then into_message lib unwrapped_value (λ v. push v message) else none

    -- The four calls at one depth, by those at the next.
    unfoldable pub decoders_over : ℕ → Decoders
    unfolding read_value read_struct read_entry read_items
    decoders_over levels = record {
      value = decode_message lib (λ _. read_value) base_value levels;
      struct = decode_message lib (λ _. read_struct) no_entries levels;
      fields_entry = decode_message lib (λ _. read_entry) base_entry levels;
      list_value = decode_message lib (λ _. read_items) no_items levels;
    }

  -- Without a level left none reads a field, so that what they would call is of no matter.
  unfoldable pub decoders : ℕ → Decoders
  unfolding decoders_over
  decoders zero = record {
    value = decode_message lib (λ _ _ _. none) base_value zero;
    struct = decode_message lib (λ _ _ _. none) no_entries zero;
    fields_entry = decode_message lib (λ _ _ _. none) base_entry zero;
    list_value = decode_message lib (λ _ _ _. none) no_items zero;
  }
  decoders (suc levels) = decoders_over (decoders levels) (suc levels)

  unfoldable pub decode_content : ℕ → Option ℕ → Get Any
  unfolding decoders unwrap
  decode_content levels = unwrapped_value (decoders levels)

  unfoldable pub decode_struct : ℕ → Option ℕ → Get Entries
  unfolding decoders copied
  decode_struct levels = unwrapped_struct (decoders levels)

-- How many calls of `decode` are within one another when the value is read.
unfoldable mutual
  pub depth : Any → ℕ
  depth (object es) = suc (depth_struct es)
  depth (array xs) = suc (depth_items xs)
  depth v = 1

  pub depth_struct : Entries → ℕ
  depth_struct no_entries = 1
  depth_struct (entry key v es) = max (suc (suc (depth v))) (depth_struct es)

  pub depth_items : Items → ℕ
  depth_items no_items = 1
  depth_items (item v xs) = max (suc (depth v)) (depth_items xs)
