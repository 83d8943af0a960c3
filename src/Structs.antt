-- ===== src/Structs.antt =====
-- typescript/src/gen/google/protobuf/struct.ts: documents as values of JavaScript, and the messages
-- Struct, Struct_FieldsEntry, Value and ListValue that carry them.
pub mod Decoding
pub mod Wrapping
pub mod Values
pub mod Trips
pub mod Fields
pub mod Losing
pub mod Encoding
pub mod Fusing
pub mod Keys
pub mod Cleaning
pub mod Nesting
pub mod Endings
pub mod Tests
use signet_clients.Prelude.{
  ℕ, zero, suc, ◌+◌, max, Bool, true, false, not, ◌&&◌, ◌||◌, Option, none, some, List, [], ◌∷◌,
  ◌++◌, if◌then◌else◌,
}
use signet_clients.Prelude.Int.{ℤ, pos}
use signet_clients.Runtime.{Text, codes, JsValue, error, new_error, Outcome, resolved, rejected}
use signet_clients.Strings.{same_text}
use signet_clients.Wire.{Protobuf}
use signet_clients.Wire.Fields.{◌⊕◌, joined, string_field, message_field}

-- A value of type `any`. A number is given by its 64 bits, and a function, a symbol or a bigint by
-- its `typeof`. An object is its own enumerable properties in the order of `Object.keys`.
mutual
  pub data Any : Type 0 where
    undefined null : Any
    boolean : Bool → Any
    number : ℕ → Any
    text : Text → Any
    array : Items → Any
    object : Entries → Any
    other : Text → Any

  pub data Items : Type 0 where
    no_items : Items
    item : Any → Items → Items

  pub data Entries : Type 0 where
    no_entries : Entries
    entry : Text → Any → Entries → Entries

pub record FieldsEntry : Type 0 where
  pub key : Text
  pub value : Any

pub record Value : Type 0 where
  pub null_value : Option ℤ
  pub number_value : Option ℕ
  pub string_value : Option Text
  pub bool_value : Option Bool
  pub struct_value : Option Entries
  pub list_value : Option Items

abbrev pub base_value : Value
base_value = record {
  null_value = none;
  number_value = none;
  string_value = none;
  bool_value = none;
  struct_value = none;
  list_value = none;
}

abbrev pub base_entry : FieldsEntry
base_entry = record { key = []; value = undefined }

unfoldable pub is_undefined : Any → Bool
is_undefined undefined = true
is_undefined v = false

-- `value ?? undefined`, of a property that may be missing.
unfoldable pub given_value : Option Any → Any
given_value none = undefined
given_value (some null) = undefined
given_value (some v) = v

-- Whether the object has a property of its own with this key.
unfoldable pub has_key : Text → Entries → Bool
unfolding same_text
has_key key no_entries = false
has_key key (entry k v es) = same_text key k || has_key key es

-- The property is replaced, or comes last; the order that JavaScript gives keys that are array
-- indices is not kept.
unfoldable pub put : Text → Any → Entries → Entries
unfolding same_text
put key v no_entries = entry key v no_entries
put key v (entry k w es) = if same_text key k then entry k v es else entry k w (put key v es)

-- `object[key] = v`. An assignment to `__proto__` makes no property.
unfoldable pub is_proto : Text → Bool
unfolding same_text
is_proto key = same_text key (codes "__proto__")

unfoldable pub assign : Text → Any → Entries → Entries
unfolding is_proto put
assign key v es = if is_proto key then es else put key v es

assign_all : Entries → Entries → Entries
unfolding assign
assign_all no_entries es = es
assign_all (entry key v rest) es = assign_all rest (assign key v es)

-- `Struct.wrap` and `Struct.unwrap` both copy the properties.
unfoldable pub copied : Entries → Entries
unfolding assign_all
copied es = assign_all es no_entries

unfoldable pub wrap : Any → Outcome Value
wrap undefined = resolved base_value
wrap null = resolved (record base_value { null_value = some (pos 0) })
wrap (boolean b) = resolved (record base_value { bool_value = some b })
wrap (number d) = resolved (record base_value { number_value = some d })
wrap (text s) = resolved (record base_value { string_value = some s })
wrap (array xs) = resolved (record base_value { list_value = some xs })
wrap (object es) = resolved (record base_value { struct_value = some es })
wrap (other type) = rejected (error (new_error (codes "Unsupported any value type: " ++ type)))

or_else : {A : Type 0} → Option A → (A → Any) → Any → Any
or_else none f v = v
or_else (some a) f v = f a

-- The first field that is set, in this order, is the value.
unfoldable pub unwrap : Value → Any
unfolding or_else
unwrap m = or_else m.string_value text (
    or_else m.number_value number (
      or_else m.bool_value boolean (
        or_else m.struct_value object
          (or_else m.list_value array (or_else m.null_value (λ _. null) undefined)))))

-- Whether `Struct.encode(Struct.wrap(…))` writes the property: the assignment of `Struct.wrap` makes
-- it, and it is not undefined.
unfoldable pub is_kept : Text → Any → Bool
unfolding assign has_key is_undefined
is_kept key v = has_key key (assign key v no_entries) && not (is_undefined v)

module _ (lib : Protobuf) where
  open lib use {write_uint32, write_string, write_int32, write_bool, write_double, join}

  -- A message in a message of whose encoding this is what comes out.
  abbrev pub chunk : ℕ → Outcome (List ℕ) → Outcome (List ℕ)
  chunk tag w = resolved (write_uint32 tag) ⊕ joined join w

  -- `Struct_FieldsEntry.encode`, by what encodes the value.
  abbrev pub entry_fields : Text → Outcome (List ℕ) → Outcome (List ℕ)
  entry_fields key content = string_field lib 10 key ⊕ chunk 18 content

  unfoldable mutual
    -- `Value.encode(Value.wrap(…))`, as a recursion over the parts of the value; the calls themselves
    -- are those of Encoding.antt.
    pub encode_content : Any → Outcome (List ℕ)
    encode_content undefined = resolved []
    encode_content null = resolved (write_uint32 8) ⊕ write_int32 (pos 0)
    encode_content (number d) = resolved (write_uint32 17 ++ write_double d)
    encode_content (text s) = resolved (write_uint32 26 ++ write_string s)
    encode_content (boolean b) = resolved (write_uint32 32 ++ write_bool b)
    encode_content (object es) = chunk 42 (encode_struct es)
    encode_content (array xs) = chunk 50 (encode_items xs)
    encode_content (other type) =
        rejected (error (new_error (codes "Unsupported any value type: " ++ type)))

    -- `Struct.encode(Struct.wrap(…))`. The keys of an object
    -- differ, so that the copy has all the properties but `__proto__`.
    pub encode_struct : Entries → Outcome (List ℕ)
    encode_struct no_entries = resolved []
    encode_struct (entry key v es) =
        let one = chunk 10 (entry_fields key (encode_content v)) in
        let rest = encode_struct es in if is_kept key v then one ⊕ rest else rest

    -- `ListValue.encode(ListValue.wrap(…))`.
    pub encode_items : Items → Outcome (List ℕ)
    encode_items no_items = resolved []
    encode_items (item v xs) = chunk 10 (encode_content v) ⊕ encode_items xs

  -- The field of a message whose type is `any`.
  unfoldable pub content_field : ℕ → Any → Outcome (List ℕ)
  unfolding is_undefined
  content_field tag v = elim (is_undefined v) [
    | true ↦ resolved []
    | false ↦ chunk tag (encode_content v)
  ]
