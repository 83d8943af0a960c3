-- ===== src/Structs/Encoding.antt =====
-- typescript/src/gen/google/protobuf/struct.ts: the `encode` of each of the four messages, as they
-- call one another through the `wrap` of the parts.
use signet_clients.Prelude.{ℕ, zero, suc, List, [], if◌then◌else◌}
use signet_clients.Runtime.{JsValue, Outcome, resolved, rejected}
use signet_clients.Wire.{Protobuf}
use signet_clients.Wire.Fields.{◌⊕◌, string_field, message_field}
use signet_clients.Structs.{
  Any, Items, no_items, item, Entries, no_entries, entry, FieldsEntry, Value, is_undefined, copied,
  wrap, chunk,
}
use signet_clients.Structs.Decoding.{set_field}

-- The `encode` of each message.
pub record Encoders : Type 0 where
  pub value : Value → Outcome (List ℕ)
  pub struct : Entries → Outcome (List ℕ)
  pub fields_entry : FieldsEntry → Outcome (List ℕ)
  pub list_value : Items → Outcome (List ℕ)

-- An argument that may throw, and then the call.
abbrev pub called : {A : Type 0} → (A → Outcome (List ℕ)) → Outcome A → Outcome (List ℕ)
called f (resolved a) = f a
called f (rejected e) = rejected e

module _ (lib : Protobuf) where
  open lib use {write_int32, write_bool, write_double, write_string}

  module _ (d : Encoders) where
    -- `Value.encode(Value.wrap(v), …)`.
    abbrev pub wrapped_value : Any → Outcome (List ℕ)
    wrapped_value v = called d.value (wrap v)

    -- `Struct.encode(Struct.wrap(object), …)`.
    abbrev pub wrapped_struct : Entries → Outcome (List ℕ)
    wrapped_struct es = d.struct (copied es)

    unfoldable pub write_value : Value → Outcome (List ℕ)
    unfolding message_field
    write_value m =
        set_field lib 8 write_int32 m.null_value
        ⊕ set_field lib 17 (λ v. resolved (write_double v)) m.number_value
        ⊕ set_field lib 26 (λ s. resolved (write_string s)) m.string_value
        ⊕ set_field lib 32 (λ b. resolved (write_bool b)) m.bool_value
        ⊕ message_field lib 42 wrapped_struct m.struct_value
        ⊕ message_field lib 50 d.list_value m.list_value

    -- `Object.entries(message.fields).forEach(…)`.
    unfoldable pub write_struct : Entries → Outcome (List ℕ)
    write_struct no_entries = resolved []
    write_struct (entry key v es) =
        let rest = write_struct es in
        if is_undefined v
        then rest
        else chunk lib 10 (d.fields_entry (record { key = key; value = v })) ⊕ rest

    unfoldable pub write_entry : FieldsEntry → Outcome (List ℕ)
    write_entry e =
        string_field lib 10 e.key
        ⊕ (if is_undefined e.value then resolved [] else chunk lib 18 (wrapped_value e.value))

    unfoldable pub write_items : Items → Outcome (List ℕ)
    write_items no_items = resolved []
    write_items (item v xs) = chunk lib 10 (wrapped_value v) ⊕ write_items xs

    -- The four calls, by those that they make.
    unfoldable pub encoders_over : Encoders
    unfolding write_value write_struct write_entry write_items
    encoders_over = record {
      value = write_value;
      struct = write_struct;
      fields_entry = write_entry;
      list_value = write_items;
    }

  -- The calls nest no deeper than the levels; below that each throws `too_deep`.
  unfoldable pub encoders : JsValue → ℕ → Encoders
  unfolding encoders_over
  encoders too_deep zero = record {
    value = λ m. rejected too_deep;
    struct = λ es. rejected too_deep;
    fields_entry = λ e. rejected too_deep;
    list_value = λ xs. rejected too_deep;
  }
  encoders too_deep (suc levels) = encoders_over (encoders too_deep levels)
