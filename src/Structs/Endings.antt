-- ===== src/Structs/Endings.antt =====
-- typescript/src/gen/google/protobuf/struct.ts: reading a document comes to an end on every input.
use signet_clients.Prelude.{ℕ, zero, suc, Option, ◌==◌, arith}
use signet_clients.Wire.{Protobuf, pure, decode_message}
use signet_clients.Wire.Laws.{ReadsOn}
use signet_clients.Wire.Totality.{
  AlwaysEnds, AlwaysEnds-bind, FieldEnds-if, FieldEnds-into, FieldEnds-message,
  decode_message-AlwaysEnds,
}
use signet_clients.Structs.{base_value, base_entry, no_entries, no_items, copied, unwrap}
use signet_clients.Structs.Decoding.{
  Decoders, decoders, decoders_over, decode_content, decode_struct, read_value, read_struct,
  read_entry, read_items, unwrapped_value, unwrapped_struct,
}

record DecodersEnd (d : Decoders) : Type 0 where
  value : (size : Option ℕ) → AlwaysEnds (d.value size)
  struct : (size : Option ℕ) → AlwaysEnds (d.struct size)
  fields_entry : (size : Option ℕ) → AlwaysEnds (d.fields_entry size)
  list_value : (size : Option ℕ) → AlwaysEnds (d.list_value size)

module _ {lib : Protobuf} (onward : ReadsOn lib) where
  module _ (d : Decoders) (ends : DecodersEnd d) where
    unwrapped_value-AlwaysEnds : (size : Option ℕ) → AlwaysEnds (unwrapped_value lib d size)
    unwrapped_value-AlwaysEnds size =
        AlwaysEnds-bind (d.value size) (λ m. pure (unwrap m)) (ends.value size) (λ m r. omega arith)

    unwrapped_struct-AlwaysEnds : (size : Option ℕ) → AlwaysEnds (unwrapped_struct lib d size)
    unwrapped_struct-AlwaysEnds size =
        AlwaysEnds-bind (d.struct size) (λ es. pure (copied es)) (ends.struct size)
          (λ es r. omega arith)

    decoders_over-End : (levels : ℕ) → DecodersEnd (decoders_over lib d levels)
    unfolding decoders_over
    decoders_over-End levels = record {
      value =
          decode_message-AlwaysEnds onward (λ _. read_value lib d) base_value
            (λ _ tag m.
              FieldEnds-if (tag == 8) _ _ (FieldEnds-into lib.int32 _ onward.int32_goes_on) (
                FieldEnds-if (tag == 17) _ _ (FieldEnds-into lib.double _ onward.double_goes_on) (
                  FieldEnds-if (tag == 26) _ _ (FieldEnds-into lib.string _ onward.string_goes_on) (
                    FieldEnds-if (tag == 32) _ _ (FieldEnds-into lib.bool _ onward.bool_goes_on) (
                      FieldEnds-if (tag == 42) _ _
                        (FieldEnds-message onward (unwrapped_struct lib d) _
                          unwrapped_struct-AlwaysEnds)
                        (FieldEnds-if (tag == 50) _ _
                          (FieldEnds-message onward d.list_value _ ends.list_value) tt))))))
            levels;
      struct =
          decode_message-AlwaysEnds onward (λ _. read_struct lib d) no_entries
            (λ _ tag m.
              FieldEnds-if (tag == 10) _ _
                (FieldEnds-message onward d.fields_entry _ ends.fields_entry) tt)
            levels;
      fields_entry =
          decode_message-AlwaysEnds onward (λ _. read_entry lib d) base_entry
            (λ _ tag m.
              FieldEnds-if (tag == 10) _ _ (FieldEnds-into lib.string _ onward.string_goes_on) (
                FieldEnds-if (tag == 18) _ _
                  (FieldEnds-message onward (unwrapped_value lib d) _ unwrapped_value-AlwaysEnds)
                  tt))
            levels;
      list_value =
          decode_message-AlwaysEnds onward (λ _. read_items lib d) no_items
            (λ _ tag m.
              FieldEnds-if (tag == 10) _ _
                (FieldEnds-message onward (unwrapped_value lib d) _ unwrapped_value-AlwaysEnds) tt)
            levels;
    }

  decoders-End : (levels : ℕ) → DecodersEnd (decoders lib levels)
  unfolding decoders decode_message
  decoders-End zero = record {
    value = λ size r. tt;
    struct = λ size r. tt;
    fields_entry = λ size r. tt;
    list_value = λ size r. tt;
  }
  decoders-End (suc levels) =
      decoders_over-End (decoders lib levels) (decoders-End levels) (suc levels)

  pub decode_content-AlwaysEnds :
      (levels : ℕ) (size : Option ℕ) → AlwaysEnds (decode_content lib levels size)
  unfolding decode_content
  decode_content-AlwaysEnds levels =
      unwrapped_value-AlwaysEnds (decoders lib levels) (decoders-End levels)

  pub decode_struct-AlwaysEnds :
      (levels : ℕ) (size : Option ℕ) → AlwaysEnds (decode_struct lib levels size)
  unfolding decode_struct
  decode_struct-AlwaysEnds levels =
      unwrapped_struct-AlwaysEnds (decoders lib levels) (decoders-End levels)
