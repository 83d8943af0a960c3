-- ===== src/Wire/Messages.antt =====
-- typescript/src/gen: what the modules of the generated messages share. Each has a message's record
-- and its MessageFns: createBase, encode, the fields that decode reads, fromPartial and create.
pub use mathlib.Core.Option.{map as map_option}
pub use signet_clients.Prelude.{
  ℕ, suc, Bool, true, false, Option, none, some, List, [], ◌∷◌, ◌++◌, map, All, ◌==◌, if◌then◌else◌,
  refl,
}
pub use signet_clients.Prelude.Int.{ℤ, pos}
pub use signet_clients.Runtime.{Text, Outcome, resolved}
pub use signet_clients.Wire.{Protobuf, Get, Fields}
unfoldable pub use signet_clients.Wire.{decode_message}
unfoldable pub use signet_clients.Wire.Fields.{
  ◌⊕◌, string_field, bytes_field, int32_field, bool_field, message_field, optional_bytes_field,
  repeated_string_field, repeated_message_field, into, into_message, given_or,
}
pub use signet_clients.Wire.Laws.{IsLawful, ReadsOn, IsText}
pub use signet_clients.Wire.Feeding.{Writes}
pub use signet_clients.Wire.Statements.{empty-Writes}
pub use signet_clients.Wire.Nested.{AllOption}
pub use signet_clients.Wire.Updates.{
  ◌⟫◌, put_string-Writes, put_bytes-Writes, put_int32-Writes, put_bool-Writes,
  put_optional_bytes-Writes, put_strings-Writes, put_message-Writes, put_messages-Writes,
}
pub use signet_clients.Wire.Totality.{FieldEnds, decode_message-AlwaysEnds}
use signet_clients.Prelude.{◌≢◌}
use signet_clients.Wire.{spent, from_bytes, decode_levels}
use signet_clients.Wire.Totality.{
  FieldEnds-if, FieldEnds-into, FieldEnds-message, AlwaysEnds-ne-spent,
}

module _ {lib : Protobuf} (onward : ReadsOn lib) {M : Type 0} where
  -- A field's call ends, by its kind.
  pub string-FieldEnds : (set : Text → M) → FieldEnds (into lib.string set)
  string-FieldEnds set = FieldEnds-into lib.string set onward.string_goes_on

  pub bytes-FieldEnds : (set : List ℕ → M) → FieldEnds (into lib.bytes set)
  bytes-FieldEnds set = FieldEnds-into lib.bytes set onward.bytes_goes_on

  pub int32-FieldEnds : (set : ℤ → M) → FieldEnds (into lib.int32 set)
  int32-FieldEnds set = FieldEnds-into lib.int32 set onward.int32_goes_on

  pub bool-FieldEnds : (set : Bool → M) → FieldEnds (into lib.bool set)
  bool-FieldEnds set = FieldEnds-into lib.bool set onward.bool_goes_on

  module _ (fields : ℕ → Fields M) (base : M) where
    pub decode-ends :
        ((levels tag : ℕ) (m : M) → FieldEnds (fields levels tag m))
        → (bs : List ℕ) → decode_message lib fields base decode_levels none (from_bytes bs) ≢ spent
    decode-ends ends bs =
        AlwaysEnds-ne-spent _ (decode_message-AlwaysEnds onward fields base ends decode_levels none)
          (from_bytes bs)

-- What `ends` of a message is found by.
pub ruleset field_ends = (
  FieldEnds-if, string-FieldEnds, bytes-FieldEnds, int32-FieldEnds, bool-FieldEnds,
  FieldEnds-message,
)
