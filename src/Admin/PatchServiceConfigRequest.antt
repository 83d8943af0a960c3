-- ===== src/Admin/PatchServiceConfigRequest.antt =====
-- typescript/src/gen/admin/v1/admin.ts: the message PatchServiceConfigRequest.
use signet_clients.Wire.Messages.{
  ℕ, suc, Option, none, List, [], ◌∷◌, ◌++◌, map, map_option, All, ◌==◌, if◌then◌else◌, refl, Text,
  Outcome, Protobuf, Get, Fields, decode_message, ◌⊕◌, string_field, into, into_message, given_or,
  repeated_message_field, IsLawful, ReadsOn, IsText, Writes, ◌⟫◌, put_string-Writes,
  put_messages-Writes, FieldEnds, field_ends, decode_message-AlwaysEnds,
}
use signet_clients.Admin.JsonPatchOperation

pub record PatchServiceConfigRequest : Type 0 where
  pub namespace : Text
  pub service : Text
  pub operations : List JsonPatchOperation.JsonPatchOperation

unfoldable pub create_base : PatchServiceConfigRequest
create_base = record { namespace = []; service = []; operations = [] }

module _ (lib : Protobuf) where
  unfoldable pub encode : PatchServiceConfigRequest → Outcome (List ℕ)
  encode message =
      string_field lib 10 message.namespace
      ⊕ string_field lib 18 message.service
      ⊕ repeated_message_field lib 26 (JsonPatchOperation.encode lib) message.operations

  unfoldable pub read_field : ℕ → Fields PatchServiceConfigRequest
  read_field levels tag message =
      if tag == 10
      then into lib.string (λ v. record message { namespace = v })
      else if tag == 18
      then into lib.string (λ v. record message { service = v })
      else if tag == 26
      then into_message lib (JsonPatchOperation.decode lib levels)
          (λ v. record message { operations = message.operations ++ v ∷ [] })
      else none

  unfoldable pub decode : ℕ → Option ℕ → Get PatchServiceConfigRequest
  unfolding read_field
  decode levels size = decode_message lib read_field create_base levels size

pub record Partial : Type 0 where
  pub namespace : Option Text
  pub service : Option Text
  pub operations : Option (List JsonPatchOperation.Partial)

unfoldable pub from_partial : Partial → PatchServiceConfigRequest
from_partial object = record {
  namespace = given_or object.namespace [];
  service = given_or object.service [];
  operations = given_or (map_option (map JsonPatchOperation.from_partial) object.operations) [];
}

unfoldable pub create : Option Partial → PatchServiceConfigRequest
unfolding from_partial
create base =
    from_partial (given_or base (record { namespace = none; service = none; operations = none }))

-- Its texts have no lone surrogate and its documents can be read back.
abbrev pub IsValid : ℕ → PatchServiceConfigRequest → Type 0
IsValid levels m =
    IsText m.namespace × IsText m.service × All (JsonPatchOperation.IsValid levels) m.operations

module _ {lib : Protobuf} (laws : IsLawful lib) where
  pub encode-Writes :
      (levels : ℕ) (m : PatchServiceConfigRequest)
      → IsValid levels m
      → Writes lib (read_field lib (suc levels)) (encode lib m) create_base m
  unfolding encode read_field create_base JsonPatchOperation.decode
  encode-Writes levels m valid =
      put_string-Writes laws 10 refl m.namespace (λ v x. record x { namespace = v }) valid.0 refl
        refl
      ⟫ put_string-Writes laws 18 refl m.service (λ v x. record x { service = v }) valid.1 refl refl
      ⟫ put_messages-Writes laws 26 refl (JsonPatchOperation.encode lib)
          (JsonPatchOperation.read_field lib) JsonPatchOperation.create_base levels
          (JsonPatchOperation.encode-Writes laws levels) m.operations
          (λ v x. record x { operations = v }) valid.2 refl (λ _. refl)

module _ {lib : Protobuf} (onward : ReadsOn lib) where
  pub ends :
      (levels tag : ℕ) (m : PatchServiceConfigRequest) → FieldEnds (read_field lib levels tag m)
  unfolding read_field JsonPatchOperation.decode
  ends levels tag m = search (
    field_ends,
    onward,
    decode_message-AlwaysEnds onward (JsonPatchOperation.read_field lib)
        JsonPatchOperation.create_base (JsonPatchOperation.ends onward) levels,
  )
