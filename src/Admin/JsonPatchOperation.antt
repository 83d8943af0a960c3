-- ===== src/Admin/JsonPatchOperation.antt =====
-- typescript/src/gen/admin/v1/admin.ts: the message JsonPatchOperation.
use signet_clients.Wire.Messages.{
  ℕ, Option, none, List, [], ◌==◌, if◌then◌else◌, refl, Text, Outcome, Protobuf, Get, Fields,
  decode_message, ◌⊕◌, string_field, into, into_message, given_or, IsLawful, ReadsOn, IsText,
  Writes, ◌⟫◌, put_string-Writes, FieldEnds, field_ends,
}
use signet_clients.Structs.{Any, undefined, given_value, content_field}
use signet_clients.Structs.Decoding.{decode_content}
use signet_clients.Structs.Fields.{CanReturn, put_content-Writes}
use signet_clients.Structs.Endings.{decode_content-AlwaysEnds}

pub record JsonPatchOperation : Type 0 where
  pub op : Text
  pub path : Text
  pub from : Text
  pub value : Any

unfoldable pub create_base : JsonPatchOperation
create_base = record { op = []; path = []; from = []; value = undefined }

module _ (lib : Protobuf) where
  unfoldable pub encode : JsonPatchOperation → Outcome (List ℕ)
  encode message =
      string_field lib 10 message.op
      ⊕ string_field lib 18 message.path
      ⊕ string_field lib 26 message.from
      ⊕ content_field lib 34 message.value

  unfoldable pub read_field : ℕ → Fields JsonPatchOperation
  read_field levels tag message =
      if tag == 10
      then into lib.string (λ v. record message { op = v })
      else if tag == 18
      then into lib.string (λ v. record message { path = v })
      else if tag == 26
      then into lib.string (λ v. record message { from = v })
      else if tag == 34
      then into_message lib (decode_content lib levels) (λ v. record message { value = v })
      else none

  unfoldable pub decode : ℕ → Option ℕ → Get JsonPatchOperation
  unfolding read_field
  decode levels size = decode_message lib read_field create_base levels size

pub record Partial : Type 0 where
  pub op : Option Text
  pub path : Option Text
  pub from : Option Text
  pub value : Option Any

unfoldable pub from_partial : Partial → JsonPatchOperation
from_partial object = record {
  op = given_or object.op [];
  path = given_or object.path [];
  from = given_or object.from [];
  value = given_value object.value;
}

unfoldable pub create : Option Partial → JsonPatchOperation
unfolding from_partial
create base =
    from_partial (given_or base (record { op = none; path = none; from = none; value = none }))

-- Its texts have no lone surrogate and its document can be read back.
abbrev pub IsValid : ℕ → JsonPatchOperation → Type 0
IsValid levels m = IsText m.op × IsText m.path × IsText m.from × CanReturn levels m.value

module _ {lib : Protobuf} (laws : IsLawful lib) where
  pub encode-Writes :
      (levels : ℕ) (m : JsonPatchOperation)
      → IsValid levels m
      → Writes lib (read_field lib levels) (encode lib m) create_base m
  unfolding encode read_field create_base
  encode-Writes levels m valid =
      put_string-Writes laws 10 refl m.op (λ v x. record x { op = v }) valid.0 refl refl
      ⟫ put_string-Writes laws 18 refl m.path (λ v x. record x { path = v }) valid.1 refl refl
      ⟫ put_string-Writes laws 26 refl m.from (λ v x. record x { from = v }) valid.2 refl refl
      ⟫ put_content-Writes laws levels 34 refl m.value (λ v x. record x { value = v }) valid.3 refl
          refl

module _ {lib : Protobuf} (onward : ReadsOn lib) where
  pub ends : (levels tag : ℕ) (m : JsonPatchOperation) → FieldEnds (read_field lib levels tag m)
  unfolding read_field
  ends levels tag m = search (field_ends, onward, decode_content-AlwaysEnds onward levels)
