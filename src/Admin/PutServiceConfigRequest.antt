-- ===== src/Admin/PutServiceConfigRequest.antt =====
-- typescript/src/gen/admin/v1/admin.ts: the message PutServiceConfigRequest.
use signet_clients.Wire.Messages.{
  ℕ, Option, none, List, [], ◌==◌, if◌then◌else◌, refl, ℤ, pos, Text, Outcome, Protobuf, Get,
  Fields, decode_message, ◌⊕◌, string_field, int32_field, into, into_message, given_or, IsLawful,
  ReadsOn, IsText, Writes, ◌⟫◌, put_string-Writes, put_int32-Writes, FieldEnds, field_ends,
}
use signet_clients.Structs.{Any, undefined, given_value, content_field}
use signet_clients.Structs.Decoding.{decode_content}
use signet_clients.Structs.Fields.{CanReturn, put_content-Writes}
use signet_clients.Structs.Endings.{decode_content-AlwaysEnds}

pub record PutServiceConfigRequest : Type 0 where
  pub namespace : Text
  pub service : Text
  pub content : Any
  pub expected_version : ℤ

unfoldable pub create_base : PutServiceConfigRequest
create_base = record { namespace = []; service = []; content = undefined; expected_version = pos 0 }

module _ (lib : Protobuf) where
  unfoldable pub encode : PutServiceConfigRequest → Outcome (List ℕ)
  encode message =
      string_field lib 10 message.namespace
      ⊕ string_field lib 18 message.service
      ⊕ content_field lib 26 message.content
      ⊕ int32_field lib 32 message.expected_version

  unfoldable pub read_field : ℕ → Fields PutServiceConfigRequest
  read_field levels tag message =
      if tag == 10
      then into lib.string (λ v. record message { namespace = v })
      else if tag == 18
      then into lib.string (λ v. record message { service = v })
      else if tag == 26
      then into_message lib (decode_content lib levels) (λ v. record message { content = v })
      else if tag == 32
      then into lib.int32 (λ v. record message { expected_version = v })
      else none

  unfoldable pub decode : ℕ → Option ℕ → Get PutServiceConfigRequest
  unfolding read_field
  decode levels size = decode_message lib read_field create_base levels size

pub record Partial : Type 0 where
  pub namespace : Option Text
  pub service : Option Text
  pub content : Option Any
  pub expected_version : Option ℤ

unfoldable pub from_partial : Partial → PutServiceConfigRequest
from_partial object = record {
  namespace = given_or object.namespace [];
  service = given_or object.service [];
  content = given_value object.content;
  expected_version = given_or object.expected_version (pos 0);
}

unfoldable pub create : Option Partial → PutServiceConfigRequest
unfolding from_partial
create base = from_partial (
    given_or base
      (record { namespace = none; service = none; content = none; expected_version = none }))

-- Its texts have no lone surrogate and its document can be read back.
abbrev pub IsValid : ℕ → PutServiceConfigRequest → Type 0
IsValid levels m = IsText m.namespace × IsText m.service × CanReturn levels m.content

module _ {lib : Protobuf} (laws : IsLawful lib) where
  pub encode-Writes :
      (levels : ℕ) (m : PutServiceConfigRequest)
      → IsValid levels m
      → Writes lib (read_field lib levels) (encode lib m) create_base m
  unfolding encode read_field create_base
  encode-Writes levels m valid =
      put_string-Writes laws 10 refl m.namespace (λ v x. record x { namespace = v }) valid.0 refl
        refl
      ⟫ put_string-Writes laws 18 refl m.service (λ v x. record x { service = v }) valid.1 refl refl
      ⟫ put_content-Writes laws levels 26 refl m.content (λ v x. record x { content = v }) valid.2
          refl refl
      ⟫ put_int32-Writes laws 32 refl m.expected_version (λ v x. record x { expected_version = v })
          refl refl

module _ {lib : Protobuf} (onward : ReadsOn lib) where
  pub ends :
      (levels tag : ℕ) (m : PutServiceConfigRequest) → FieldEnds (read_field lib levels tag m)
  unfolding read_field
  ends levels tag m = search (field_ends, onward, decode_content-AlwaysEnds onward levels)
