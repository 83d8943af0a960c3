-- ===== src/Secrets/GetConfigResponse.antt =====
-- typescript/src/gen/signet/v1/secrets.ts: the message GetConfigResponse.
use signet_clients.Wire.Messages.{
  ℕ, Option, none, List, ◌==◌, if◌then◌else◌, refl, ℤ, pos, Outcome, Protobuf, Get, Fields,
  decode_message, ◌⊕◌, int32_field, into, into_message, given_or, IsLawful, ReadsOn, Writes, ◌⟫◌,
  put_int32-Writes, FieldEnds, field_ends,
}
use signet_clients.Structs.{Any, undefined, given_value, content_field}
use signet_clients.Structs.Decoding.{decode_content}
use signet_clients.Structs.Fields.{CanReturn, put_content-Writes}
use signet_clients.Structs.Endings.{decode_content-AlwaysEnds}

pub record GetConfigResponse : Type 0 where
  pub value : Any
  pub version : ℤ

unfoldable pub create_base : GetConfigResponse
create_base = record { value = undefined; version = pos 0 }

module _ (lib : Protobuf) where
  unfoldable pub encode : GetConfigResponse → Outcome (List ℕ)
  encode message = content_field lib 10 message.value ⊕ int32_field lib 16 message.version

  unfoldable pub read_field : ℕ → Fields GetConfigResponse
  read_field levels tag message =
      if tag == 10
      then into_message lib (decode_content lib levels) (λ v. record message { value = v })
      else if tag == 16
      then into lib.int32 (λ v. record message { version = v })
      else none

  unfoldable pub decode : ℕ → Option ℕ → Get GetConfigResponse
  unfolding read_field
  decode levels size = decode_message lib read_field create_base levels size

pub record Partial : Type 0 where
  pub value : Option Any
  pub version : Option ℤ

unfoldable pub from_partial : Partial → GetConfigResponse
from_partial object = record {
  value = given_value object.value;
  version = given_or object.version (pos 0);
}

unfoldable pub create : Option Partial → GetConfigResponse
unfolding from_partial
create base = from_partial (given_or base (record { value = none; version = none }))

-- Its document can be read back.
abbrev pub IsValid : ℕ → GetConfigResponse → Type 0
IsValid levels m = CanReturn levels m.value

module _ {lib : Protobuf} (laws : IsLawful lib) where
  pub encode-Writes :
      (levels : ℕ) (m : GetConfigResponse)
      → IsValid levels m
      → Writes lib (read_field lib levels) (encode lib m) create_base m
  unfolding encode read_field create_base
  encode-Writes levels m valid =
      put_content-Writes laws levels 10 refl m.value (λ v x. record x { value = v }) valid refl refl
      ⟫ put_int32-Writes laws 16 refl m.version (λ v x. record x { version = v }) refl refl

module _ {lib : Protobuf} (onward : ReadsOn lib) where
  pub ends : (levels tag : ℕ) (m : GetConfigResponse) → FieldEnds (read_field lib levels tag m)
  unfolding read_field
  ends levels tag m = search (field_ends, onward, decode_content-AlwaysEnds onward levels)
