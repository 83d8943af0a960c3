-- ===== src/Secrets/GetServiceConfigResponse.antt =====
-- typescript/src/gen/signet/v1/secrets.ts: the message GetServiceConfigResponse.
use signet_clients.Wire.Messages.{
  ℕ, Option, none, some, List, ◌==◌, if◌then◌else◌, refl, ℤ, pos, Outcome, Protobuf, Get, Fields,
  decode_message, ◌⊕◌, int32_field, message_field, into, into_message, given_or, IsLawful, ReadsOn,
  Writes, ◌⟫◌, put_int32-Writes, FieldEnds, field_ends,
}
use signet_clients.Structs.{Entries, encode_struct}
use signet_clients.Structs.Decoding.{decode_struct}
use signet_clients.Structs.Fields.{CanReturnOption, put_struct-Writes}
use signet_clients.Structs.Endings.{decode_struct-AlwaysEnds}

pub record GetServiceConfigResponse : Type 0 where
  pub values : Option Entries
  pub version : ℤ

unfoldable pub create_base : GetServiceConfigResponse
create_base = record { values = none; version = pos 0 }

module _ (lib : Protobuf) where
  unfoldable pub encode : GetServiceConfigResponse → Outcome (List ℕ)
  encode message =
      message_field lib 10 (encode_struct lib) message.values ⊕ int32_field lib 16 message.version

  unfoldable pub read_field : ℕ → Fields GetServiceConfigResponse
  read_field levels tag message =
      if tag == 10
      then into_message lib (decode_struct lib levels) (λ v. record message { values = some v })
      else if tag == 16
      then into lib.int32 (λ v. record message { version = v })
      else none

  unfoldable pub decode : ℕ → Option ℕ → Get GetServiceConfigResponse
  unfolding read_field
  decode levels size = decode_message lib read_field create_base levels size

pub record Partial : Type 0 where
  pub values : Option Entries
  pub version : Option ℤ

unfoldable pub from_partial : Partial → GetServiceConfigResponse
from_partial object = record { values = object.values; version = given_or object.version (pos 0) }

unfoldable pub create : Option Partial → GetServiceConfigResponse
unfolding from_partial
create base = from_partial (given_or base (record { values = none; version = none }))

-- Its document can be read back.
abbrev pub IsValid : ℕ → GetServiceConfigResponse → Type 0
IsValid levels m = CanReturnOption levels m.values

module _ {lib : Protobuf} (laws : IsLawful lib) where
  pub encode-Writes :
      (levels : ℕ) (m : GetServiceConfigResponse)
      → IsValid levels m
      → Writes lib (read_field lib levels) (encode lib m) create_base m
  unfolding encode read_field create_base
  encode-Writes levels m valid =
      put_struct-Writes laws levels 10 refl m.values (λ v x. record x { values = v }) valid refl
        refl
      ⟫ put_int32-Writes laws 16 refl m.version (λ v x. record x { version = v }) refl refl

module _ {lib : Protobuf} (onward : ReadsOn lib) where
  pub ends :
      (levels tag : ℕ) (m : GetServiceConfigResponse) → FieldEnds (read_field lib levels tag m)
  unfolding read_field
  ends levels tag m = search (field_ends, onward, decode_struct-AlwaysEnds onward levels)
