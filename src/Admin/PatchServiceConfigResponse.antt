-- ===== src/Admin/PatchServiceConfigResponse.antt =====
-- typescript/src/gen/admin/v1/admin.ts: the message PatchServiceConfigResponse.
use signet_clients.Wire.Messages.{
  ℕ, Option, none, List, ◌==◌, if◌then◌else◌, refl, ℤ, pos, Outcome, Protobuf, Get, Fields,
  decode_message, int32_field, into, given_or, IsLawful, ReadsOn, Writes, put_int32-Writes,
  FieldEnds, field_ends,
}

pub record PatchServiceConfigResponse : Type 0 where
  pub version : ℤ

unfoldable pub create_base : PatchServiceConfigResponse
create_base = record { version = pos 0 }

module _ (lib : Protobuf) where
  unfoldable pub encode : PatchServiceConfigResponse → Outcome (List ℕ)
  encode message = int32_field lib 8 message.version

  unfoldable pub read_field : ℕ → Fields PatchServiceConfigResponse
  read_field levels tag message =
      if tag == 8 then into lib.int32 (λ v. record message { version = v }) else none

  unfoldable pub decode : ℕ → Option ℕ → Get PatchServiceConfigResponse
  unfolding read_field
  decode levels size = decode_message lib read_field create_base levels size

pub record Partial : Type 0 where
  pub version : Option ℤ

unfoldable pub from_partial : Partial → PatchServiceConfigResponse
from_partial object = record { version = given_or object.version (pos 0) }

unfoldable pub create : Option Partial → PatchServiceConfigResponse
unfolding from_partial
create base = from_partial (given_or base (record { version = none }))

-- Nothing is asked of the message.
abbrev pub IsValid : PatchServiceConfigResponse → Type 0
IsValid m = Unit {0}

module _ {lib : Protobuf} (laws : IsLawful lib) where
  pub encode-Writes :
      (levels : ℕ) (m : PatchServiceConfigResponse)
      → IsValid m
      → Writes lib (read_field lib levels) (encode lib m) create_base m
  unfolding encode read_field create_base
  encode-Writes levels m valid =
      put_int32-Writes laws 8 refl m.version (λ v x. record x { version = v }) refl refl

module _ {lib : Protobuf} (onward : ReadsOn lib) where
  pub ends :
      (levels tag : ℕ) (m : PatchServiceConfigResponse) → FieldEnds (read_field lib levels tag m)
  unfolding read_field
  ends levels tag m = search (field_ends, onward)
