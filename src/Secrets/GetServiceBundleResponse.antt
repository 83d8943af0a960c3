-- ===== src/Secrets/GetServiceBundleResponse.antt =====
-- typescript/src/gen/signet/v1/secrets.ts: the message GetServiceBundleResponse.
use signet_clients.Wire.Messages.{
  ℕ, Option, none, some, List, ◌==◌, if◌then◌else◌, refl, ℤ, pos, Outcome, Protobuf, Get, Fields,
  decode_message, ◌⊕◌, int32_field, message_field, into, into_message, given_or, IsLawful, ReadsOn,
  Writes, ◌⟫◌, put_int32-Writes, FieldEnds, field_ends,
}
use signet_clients.Structs.{Entries, encode_struct}
use signet_clients.Structs.Decoding.{decode_struct}
use signet_clients.Structs.Fields.{CanReturnOption, put_struct-Writes}
use signet_clients.Structs.Endings.{decode_struct-AlwaysEnds}

pub record GetServiceBundleResponse : Type 0 where
  pub bundle : Option Entries
  pub config_version : ℤ

unfoldable pub create_base : GetServiceBundleResponse
create_base = record { bundle = none; config_version = pos 0 }

module _ (lib : Protobuf) where
  unfoldable pub encode : GetServiceBundleResponse → Outcome (List ℕ)
  encode message =
      message_field lib 10 (encode_struct lib) message.bundle
      ⊕ int32_field lib 16 message.config_version

  unfoldable pub read_field : ℕ → Fields GetServiceBundleResponse
  read_field levels tag message =
      if tag == 10
      then into_message lib (decode_struct lib levels) (λ v. record message { bundle = some v })
      else if tag == 16
      then into lib.int32 (λ v. record message { config_version = v })
      else none

  unfoldable pub decode : ℕ → Option ℕ → Get GetServiceBundleResponse
  unfolding read_field
  decode levels size = decode_message lib read_field create_base levels size

pub record Partial : Type 0 where
  pub bundle : Option Entries
  pub config_version : Option ℤ

unfoldable pub from_partial : Partial → GetServiceBundleResponse
from_partial object = record {
  bundle = object.bundle;
  config_version = given_or object.config_version (pos 0);
}

unfoldable pub create : Option Partial → GetServiceBundleResponse
unfolding from_partial
create base = from_partial (given_or base (record { bundle = none; config_version = none }))

-- Its document can be read back.
abbrev pub IsValid : ℕ → GetServiceBundleResponse → Type 0
IsValid levels m = CanReturnOption levels m.bundle

module _ {lib : Protobuf} (laws : IsLawful lib) where
  pub encode-Writes :
      (levels : ℕ) (m : GetServiceBundleResponse)
      → IsValid levels m
      → Writes lib (read_field lib levels) (encode lib m) create_base m
  unfolding encode read_field create_base
  encode-Writes levels m valid =
      put_struct-Writes laws levels 10 refl m.bundle (λ v x. record x { bundle = v }) valid refl
        refl
      ⟫ put_int32-Writes laws 16 refl m.config_version (λ v x. record x { config_version = v }) refl
          refl

module _ {lib : Protobuf} (onward : ReadsOn lib) where
  pub ends :
      (levels tag : ℕ) (m : GetServiceBundleResponse) → FieldEnds (read_field lib levels tag m)
  unfolding read_field
  ends levels tag m = search (field_ends, onward, decode_struct-AlwaysEnds onward levels)
