-- ===== src/Secrets/WatchServiceConfigResponse.antt =====
-- typescript/src/gen/signet/v1/secrets.ts: the message WatchServiceConfigResponse.
use signet_clients.Wire.Messages.{
  ℕ, Option, none, some, List, [], ◌==◌, if◌then◌else◌, refl, ℤ, pos, Text, Outcome, Protobuf, Get,
  Fields, decode_message, ◌⊕◌, string_field, int32_field, message_field, into, into_message,
  given_or, IsLawful, ReadsOn, IsText, Writes, ◌⟫◌, put_string-Writes, put_int32-Writes, FieldEnds,
  field_ends,
}
use signet_clients.Structs.{Entries, encode_struct}
use signet_clients.Structs.Decoding.{decode_struct}
use signet_clients.Structs.Fields.{CanReturnOption, put_struct-Writes}
use signet_clients.Structs.Endings.{decode_struct-AlwaysEnds}

pub record WatchServiceConfigResponse : Type 0 where
  pub event_type : ℤ
  pub namespace : Text
  pub service : Text
  pub values : Option Entries
  pub version : ℤ

unfoldable pub create_base : WatchServiceConfigResponse
create_base = record {
  event_type = pos 0;
  namespace = [];
  service = [];
  values = none;
  version = pos 0;
}

module _ (lib : Protobuf) where
  unfoldable pub encode : WatchServiceConfigResponse → Outcome (List ℕ)
  encode message =
      int32_field lib 8 message.event_type
      ⊕ string_field lib 18 message.namespace
      ⊕ string_field lib 26 message.service
      ⊕ message_field lib 34 (encode_struct lib) message.values
      ⊕ int32_field lib 40 message.version

  unfoldable pub read_field : ℕ → Fields WatchServiceConfigResponse
  read_field levels tag message =
      if tag == 8
      then into lib.int32 (λ v. record message { event_type = v })
      else if tag == 18
      then into lib.string (λ v. record message { namespace = v })
      else if tag == 26
      then into lib.string (λ v. record message { service = v })
      else if tag == 34
      then into_message lib (decode_struct lib levels) (λ v. record message { values = some v })
      else if tag == 40
      then into lib.int32 (λ v. record message { version = v })
      else none

  unfoldable pub decode : ℕ → Option ℕ → Get WatchServiceConfigResponse
  unfolding read_field
  decode levels size = decode_message lib read_field create_base levels size

pub record Partial : Type 0 where
  pub event_type : Option ℤ
  pub namespace : Option Text
  pub service : Option Text
  pub values : Option Entries
  pub version : Option ℤ

unfoldable pub from_partial : Partial → WatchServiceConfigResponse
from_partial object = record {
  event_type = given_or object.event_type (pos 0);
  namespace = given_or object.namespace [];
  service = given_or object.service [];
  values = object.values;
  version = given_or object.version (pos 0);
}

unfoldable pub create : Option Partial → WatchServiceConfigResponse
unfolding from_partial
create base = from_partial (
    given_or base (record {
      event_type = none;
      namespace = none;
      service = none;
      values = none;
      version = none;
    }))

-- Its texts have no lone surrogate and its document can be read back.
abbrev pub IsValid : ℕ → WatchServiceConfigResponse → Type 0
IsValid levels m = IsText m.namespace × IsText m.service × CanReturnOption levels m.values

module _ {lib : Protobuf} (laws : IsLawful lib) where
  pub encode-Writes :
      (levels : ℕ) (m : WatchServiceConfigResponse)
      → IsValid levels m
      → Writes lib (read_field lib levels) (encode lib m) create_base m
  unfolding encode read_field create_base
  encode-Writes levels m valid =
      put_int32-Writes laws 8 refl m.event_type (λ v x. record x { event_type = v }) refl refl
      ⟫ put_string-Writes laws 18 refl m.namespace (λ v x. record x { namespace = v }) valid.0 refl
          refl
      ⟫ put_string-Writes laws 26 refl m.service (λ v x. record x { service = v }) valid.1 refl refl
      ⟫ put_struct-Writes laws levels 34 refl m.values (λ v x. record x { values = v }) valid.2 refl
          refl
      ⟫ put_int32-Writes laws 40 refl m.version (λ v x. record x { version = v }) refl refl

module _ {lib : Protobuf} (onward : ReadsOn lib) where
  pub ends :
      (levels tag : ℕ) (m : WatchServiceConfigResponse) → FieldEnds (read_field lib levels tag m)
  unfolding read_field
  ends levels tag m = search (field_ends, onward, decode_struct-AlwaysEnds onward levels) depth 7
