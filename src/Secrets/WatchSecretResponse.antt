-- ===== src/Secrets/WatchSecretResponse.antt =====
-- typescript/src/gen/signet/v1/secrets.ts: the message WatchSecretResponse.
use signet_clients.Wire.Messages.{
  ℕ, Option, none, List, [], ◌==◌, if◌then◌else◌, refl, ℤ, pos, Text, Outcome, Protobuf, Get,
  Fields, decode_message, ◌⊕◌, string_field, bytes_field, int32_field, into, given_or, IsLawful,
  ReadsOn, IsText, Writes, ◌⟫◌, put_string-Writes, put_bytes-Writes, put_int32-Writes, FieldEnds,
  field_ends,
}

pub record WatchSecretResponse : Type 0 where
  pub event_type : ℤ
  pub namespace : Text
  pub service : Text
  pub name : Text
  pub value : List ℕ
  pub version : ℤ

unfoldable pub create_base : WatchSecretResponse
create_base = record {
  event_type = pos 0;
  namespace = [];
  service = [];
  name = [];
  value = [];
  version = pos 0;
}

module _ (lib : Protobuf) where
  unfoldable pub encode : WatchSecretResponse → Outcome (List ℕ)
  encode message =
      int32_field lib 8 message.event_type
      ⊕ string_field lib 18 message.namespace
      ⊕ string_field lib 26 message.service
      ⊕ string_field lib 34 message.name
      ⊕ bytes_field lib 42 message.value
      ⊕ int32_field lib 48 message.version

  unfoldable pub read_field : ℕ → Fields WatchSecretResponse
  read_field levels tag message =
      if tag == 8
      then into lib.int32 (λ v. record message { event_type = v })
      else if tag == 18
      then into lib.string (λ v. record message { namespace = v })
      else if tag == 26
      then into lib.string (λ v. record message { service = v })
      else if tag == 34
      then into lib.string (λ v. record message { name = v })
      else if tag == 42
      then into lib.bytes (λ v. record message { value = v })
      else if tag == 48
      then into lib.int32 (λ v. record message { version = v })
      else none

  unfoldable pub decode : ℕ → Option ℕ → Get WatchSecretResponse
  unfolding read_field
  decode levels size = decode_message lib read_field create_base levels size

pub record Partial : Type 0 where
  pub event_type : Option ℤ
  pub namespace : Option Text
  pub service : Option Text
  pub name : Option Text
  pub value : Option (List ℕ)
  pub version : Option ℤ

unfoldable pub from_partial : Partial → WatchSecretResponse
from_partial object = record {
  event_type = given_or object.event_type (pos 0);
  namespace = given_or object.namespace [];
  service = given_or object.service [];
  name = given_or object.name [];
  value = given_or object.value [];
  version = given_or object.version (pos 0);
}

unfoldable pub create : Option Partial → WatchSecretResponse
unfolding from_partial
create base = from_partial (
    given_or base (record {
      event_type = none;
      namespace = none;
      service = none;
      name = none;
      value = none;
      version = none;
    }))

-- Its texts have no lone surrogate.
abbrev pub IsValid : WatchSecretResponse → Type 0
IsValid m = IsText m.namespace × IsText m.service × IsText m.name

module _ {lib : Protobuf} (laws : IsLawful lib) where
  pub encode-Writes :
      (levels : ℕ) (m : WatchSecretResponse)
      → IsValid m
      → Writes lib (read_field lib levels) (encode lib m) create_base m
  unfolding encode read_field create_base
  encode-Writes levels m valid =
      put_int32-Writes laws 8 refl m.event_type (λ v x. record x { event_type = v }) refl refl
      ⟫ put_string-Writes laws 18 refl m.namespace (λ v x. record x { namespace = v }) valid.0 refl
          refl
      ⟫ put_string-Writes laws 26 refl m.service (λ v x. record x { service = v }) valid.1 refl refl
      ⟫ put_string-Writes laws 34 refl m.name (λ v x. record x { name = v }) valid.2 refl refl
      ⟫ put_bytes-Writes laws 42 refl m.value (λ v x. record x { value = v }) refl refl
      ⟫ put_int32-Writes laws 48 refl m.version (λ v x. record x { version = v }) refl refl

module _ {lib : Protobuf} (onward : ReadsOn lib) where
  pub ends : (levels tag : ℕ) (m : WatchSecretResponse) → FieldEnds (read_field lib levels tag m)
  unfolding read_field
  ends levels tag m = search (field_ends, onward) depth 8
