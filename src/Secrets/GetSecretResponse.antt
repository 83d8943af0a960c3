-- ===== src/Secrets/GetSecretResponse.antt =====
-- typescript/src/gen/signet/v1/secrets.ts: the message GetSecretResponse.
use signet_clients.Wire.Messages.{
  ℕ, Option, none, List, [], ◌==◌, if◌then◌else◌, refl, ℤ, pos, Outcome, Protobuf, Get, Fields,
  decode_message, ◌⊕◌, bytes_field, int32_field, into, given_or, IsLawful, ReadsOn, Writes, ◌⟫◌,
  put_bytes-Writes, put_int32-Writes, FieldEnds, field_ends,
}

pub record GetSecretResponse : Type 0 where
  pub value : List ℕ
  pub version : ℤ

unfoldable pub create_base : GetSecretResponse
create_base = record { value = []; version = pos 0 }

module _ (lib : Protobuf) where
  unfoldable pub encode : GetSecretResponse → Outcome (List ℕ)
  encode message = bytes_field lib 10 message.value ⊕ int32_field lib 16 message.version

  unfoldable pub read_field : ℕ → Fields GetSecretResponse
  read_field levels tag message =
      if tag == 10
      then into lib.bytes (λ v. record message { value = v })
      else if tag == 16
      then into lib.int32 (λ v. record message { version = v })
      else none

  unfoldable pub decode : ℕ → Option ℕ → Get GetSecretResponse
  unfolding read_field
  decode levels size = decode_message lib read_field create_base levels size

pub record Partial : Type 0 where
  pub value : Option (List ℕ)
  pub version : Option ℤ

unfoldable pub from_partial : Partial → GetSecretResponse
from_partial object = record {
  value = given_or object.value [];
  version = given_or object.version (pos 0);
}

unfoldable pub create : Option Partial → GetSecretResponse
unfolding from_partial
create base = from_partial (given_or base (record { value = none; version = none }))

-- Nothing is asked of the message.
abbrev pub IsValid : GetSecretResponse → Type 0
IsValid m = Unit {0}

module _ {lib : Protobuf} (laws : IsLawful lib) where
  pub encode-Writes :
      (levels : ℕ) (m : GetSecretResponse)
      → IsValid m
      → Writes lib (read_field lib levels) (encode lib m) create_base m
  unfolding encode read_field create_base
  encode-Writes levels m valid =
      put_bytes-Writes laws 10 refl m.value (λ v x. record x { value = v }) refl refl
      ⟫ put_int32-Writes laws 16 refl m.version (λ v x. record x { version = v }) refl refl

module _ {lib : Protobuf} (onward : ReadsOn lib) where
  pub ends : (levels tag : ℕ) (m : GetSecretResponse) → FieldEnds (read_field lib levels tag m)
  unfolding read_field
  ends levels tag m = search (field_ends, onward)
