-- ===== src/Admin/RotateSopsKeyResponse.antt =====
-- typescript/src/gen/admin/v1/admin.ts: the message RotateSOPSKeyResponse.
use signet_clients.Wire.Messages.{
  ℕ, Option, none, List, [], ◌==◌, if◌then◌else◌, refl, Text, Outcome, Protobuf, Get, Fields,
  decode_message, ◌⊕◌, string_field, into, given_or, IsLawful, ReadsOn, IsText, Writes, ◌⟫◌,
  put_string-Writes, FieldEnds, field_ends,
}

pub record RotateSopsKeyResponse : Type 0 where
  pub new_public_key : Text
  pub new_fingerprint : Text
  pub old_public_key : Text
  pub new_environment : Text

unfoldable pub create_base : RotateSopsKeyResponse
create_base = record {
  new_public_key = [];
  new_fingerprint = [];
  old_public_key = [];
  new_environment = [];
}

module _ (lib : Protobuf) where
  unfoldable pub encode : RotateSopsKeyResponse → Outcome (List ℕ)
  encode message =
      string_field lib 10 message.new_public_key
      ⊕ string_field lib 18 message.new_fingerprint
      ⊕ string_field lib 26 message.old_public_key
      ⊕ string_field lib 34 message.new_environment

  unfoldable pub read_field : ℕ → Fields RotateSopsKeyResponse
  read_field levels tag message =
      if tag == 10
      then into lib.string (λ v. record message { new_public_key = v })
      else if tag == 18
      then into lib.string (λ v. record message { new_fingerprint = v })
      else if tag == 26
      then into lib.string (λ v. record message { old_public_key = v })
      else if tag == 34
      then into lib.string (λ v. record message { new_environment = v })
      else none

  unfoldable pub decode : ℕ → Option ℕ → Get RotateSopsKeyResponse
  unfolding read_field
  decode levels size = decode_message lib read_field create_base levels size

pub record Partial : Type 0 where
  pub new_public_key : Option Text
  pub new_fingerprint : Option Text
  pub old_public_key : Option Text
  pub new_environment : Option Text

unfoldable pub from_partial : Partial → RotateSopsKeyResponse
from_partial object = record {
  new_public_key = given_or object.new_public_key [];
  new_fingerprint = given_or object.new_fingerprint [];
  old_public_key = given_or object.old_public_key [];
  new_environment = given_or object.new_environment [];
}

unfoldable pub create : Option Partial → RotateSopsKeyResponse
unfolding from_partial
create base = from_partial (
    given_or base (record {
      new_public_key = none;
      new_fingerprint = none;
      old_public_key = none;
      new_environment = none;
    }))

-- Its texts have no lone surrogate.
abbrev pub IsValid : RotateSopsKeyResponse → Type 0
IsValid m =
    IsText m.new_public_key
    × IsText m.new_fingerprint
    × IsText m.old_public_key
    × IsText m.new_environment

module _ {lib : Protobuf} (laws : IsLawful lib) where
  pub encode-Writes :
      (levels : ℕ) (m : RotateSopsKeyResponse)
      → IsValid m
      → Writes lib (read_field lib levels) (encode lib m) create_base m
  unfolding encode read_field create_base
  encode-Writes levels m valid =
      put_string-Writes laws 10 refl m.new_public_key (λ v x. record x { new_public_key = v })
        valid.0 refl refl
      ⟫ put_string-Writes laws 18 refl m.new_fingerprint (λ v x. record x { new_fingerprint = v })
          valid.1 refl refl
      ⟫ put_string-Writes laws 26 refl m.old_public_key (λ v x. record x { old_public_key = v })
          valid.2 refl refl
      ⟫ put_string-Writes laws 34 refl m.new_environment (λ v x. record x { new_environment = v })
          valid.3 refl refl

module _ {lib : Protobuf} (onward : ReadsOn lib) where
  pub ends : (levels tag : ℕ) (m : RotateSopsKeyResponse) → FieldEnds (read_field lib levels tag m)
  unfolding read_field
  ends levels tag m = search (field_ends, onward)
