-- ===== src/Admin/GetSopsPublicKeyResponse.antt =====
-- typescript/src/gen/admin/v1/admin.ts: the message GetSOPSPublicKeyResponse.
use signet_clients.Wire.Messages.{
  ℕ, Option, none, List, [], ◌==◌, if◌then◌else◌, refl, Text, Outcome, Protobuf, Get, Fields,
  decode_message, ◌⊕◌, string_field, into, given_or, IsLawful, ReadsOn, IsText, Writes, ◌⟫◌,
  put_string-Writes, FieldEnds, field_ends,
}

pub record GetSopsPublicKeyResponse : Type 0 where
  pub public_key : Text
  pub fingerprint : Text
  pub created_at : Text
  pub environment : Text

unfoldable pub create_base : GetSopsPublicKeyResponse
create_base = record { public_key = []; fingerprint = []; created_at = []; environment = [] }

module _ (lib : Protobuf) where
  unfoldable pub encode : GetSopsPublicKeyResponse → Outcome (List ℕ)
  encode message =
      string_field lib 10 message.public_key
      ⊕ string_field lib 18 message.fingerprint
      ⊕ string_field lib 26 message.created_at
      ⊕ string_field lib 34 message.environment

  unfoldable pub read_field : ℕ → Fields GetSopsPublicKeyResponse
  read_field levels tag message =
      if tag == 10
      then into lib.string (λ v. record message { public_key = v })
      else if tag == 18
      then into lib.string (λ v. record message { fingerprint = v })
      else if tag == 26
      then into lib.string (λ v. record message { created_at = v })
      else if tag == 34
      then into lib.string (λ v. record message { environment = v })
      else none

  unfoldable pub decode : ℕ → Option ℕ → Get GetSopsPublicKeyResponse
  unfolding read_field
  decode levels size = decode_message lib read_field create_base levels size

pub record Partial : Type 0 where
  pub public_key : Option Text
  pub fingerprint : Option Text
  pub created_at : Option Text
  pub environment : Option Text

unfoldable pub from_partial : Partial → GetSopsPublicKeyResponse
from_partial object = record {
  public_key = given_or object.public_key [];
  fingerprint = given_or object.fingerprint [];
  created_at = given_or object.created_at [];
  environment = given_or object.environment [];
}

unfoldable pub create : Option Partial → GetSopsPublicKeyResponse
unfolding from_partial
create base = from_partial (
    given_or base
      (record { public_key = none; fingerprint = none; created_at = none; environment = none }))

-- Its texts have no lone surrogate.
abbrev pub IsValid : GetSopsPublicKeyResponse → Type 0
IsValid m = IsText m.public_key × IsText m.fingerprint × IsText m.created_at × IsText m.environment

module _ {lib : Protobuf} (laws : IsLawful lib) where
  pub encode-Writes :
      (levels : ℕ) (m : GetSopsPublicKeyResponse)
      → IsValid m
      → Writes lib (read_field lib levels) (encode lib m) create_base m
  unfolding encode read_field create_base
  encode-Writes levels m valid =
      put_string-Writes laws 10 refl m.public_key (λ v x. record x { public_key = v }) valid.0 refl
        refl
      ⟫ put_string-Writes laws 18 refl m.fingerprint (λ v x. record x { fingerprint = v }) valid.1
          refl refl
      ⟫ put_string-Writes laws 26 refl m.created_at (λ v x. record x { created_at = v }) valid.2
          refl refl
      ⟫ put_string-Writes laws 34 refl m.environment (λ v x. record x { environment = v }) valid.3
          refl refl

module _ {lib : Protobuf} (onward : ReadsOn lib) where
  pub ends :
      (levels tag : ℕ) (m : GetSopsPublicKeyResponse) → FieldEnds (read_field lib levels tag m)
  unfolding read_field
  ends levels tag m = search (field_ends, onward)
