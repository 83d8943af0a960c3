-- ===== src/Admin/SopsKeyInfo.antt =====
-- typescript/src/gen/admin/v1/admin.ts: the message SOPSKeyInfo.
use signet_clients.Wire.Messages.{
  ℕ, Bool, false, Option, none, List, [], ◌==◌, if◌then◌else◌, refl, Text, Outcome, Protobuf, Get,
  Fields, decode_message, ◌⊕◌, string_field, bool_field, into, given_or, IsLawful, ReadsOn, IsText,
  Writes, ◌⟫◌, put_string-Writes, put_bool-Writes, FieldEnds, field_ends,
}

pub record SopsKeyInfo : Type 0 where
  pub public_key : Text
  pub fingerprint : Text
  pub is_active : Bool
  pub created_at : Text
  pub deactivated_at : Text
  pub environment : Text

unfoldable pub create_base : SopsKeyInfo
create_base = record {
  public_key = [];
  fingerprint = [];
  is_active = false;
  created_at = [];
  deactivated_at = [];
  environment = [];
}

module _ (lib : Protobuf) where
  unfoldable pub encode : SopsKeyInfo → Outcome (List ℕ)
  encode message =
      string_field lib 10 message.public_key
      ⊕ string_field lib 18 message.fingerprint
      ⊕ bool_field lib 24 message.is_active
      ⊕ string_field lib 34 message.created_at
      ⊕ string_field lib 42 message.deactivated_at
      ⊕ string_field lib 50 message.environment

  unfoldable pub read_field : ℕ → Fields SopsKeyInfo
  read_field levels tag message =
      if tag == 10
      then into lib.string (λ v. record message { public_key = v })
      else if tag == 18
      then into lib.string (λ v. record message { fingerprint = v })
      else if tag == 24
      then into lib.bool (λ v. record message { is_active = v })
      else if tag == 34
      then into lib.string (λ v. record message { created_at = v })
      else if tag == 42
      then into lib.string (λ v. record message { deactivated_at = v })
      else if tag == 50
      then into lib.string (λ v. record message { environment = v })
      else none

  unfoldable pub decode : ℕ → Option ℕ → Get SopsKeyInfo
  unfolding read_field
  decode levels size = decode_message lib read_field create_base levels size

pub record Partial : Type 0 where
  pub public_key : Option Text
  pub fingerprint : Option Text
  pub is_active : Option Bool
  pub created_at : Option Text
  pub deactivated_at : Option Text
  pub environment : Option Text

unfoldable pub from_partial : Partial → SopsKeyInfo
from_partial object = record {
  public_key = given_or object.public_key [];
  fingerprint = given_or object.fingerprint [];
  is_active = given_or object.is_active false;
  created_at = given_or object.created_at [];
  deactivated_at = given_or object.deactivated_at [];
  environment = given_or object.environment [];
}

unfoldable pub create : Option Partial → SopsKeyInfo
unfolding from_partial
create base = from_partial (
    given_or base (record {
      public_key = none;
      fingerprint = none;
      is_active = none;
      created_at = none;
      deactivated_at = none;
      environment = none;
    }))

-- Its texts have no lone surrogate.
abbrev pub IsValid : SopsKeyInfo → Type 0
IsValid m =
    IsText m.public_key
    × IsText m.fingerprint
    × IsText m.created_at
    × IsText m.deactivated_at
    × IsText m.environment

module _ {lib : Protobuf} (laws : IsLawful lib) where
  pub encode-Writes :
      (levels : ℕ) (m : SopsKeyInfo)
      → IsValid m
      → Writes lib (read_field lib levels) (encode lib m) create_base m
  unfolding encode read_field create_base
  encode-Writes levels m valid =
      put_string-Writes laws 10 refl m.public_key (λ v x. record x { public_key = v }) valid.0 refl
        refl
      ⟫ put_string-Writes laws 18 refl m.fingerprint (λ v x. record x { fingerprint = v }) valid.1
          refl refl
      ⟫ put_bool-Writes laws 24 refl m.is_active (λ v x. record x { is_active = v }) refl refl
      ⟫ put_string-Writes laws 34 refl m.created_at (λ v x. record x { created_at = v }) valid.2
          refl refl
      ⟫ put_string-Writes laws 42 refl m.deactivated_at (λ v x. record x { deactivated_at = v })
          valid.3 refl refl
      ⟫ put_string-Writes laws 50 refl m.environment (λ v x. record x { environment = v }) valid.4
          refl refl

module _ {lib : Protobuf} (onward : ReadsOn lib) where
  pub ends : (levels tag : ℕ) (m : SopsKeyInfo) → FieldEnds (read_field lib levels tag m)
  unfolding read_field
  ends levels tag m = search (field_ends, onward) depth 8
