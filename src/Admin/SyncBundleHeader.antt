-- ===== src/Admin/SyncBundleHeader.antt =====
-- typescript/src/gen/admin/v1/admin.ts: the message SyncBundleHeader.
use signet_clients.Wire.Messages.{
  ℕ, Option, none, List, [], ◌==◌, if◌then◌else◌, refl, Text, Outcome, Protobuf, Get, Fields,
  decode_message, ◌⊕◌, string_field, into, given_or, IsLawful, ReadsOn, IsText, Writes, ◌⟫◌,
  put_string-Writes, FieldEnds, field_ends,
}

pub record SyncBundleHeader : Type 0 where
  pub secrets_path : Text
  pub head_sha : Text
  pub config_path : Text

unfoldable pub create_base : SyncBundleHeader
create_base = record { secrets_path = []; head_sha = []; config_path = [] }

module _ (lib : Protobuf) where
  unfoldable pub encode : SyncBundleHeader → Outcome (List ℕ)
  encode message =
      string_field lib 10 message.secrets_path
      ⊕ string_field lib 18 message.head_sha
      ⊕ string_field lib 26 message.config_path

  unfoldable pub read_field : ℕ → Fields SyncBundleHeader
  read_field levels tag message =
      if tag == 10
      then into lib.string (λ v. record message { secrets_path = v })
      else if tag == 18
      then into lib.string (λ v. record message { head_sha = v })
      else if tag == 26
      then into lib.string (λ v. record message { config_path = v })
      else none

  unfoldable pub decode : ℕ → Option ℕ → Get SyncBundleHeader
  unfolding read_field
  decode levels size = decode_message lib read_field create_base levels size

pub record Partial : Type 0 where
  pub secrets_path : Option Text
  pub head_sha : Option Text
  pub config_path : Option Text

unfoldable pub from_partial : Partial → SyncBundleHeader
from_partial object = record {
  secrets_path = given_or object.secrets_path [];
  head_sha = given_or object.head_sha [];
  config_path = given_or object.config_path [];
}

unfoldable pub create : Option Partial → SyncBundleHeader
unfolding from_partial
create base =
    from_partial
      (given_or base (record { secrets_path = none; head_sha = none; config_path = none }))

-- Its texts have no lone surrogate.
abbrev pub IsValid : SyncBundleHeader → Type 0
IsValid m = IsText m.secrets_path × IsText m.head_sha × IsText m.config_path

module _ {lib : Protobuf} (laws : IsLawful lib) where
  pub encode-Writes :
      (levels : ℕ) (m : SyncBundleHeader)
      → IsValid m
      → Writes lib (read_field lib levels) (encode lib m) create_base m
  unfolding encode read_field create_base
  encode-Writes levels m valid =
      put_string-Writes laws 10 refl m.secrets_path (λ v x. record x { secrets_path = v }) valid.0
        refl refl
      ⟫ put_string-Writes laws 18 refl m.head_sha (λ v x. record x { head_sha = v }) valid.1 refl
          refl
      ⟫ put_string-Writes laws 26 refl m.config_path (λ v x. record x { config_path = v }) valid.2
          refl refl

module _ {lib : Protobuf} (onward : ReadsOn lib) where
  pub ends : (levels tag : ℕ) (m : SyncBundleHeader) → FieldEnds (read_field lib levels tag m)
  unfolding read_field
  ends levels tag m = search (field_ends, onward)
