-- ===== src/Admin/RepositoryInfo.antt =====
-- typescript/src/gen/admin/v1/admin.ts: the message RepositoryInfo.
use signet_clients.Wire.Messages.{
  ℕ, Option, none, List, [], ◌==◌, if◌then◌else◌, refl, Text, Outcome, Protobuf, Get, Fields,
  decode_message, ◌⊕◌, string_field, into, given_or, IsLawful, ReadsOn, IsText, Writes, ◌⟫◌,
  put_string-Writes, FieldEnds, field_ends,
}

pub record RepositoryInfo : Type 0 where
  pub id : Text
  pub name : Text
  pub repo_url : Text
  pub branch : Text
  pub secrets_path : Text
  pub last_sync_sha : Text
  pub last_sync_at : Text
  pub config_path : Text

unfoldable pub create_base : RepositoryInfo
create_base = record {
  id = [];
  name = [];
  repo_url = [];
  branch = [];
  secrets_path = [];
  last_sync_sha = [];
  last_sync_at = [];
  config_path = [];
}

module _ (lib : Protobuf) where
  unfoldable pub encode : RepositoryInfo → Outcome (List ℕ)
  encode message =
      string_field lib 10 message.id
      ⊕ string_field lib 18 message.name
      ⊕ string_field lib 26 message.repo_url
      ⊕ string_field lib 34 message.branch
      ⊕ string_field lib 42 message.secrets_path
      ⊕ string_field lib 50 message.last_sync_sha
      ⊕ string_field lib 58 message.last_sync_at
      ⊕ string_field lib 66 message.config_path

  unfoldable pub read_field : ℕ → Fields RepositoryInfo
  read_field levels tag message =
      if tag == 10
      then into lib.string (λ v. record message { id = v })
      else if tag == 18
      then into lib.string (λ v. record message { name = v })
      else if tag == 26
      then into lib.string (λ v. record message { repo_url = v })
      else if tag == 34
      then into lib.string (λ v. record message { branch = v })
      else if tag == 42
      then into lib.string (λ v. record message { secrets_path = v })
      else if tag == 50
      then into lib.string (λ v. record message { last_sync_sha = v })
      else if tag == 58
      then into lib.string (λ v. record message { last_sync_at = v })
      else if tag == 66
      then into lib.string (λ v. record message { config_path = v })
      else none

  unfoldable pub decode : ℕ → Option ℕ → Get RepositoryInfo
  unfolding read_field
  decode levels size = decode_message lib read_field create_base levels size

pub record Partial : Type 0 where
  pub id : Option Text
  pub name : Option Text
  pub repo_url : Option Text
  pub branch : Option Text
  pub secrets_path : Option Text
  pub last_sync_sha : Option Text
  pub last_sync_at : Option Text
  pub config_path : Option Text

unfoldable pub from_partial : Partial → RepositoryInfo
from_partial object = record {
  id = given_or object.id [];
  name = given_or object.name [];
  repo_url = given_or object.repo_url [];
  branch = given_or object.branch [];
  secrets_path = given_or object.secrets_path [];
  last_sync_sha = given_or object.last_sync_sha [];
  last_sync_at = given_or object.last_sync_at [];
  config_path = given_or object.config_path [];
}

unfoldable pub create : Option Partial → RepositoryInfo
unfolding from_partial
create base = from_partial (
    given_or base (record {
      id = none;
      name = none;
      repo_url = none;
      branch = none;
      secrets_path = none;
      last_sync_sha = none;
      last_sync_at = none;
      config_path = none;
    }))

-- Its texts have no lone surrogate.
abbrev pub IsValid : RepositoryInfo → Type 0
IsValid m =
    IsText m.id
    × IsText m.name
    × IsText m.repo_url
    × IsText m.branch
    × IsText m.secrets_path
    × IsText m.last_sync_sha
    × IsText m.last_sync_at
    × IsText m.config_path

module _ {lib : Protobuf} (laws : IsLawful lib) where
  pub encode-Writes :
      (levels : ℕ) (m : RepositoryInfo)
      → IsValid m
      → Writes lib (read_field lib levels) (encode lib m) create_base m
  unfolding encode read_field create_base
  encode-Writes levels m valid =
      put_string-Writes laws 10 refl m.id (λ v x. record x { id = v }) valid.0 refl refl
      ⟫ put_string-Writes laws 18 refl m.name (λ v x. record x { name = v }) valid.1 refl refl
      ⟫ put_string-Writes laws 26 refl m.repo_url (λ v x. record x { repo_url = v }) valid.2 refl
          refl
      ⟫ put_string-Writes laws 34 refl m.branch (λ v x. record x { branch = v }) valid.3 refl refl
      ⟫ put_string-Writes laws 42 refl m.secrets_path (λ v x. record x { secrets_path = v }) valid.4
          refl refl
      ⟫ put_string-Writes laws 50 refl m.last_sync_sha (λ v x. record x { last_sync_sha = v })
          valid.5 refl refl
      ⟫ put_string-Writes laws 58 refl m.last_sync_at (λ v x. record x { last_sync_at = v }) valid.6
          refl refl
      ⟫ put_string-Writes laws 66 refl m.config_path (λ v x. record x { config_path = v }) valid.7
          refl refl

module _ {lib : Protobuf} (onward : ReadsOn lib) where
  pub ends : (levels tag : ℕ) (m : RepositoryInfo) → FieldEnds (read_field lib levels tag m)
  unfolding read_field
  ends levels tag m = search (field_ends, onward) depth 10
