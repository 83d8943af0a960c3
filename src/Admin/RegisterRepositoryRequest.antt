-- ===== src/Admin/RegisterRepositoryRequest.antt =====
-- typescript/src/gen/admin/v1/admin.ts: the message RegisterRepositoryRequest.
use signet_clients.Wire.Messages.{
  ℕ, Option, none, List, [], ◌==◌, if◌then◌else◌, refl, Text, Outcome, Protobuf, Get, Fields,
  decode_message, ◌⊕◌, string_field, bytes_field, into, given_or, IsLawful, ReadsOn, IsText, Writes,
  ◌⟫◌, put_string-Writes, put_bytes-Writes, FieldEnds, field_ends,
}

pub record RegisterRepositoryRequest : Type 0 where
  pub name : Text
  pub repo_url : Text
  pub branch : Text
  pub secrets_path : Text
  pub deploy_key : List ℕ
  pub config_path : Text

unfoldable pub create_base : RegisterRepositoryRequest
create_base = record {
  name = [];
  repo_url = [];
  branch = [];
  secrets_path = [];
  deploy_key = [];
  config_path = [];
}

module _ (lib : Protobuf) where
  unfoldable pub encode : RegisterRepositoryRequest → Outcome (List ℕ)
  encode message =
      string_field lib 10 message.name
      ⊕ string_field lib 18 message.repo_url
      ⊕ string_field lib 26 message.branch
      ⊕ string_field lib 34 message.secrets_path
      ⊕ bytes_field lib 42 message.deploy_key
      ⊕ string_field lib 50 message.config_path

  unfoldable pub read_field : ℕ → Fields RegisterRepositoryRequest
  read_field levels tag message =
      if tag == 10
      then into lib.string (λ v. record message { name = v })
      else if tag == 18
      then into lib.string (λ v. record message { repo_url = v })
      else if tag == 26
      then into lib.string (λ v. record message { branch = v })
      else if tag == 34
      then into lib.string (λ v. record message { secrets_path = v })
      else if tag == 42
      then into lib.bytes (λ v. record message { deploy_key = v })
      else if tag == 50
      then into lib.string (λ v. record message { config_path = v })
      else none

  unfoldable pub decode : ℕ → Option ℕ → Get RegisterRepositoryRequest
  unfolding read_field
  decode levels size = decode_message lib read_field create_base levels size

pub record Partial : Type 0 where
  pub name : Option Text
  pub repo_url : Option Text
  pub branch : Option Text
  pub secrets_path : Option Text
  pub deploy_key : Option (List ℕ)
  pub config_path : Option Text

unfoldable pub from_partial : Partial → RegisterRepositoryRequest
from_partial object = record {
  name = given_or object.name [];
  repo_url = given_or object.repo_url [];
  branch = given_or object.branch [];
  secrets_path = given_or object.secrets_path [];
  deploy_key = given_or object.deploy_key [];
  config_path = given_or object.config_path [];
}

unfoldable pub create : Option Partial → RegisterRepositoryRequest
unfolding from_partial
create base = from_partial (
    given_or base (record {
      name = none;
      repo_url = none;
      branch = none;
      secrets_path = none;
      deploy_key = none;
      config_path = none;
    }))

-- Its texts have no lone surrogate.
abbrev pub IsValid : RegisterRepositoryRequest → Type 0
IsValid m =
    IsText m.name
    × IsText m.repo_url
    × IsText m.branch
    × IsText m.secrets_path
    × IsText m.config_path

module _ {lib : Protobuf} (laws : IsLawful lib) where
  pub encode-Writes :
      (levels : ℕ) (m : RegisterRepositoryRequest)
      → IsValid m
      → Writes lib (read_field lib levels) (encode lib m) create_base m
  unfolding encode read_field create_base
  encode-Writes levels m valid =
      put_string-Writes laws 10 refl m.name (λ v x. record x { name = v }) valid.0 refl refl
      ⟫ put_string-Writes laws 18 refl m.repo_url (λ v x. record x { repo_url = v }) valid.1 refl
          refl
      ⟫ put_string-Writes laws 26 refl m.branch (λ v x. record x { branch = v }) valid.2 refl refl
      ⟫ put_string-Writes laws 34 refl m.secrets_path (λ v x. record x { secrets_path = v }) valid.3
          refl refl
      ⟫ put_bytes-Writes laws 42 refl m.deploy_key (λ v x. record x { deploy_key = v }) refl refl
      ⟫ put_string-Writes laws 50 refl m.config_path (λ v x. record x { config_path = v }) valid.4
          refl refl

module _ {lib : Protobuf} (onward : ReadsOn lib) where
  pub ends :
      (levels tag : ℕ) (m : RegisterRepositoryRequest) → FieldEnds (read_field lib levels tag m)
  unfolding read_field
  ends levels tag m = search (field_ends, onward) depth 8
