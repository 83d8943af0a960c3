-- ===== src/Admin/TriggerSyncResponse.antt =====
-- typescript/src/gen/admin/v1/admin.ts: the message TriggerSyncResponse.
use signet_clients.Wire.Messages.{
  ℕ, Option, none, List, [], ◌∷◌, ◌++◌, All, ◌==◌, if◌then◌else◌, refl, ℤ, pos, Text, Outcome,
  Protobuf, Get, Fields, decode_message, ◌⊕◌, string_field, int32_field, into, given_or,
  repeated_string_field, IsLawful, ReadsOn, IsText, Writes, ◌⟫◌, put_string-Writes,
  put_int32-Writes, put_strings-Writes, FieldEnds, field_ends,
}

pub record TriggerSyncResponse : Type 0 where
  pub secrets_added : ℤ
  pub secrets_updated : ℤ
  pub secrets_deleted : ℤ
  pub sync_sha : Text
  pub errors : List Text
  pub configs_synced : ℤ
  pub configs_conflicted : ℤ

unfoldable pub create_base : TriggerSyncResponse
create_base = record {
  secrets_added = pos 0;
  secrets_updated = pos 0;
  secrets_deleted = pos 0;
  sync_sha = [];
  errors = [];
  configs_synced = pos 0;
  configs_conflicted = pos 0;
}

module _ (lib : Protobuf) where
  unfoldable pub encode : TriggerSyncResponse → Outcome (List ℕ)
  encode message =
      int32_field lib 8 message.secrets_added
      ⊕ int32_field lib 16 message.secrets_updated
      ⊕ int32_field lib 24 message.secrets_deleted
      ⊕ string_field lib 34 message.sync_sha
      ⊕ repeated_string_field lib 42 message.errors
      ⊕ int32_field lib 48 message.configs_synced
      ⊕ int32_field lib 56 message.configs_conflicted

  unfoldable pub read_field : ℕ → Fields TriggerSyncResponse
  read_field levels tag message =
      if tag == 8
      then into lib.int32 (λ v. record message { secrets_added = v })
      else if tag == 16
      then into lib.int32 (λ v. record message { secrets_updated = v })
      else if tag == 24
      then into lib.int32 (λ v. record message { secrets_deleted = v })
      else if tag == 34
      then into lib.string (λ v. record message { sync_sha = v })
      else if tag == 42
      then into lib.string (λ v. record message { errors = message.errors ++ v ∷ [] })
      else if tag == 48
      then into lib.int32 (λ v. record message { configs_synced = v })
      else if tag == 56
      then into lib.int32 (λ v. record message { configs_conflicted = v })
      else none

  unfoldable pub decode : ℕ → Option ℕ → Get TriggerSyncResponse
  unfolding read_field
  decode levels size = decode_message lib read_field create_base levels size

pub record Partial : Type 0 where
  pub secrets_added : Option ℤ
  pub secrets_updated : Option ℤ
  pub secrets_deleted : Option ℤ
  pub sync_sha : Option Text
  pub errors : Option (List Text)
  pub configs_synced : Option ℤ
  pub configs_conflicted : Option ℤ

unfoldable pub from_partial : Partial → TriggerSyncResponse
from_partial object = record {
  secrets_added = given_or object.secrets_added (pos 0);
  secrets_updated = given_or object.secrets_updated (pos 0);
  secrets_deleted = given_or object.secrets_deleted (pos 0);
  sync_sha = given_or object.sync_sha [];
  errors = given_or object.errors [];
  configs_synced = given_or object.configs_synced (pos 0);
  configs_conflicted = given_or object.configs_conflicted (pos 0);
}

unfoldable pub create : Option Partial → TriggerSyncResponse
unfolding from_partial
create base = from_partial (
    given_or base (record {
      secrets_added = none;
      secrets_updated = none;
      secrets_deleted = none;
      sync_sha = none;
      errors = none;
      configs_synced = none;
      configs_conflicted = none;
    }))

-- Its texts have no lone surrogate.
abbrev pub IsValid : TriggerSyncResponse → Type 0
IsValid m = IsText m.sync_sha × All IsText m.errors

module _ {lib : Protobuf} (laws : IsLawful lib) where
  pub encode-Writes :
      (levels : ℕ) (m : TriggerSyncResponse)
      → IsValid m
      → Writes lib (read_field lib levels) (encode lib m) create_base m
  unfolding encode read_field create_base
  encode-Writes levels m valid =
      put_int32-Writes laws 8 refl m.secrets_added (λ v x. record x { secrets_added = v }) refl refl
      ⟫ put_int32-Writes laws 16 refl m.secrets_updated (λ v x. record x { secrets_updated = v })
          refl refl
      ⟫ put_int32-Writes laws 24 refl m.secrets_deleted (λ v x. record x { secrets_deleted = v })
          refl refl
      ⟫ put_string-Writes laws 34 refl m.sync_sha (λ v x. record x { sync_sha = v }) valid.0 refl
          refl
      ⟫ put_strings-Writes laws 42 refl m.errors (λ v x. record x { errors = v }) valid.1 refl
          (λ _. refl)
      ⟫ put_int32-Writes laws 48 refl m.configs_synced (λ v x. record x { configs_synced = v }) refl
          refl
      ⟫ put_int32-Writes laws 56 refl m.configs_conflicted
          (λ v x. record x { configs_conflicted = v }) refl refl

module _ {lib : Protobuf} (onward : ReadsOn lib) where
  pub ends : (levels tag : ℕ) (m : TriggerSyncResponse) → FieldEnds (read_field lib levels tag m)
  unfolding read_field
  ends levels tag m = search (field_ends, onward) depth 9
