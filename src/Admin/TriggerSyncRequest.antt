-- ===== src/Admin/TriggerSyncRequest.antt =====
-- typescript/src/gen/admin/v1/admin.ts: the message TriggerSyncRequest.
use signet_clients.Wire.Messages.{
  ℕ, Bool, false, Option, none, List, [], ◌==◌, if◌then◌else◌, refl, Text, Outcome, Protobuf, Get,
  Fields, decode_message, ◌⊕◌, string_field, bool_field, into, given_or, IsLawful, ReadsOn, IsText,
  Writes, ◌⟫◌, put_string-Writes, put_bool-Writes, FieldEnds, field_ends,
}

pub record TriggerSyncRequest : Type 0 where
  pub id : Text
  pub force : Bool

unfoldable pub create_base : TriggerSyncRequest
create_base = record { id = []; force = false }

module _ (lib : Protobuf) where
  unfoldable pub encode : TriggerSyncRequest → Outcome (List ℕ)
  encode message = string_field lib 10 message.id ⊕ bool_field lib 16 message.force

  unfoldable pub read_field : ℕ → Fields TriggerSyncRequest
  read_field levels tag message =
      if tag == 10
      then into lib.string (λ v. record message { id = v })
      else if tag == 16
      then into lib.bool (λ v. record message { force = v })
      else none

  unfoldable pub decode : ℕ → Option ℕ → Get TriggerSyncRequest
  unfolding read_field
  decode levels size = decode_message lib read_field create_base levels size

pub record Partial : Type 0 where
  pub id : Option Text
  pub force : Option Bool

unfoldable pub from_partial : Partial → TriggerSyncRequest
from_partial object = record { id = given_or object.id []; force = given_or object.force false }

unfoldable pub create : Option Partial → TriggerSyncRequest
unfolding from_partial
create base = from_partial (given_or base (record { id = none; force = none }))

-- Its texts have no lone surrogate.
abbrev pub IsValid : TriggerSyncRequest → Type 0
IsValid m = IsText m.id

module _ {lib : Protobuf} (laws : IsLawful lib) where
  pub encode-Writes :
      (levels : ℕ) (m : TriggerSyncRequest)
      → IsValid m
      → Writes lib (read_field lib levels) (encode lib m) create_base m
  unfolding encode read_field create_base
  encode-Writes levels m valid =
      put_string-Writes laws 10 refl m.id (λ v x. record x { id = v }) valid refl refl
      ⟫ put_bool-Writes laws 16 refl m.force (λ v x. record x { force = v }) refl refl

module _ {lib : Protobuf} (onward : ReadsOn lib) where
  pub ends : (levels tag : ℕ) (m : TriggerSyncRequest) → FieldEnds (read_field lib levels tag m)
  unfolding read_field
  ends levels tag m = search (field_ends, onward)
