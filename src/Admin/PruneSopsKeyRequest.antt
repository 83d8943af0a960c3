-- ===== src/Admin/PruneSopsKeyRequest.antt =====
-- typescript/src/gen/admin/v1/admin.ts: the message PruneSOPSKeyRequest.
use signet_clients.Wire.Messages.{
  ℕ, Option, none, List, [], ◌==◌, if◌then◌else◌, refl, Text, Outcome, Protobuf, Get, Fields,
  decode_message, string_field, into, given_or, IsLawful, ReadsOn, IsText, Writes,
  put_string-Writes, FieldEnds, field_ends,
}

pub record PruneSopsKeyRequest : Type 0 where
  pub public_key : Text

unfoldable pub create_base : PruneSopsKeyRequest
create_base = record { public_key = [] }

module _ (lib : Protobuf) where
  unfoldable pub encode : PruneSopsKeyRequest → Outcome (List ℕ)
  encode message = string_field lib 10 message.public_key

  unfoldable pub read_field : ℕ → Fields PruneSopsKeyRequest
  read_field levels tag message =
      if tag == 10 then into lib.string (λ v. record message { public_key = v }) else none

  unfoldable pub decode : ℕ → Option ℕ → Get PruneSopsKeyRequest
  unfolding read_field
  decode levels size = decode_message lib read_field create_base levels size

pub record Partial : Type 0 where
  pub public_key : Option Text

unfoldable pub from_partial : Partial → PruneSopsKeyRequest
from_partial object = record { public_key = given_or object.public_key [] }

unfoldable pub create : Option Partial → PruneSopsKeyRequest
unfolding from_partial
create base = from_partial (given_or base (record { public_key = none }))

-- Its texts have no lone surrogate.
abbrev pub IsValid : PruneSopsKeyRequest → Type 0
IsValid m = IsText m.public_key

module _ {lib : Protobuf} (laws : IsLawful lib) where
  pub encode-Writes :
      (levels : ℕ) (m : PruneSopsKeyRequest)
      → IsValid m
      → Writes lib (read_field lib levels) (encode lib m) create_base m
  unfolding encode read_field create_base
  encode-Writes levels m valid =
      put_string-Writes laws 10 refl m.public_key (λ v x. record x { public_key = v }) valid refl
        refl

module _ {lib : Protobuf} (onward : ReadsOn lib) where
  pub ends : (levels tag : ℕ) (m : PruneSopsKeyRequest) → FieldEnds (read_field lib levels tag m)
  unfolding read_field
  ends levels tag m = search (field_ends, onward)
