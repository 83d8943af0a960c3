-- ===== src/Admin/RemoveRepositoryResponse.antt =====
-- typescript/src/gen/admin/v1/admin.ts: the message RemoveRepositoryResponse.
use signet_clients.Wire.Messages.{
  ℕ, Option, none, List, [], ◌==◌, if◌then◌else◌, refl, Text, Outcome, Protobuf, Get, Fields,
  decode_message, string_field, into, given_or, IsLawful, ReadsOn, IsText, Writes,
  put_string-Writes, FieldEnds, field_ends,
}

pub record RemoveRepositoryResponse : Type 0 where
  pub message : Text

unfoldable pub create_base : RemoveRepositoryResponse
create_base = record { message = [] }

module _ (lib : Protobuf) where
  unfoldable pub encode : RemoveRepositoryResponse → Outcome (List ℕ)
  encode message = string_field lib 10 message.message

  unfoldable pub read_field : ℕ → Fields RemoveRepositoryResponse
  read_field levels tag message =
      if tag == 10 then into lib.string (λ v. record message { message = v }) else none

  unfoldable pub decode : ℕ → Option ℕ → Get RemoveRepositoryResponse
  unfolding read_field
  decode levels size = decode_message lib read_field create_base levels size

pub record Partial : Type 0 where
  pub message : Option Text

unfoldable pub from_partial : Partial → RemoveRepositoryResponse
from_partial object = record { message = given_or object.message [] }

unfoldable pub create : Option Partial → RemoveRepositoryResponse
unfolding from_partial
create base = from_partial (given_or base (record { message = none }))

-- Its texts have no lone surrogate.
abbrev pub IsValid : RemoveRepositoryResponse → Type 0
IsValid m = IsText m.message

module _ {lib : Protobuf} (laws : IsLawful lib) where
  pub encode-Writes :
      (levels : ℕ) (m : RemoveRepositoryResponse)
      → IsValid m
      → Writes lib (read_field lib levels) (encode lib m) create_base m
  unfolding encode read_field create_base
  encode-Writes levels m valid =
      put_string-Writes laws 10 refl m.message (λ v x. record x { message = v }) valid refl refl

module _ {lib : Protobuf} (onward : ReadsOn lib) where
  pub ends :
      (levels tag : ℕ) (m : RemoveRepositoryResponse) → FieldEnds (read_field lib levels tag m)
  unfolding read_field
  ends levels tag m = search (field_ends, onward)
