-- ===== src/Admin/RemoveRepositoryRequest.antt =====
-- typescript/src/gen/admin/v1/admin.ts: the message RemoveRepositoryRequest.
use signet_clients.Wire.Messages.{
  ℕ, Option, none, List, [], ◌==◌, if◌then◌else◌, refl, Text, Outcome, Protobuf, Get, Fields,
  decode_message, string_field, into, given_or, IsLawful, ReadsOn, IsText, Writes,
  put_string-Writes, FieldEnds, field_ends,
}

pub record RemoveRepositoryRequest : Type 0 where
  pub id : Text

unfoldable pub create_base : RemoveRepositoryRequest
create_base = record { id = [] }

module _ (lib : Protobuf) where
  unfoldable pub encode : RemoveRepositoryRequest → Outcome (List ℕ)
  encode message = string_field lib 10 message.id

  unfoldable pub read_field : ℕ → Fields RemoveRepositoryRequest
  read_field levels tag message =
      if tag == 10 then into lib.string (λ v. record message { id = v }) else none

  unfoldable pub decode : ℕ → Option ℕ → Get RemoveRepositoryRequest
  unfolding read_field
  decode levels size = decode_message lib read_field create_base levels size

pub record Partial : Type 0 where
  pub id : Option Text

unfoldable pub from_partial : Partial → RemoveRepositoryRequest
from_partial object = record { id = given_or object.id [] }

unfoldable pub create : Option Partial → RemoveRepositoryRequest
unfolding from_partial
create base = from_partial (given_or base (record { id = none }))

-- Its texts have no lone surrogate.
abbrev pub IsValid : RemoveRepositoryRequest → Type 0
IsValid m = IsText m.id

module _ {lib : Protobuf} (laws : IsLawful lib) where
  pub encode-Writes :
      (levels : ℕ) (m : RemoveRepositoryRequest)
      → IsValid m
      → Writes lib (read_field lib levels) (encode lib m) create_base m
  unfolding encode read_field create_base
  encode-Writes levels m valid =
      put_string-Writes laws 10 refl m.id (λ v x. record x { id = v }) valid refl refl

module _ {lib : Protobuf} (onward : ReadsOn lib) where
  pub ends :
      (levels tag : ℕ) (m : RemoveRepositoryRequest) → FieldEnds (read_field lib levels tag m)
  unfolding read_field
  ends levels tag m = search (field_ends, onward)
