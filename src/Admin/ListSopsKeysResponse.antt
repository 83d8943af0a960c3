-- ===== src/Admin/ListSopsKeysResponse.antt =====
-- typescript/src/gen/admin/v1/admin.ts: the message ListSOPSKeysResponse.
use signet_clients.Wire.Messages.{
  ℕ, suc, Option, none, List, [], ◌∷◌, ◌++◌, map, map_option, All, ◌==◌, if◌then◌else◌, refl,
  Outcome, Protobuf, Get, Fields, decode_message, into_message, given_or, repeated_message_field,
  IsLawful, ReadsOn, Writes, put_messages-Writes, FieldEnds, field_ends, decode_message-AlwaysEnds,
}
use signet_clients.Admin.SopsKeyInfo

pub record ListSopsKeysResponse : Type 0 where
  pub keys : List SopsKeyInfo.SopsKeyInfo

unfoldable pub create_base : ListSopsKeysResponse
create_base = record { keys = [] }

module _ (lib : Protobuf) where
  unfoldable pub encode : ListSopsKeysResponse → Outcome (List ℕ)
  encode message = repeated_message_field lib 10 (SopsKeyInfo.encode lib) message.keys

  unfoldable pub read_field : ℕ → Fields ListSopsKeysResponse
  read_field levels tag message =
      if tag == 10
      then into_message lib (SopsKeyInfo.decode lib levels)
          (λ v. record message { keys = message.keys ++ v ∷ [] })
      else none

  unfoldable pub decode : ℕ → Option ℕ → Get ListSopsKeysResponse
  unfolding read_field
  decode levels size = decode_message lib read_field create_base levels size

pub record Partial : Type 0 where
  pub keys : Option (List SopsKeyInfo.Partial)

unfoldable pub from_partial : Partial → ListSopsKeysResponse
from_partial object = record {
  keys = given_or (map_option (map SopsKeyInfo.from_partial) object.keys) [];
}

unfoldable pub create : Option Partial → ListSopsKeysResponse
unfolding from_partial
create base = from_partial (given_or base (record { keys = none }))

-- Its texts have no lone surrogate.
abbrev pub IsValid : ListSopsKeysResponse → Type 0
IsValid m = All (SopsKeyInfo.IsValid) m.keys

module _ {lib : Protobuf} (laws : IsLawful lib) where
  pub encode-Writes :
      (levels : ℕ) (m : ListSopsKeysResponse)
      → IsValid m
      → Writes lib (read_field lib (suc levels)) (encode lib m) create_base m
  unfolding encode read_field create_base SopsKeyInfo.decode
  encode-Writes levels m valid =
      put_messages-Writes laws 10 refl (SopsKeyInfo.encode lib) (SopsKeyInfo.read_field lib)
        SopsKeyInfo.create_base levels (SopsKeyInfo.encode-Writes laws levels) m.keys
        (λ v x. record x { keys = v }) valid refl (λ _. refl)

module _ {lib : Protobuf} (onward : ReadsOn lib) where
  pub ends : (levels tag : ℕ) (m : ListSopsKeysResponse) → FieldEnds (read_field lib levels tag m)
  unfolding read_field SopsKeyInfo.decode
  ends levels tag m = search (
    field_ends,
    onward,
    decode_message-AlwaysEnds onward (SopsKeyInfo.read_field lib) SopsKeyInfo.create_base
        (SopsKeyInfo.ends onward) levels,
  )
