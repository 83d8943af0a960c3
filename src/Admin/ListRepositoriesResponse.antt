-- ===== src/Admin/ListRepositoriesResponse.antt =====
-- typescript/src/gen/admin/v1/admin.ts: the message ListRepositoriesResponse.
use signet_clients.Wire.Messages.{
  ℕ, suc, Option, none, List, [], ◌∷◌, ◌++◌, map, map_option, All, ◌==◌, if◌then◌else◌, refl,
  Outcome, Protobuf, Get, Fields, decode_message, into_message, given_or, repeated_message_field,
  IsLawful, ReadsOn, Writes, put_messages-Writes, FieldEnds, field_ends, decode_message-AlwaysEnds,
}
use signet_clients.Admin.RepositoryInfo

pub record ListRepositoriesResponse : Type 0 where
  pub repositories : List RepositoryInfo.RepositoryInfo

unfoldable pub create_base : ListRepositoriesResponse
create_base = record { repositories = [] }

module _ (lib : Protobuf) where
  unfoldable pub encode : ListRepositoriesResponse → Outcome (List ℕ)
  encode message = repeated_message_field lib 10 (RepositoryInfo.encode lib) message.repositories

  unfoldable pub read_field : ℕ → Fields ListRepositoriesResponse
  read_field levels tag message =
      if tag == 10
      then into_message lib (RepositoryInfo.decode lib levels)
          (λ v. record message { repositories = message.repositories ++ v ∷ [] })
      else none

  unfoldable pub decode : ℕ → Option ℕ → Get ListRepositoriesResponse
  unfolding read_field
  decode levels size = decode_message lib read_field create_base levels size

pub record Partial : Type 0 where
  pub repositories : Option (List RepositoryInfo.Partial)

unfoldable pub from_partial : Partial → ListRepositoriesResponse
from_partial object = record {
  repositories = given_or (map_option (map RepositoryInfo.from_partial) object.repositories) [];
}

unfoldable pub create : Option Partial → ListRepositoriesResponse
unfolding from_partial
create base = from_partial (given_or base (record { repositories = none }))

-- Its texts have no lone surrogate.
abbrev pub IsValid : ListRepositoriesResponse → Type 0
IsValid m = All (RepositoryInfo.IsValid) m.repositories

module _ {lib : Protobuf} (laws : IsLawful lib) where
  pub encode-Writes :
      (levels : ℕ) (m : ListRepositoriesResponse)
      → IsValid m
      → Writes lib (read_field lib (suc levels)) (encode lib m) create_base m
  unfolding encode read_field create_base RepositoryInfo.decode
  encode-Writes levels m valid =
      put_messages-Writes laws 10 refl (RepositoryInfo.encode lib) (RepositoryInfo.read_field lib)
        RepositoryInfo.create_base levels (RepositoryInfo.encode-Writes laws levels) m.repositories
        (λ v x. record x { repositories = v }) valid refl (λ _. refl)

module _ {lib : Protobuf} (onward : ReadsOn lib) where
  pub ends :
      (levels tag : ℕ) (m : ListRepositoriesResponse) → FieldEnds (read_field lib levels tag m)
  unfolding read_field RepositoryInfo.decode
  ends levels tag m = search (
    field_ends,
    onward,
    decode_message-AlwaysEnds onward (RepositoryInfo.read_field lib) RepositoryInfo.create_base
        (RepositoryInfo.ends onward) levels,
  )
