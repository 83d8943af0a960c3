-- ===== src/Admin/RegisterRepositoryResponse.antt =====
-- typescript/src/gen/admin/v1/admin.ts: the message RegisterRepositoryResponse.
use signet_clients.Wire.Messages.{
  ℕ, Option, none, List, [], ◌==◌, if◌then◌else◌, refl, Text, Outcome, Protobuf, Get, Fields,
  decode_message, ◌⊕◌, string_field, into, given_or, IsLawful, ReadsOn, IsText, Writes, ◌⟫◌,
  put_string-Writes, FieldEnds, field_ends,
}

pub record RegisterRepositoryResponse : Type 0 where
  pub id : Text
  pub webhook_url : Text
  pub webhook_secret : Text

unfoldable pub create_base : RegisterRepositoryResponse
create_base = record { id = []; webhook_url = []; webhook_secret = [] }

module _ (lib : Protobuf) where
  unfoldable pub encode : RegisterRepositoryResponse → Outcome (List ℕ)
  encode message =
      string_field lib 10 message.id
      ⊕ string_field lib 18 message.webhook_url
      ⊕ string_field lib 26 message.webhook_secret

  unfoldable pub read_field : ℕ → Fields RegisterRepositoryResponse
  read_field levels tag message =
      if tag == 10
      then into lib.string (λ v. record message { id = v })
      else if tag == 18
      then into lib.string (λ v. record message { webhook_url = v })
      else if tag == 26
      then into lib.string (λ v. record message { webhook_secret = v })
      else none

  unfoldable pub decode : ℕ → Option ℕ → Get RegisterRepositoryResponse
  unfolding read_field
  decode levels size = decode_message lib read_field create_base levels size

pub record Partial : Type 0 where
  pub id : Option Text
  pub webhook_url : Option Text
  pub webhook_secret : Option Text

unfoldable pub from_partial : Partial → RegisterRepositoryResponse
from_partial object = record {
  id = given_or object.id [];
  webhook_url = given_or object.webhook_url [];
  webhook_secret = given_or object.webhook_secret [];
}

unfoldable pub create : Option Partial → RegisterRepositoryResponse
unfolding from_partial
create base =
    from_partial (given_or base (record { id = none; webhook_url = none; webhook_secret = none }))

-- Its texts have no lone surrogate.
abbrev pub IsValid : RegisterRepositoryResponse → Type 0
IsValid m = IsText m.id × IsText m.webhook_url × IsText m.webhook_secret

module _ {lib : Protobuf} (laws : IsLawful lib) where
  pub encode-Writes :
      (levels : ℕ) (m : RegisterRepositoryResponse)
      → IsValid m
      → Writes lib (read_field lib levels) (encode lib m) create_base m
  unfolding encode read_field create_base
  encode-Writes levels m valid =
      put_string-Writes laws 10 refl m.id (λ v x. record x { id = v }) valid.0 refl refl
      ⟫ put_string-Writes laws 18 refl m.webhook_url (λ v x. record x { webhook_url = v }) valid.1
          refl refl
      ⟫ put_string-Writes laws 26 refl m.webhook_secret (λ v x. record x { webhook_secret = v })
          valid.2 refl refl

module _ {lib : Protobuf} (onward : ReadsOn lib) where
  pub ends :
      (levels tag : ℕ) (m : RegisterRepositoryResponse) → FieldEnds (read_field lib levels tag m)
  unfolding read_field
  ends levels tag m = search (field_ends, onward)
