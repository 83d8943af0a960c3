-- ===== src/Secrets/WatchServiceConfigRequest.antt =====
-- typescript/src/gen/signet/v1/secrets.ts: the message WatchServiceConfigRequest.
use signet_clients.Wire.Messages.{
  ℕ, Option, none, List, [], ◌==◌, if◌then◌else◌, refl, Text, Outcome, Protobuf, Get, Fields,
  decode_message, ◌⊕◌, string_field, into, given_or, IsLawful, ReadsOn, IsText, Writes, ◌⟫◌,
  put_string-Writes, FieldEnds, field_ends,
}

pub record WatchServiceConfigRequest : Type 0 where
  pub namespace : Text
  pub service : Text

unfoldable pub create_base : WatchServiceConfigRequest
create_base = record { namespace = []; service = [] }

module _ (lib : Protobuf) where
  unfoldable pub encode : WatchServiceConfigRequest → Outcome (List ℕ)
  encode message = string_field lib 10 message.namespace ⊕ string_field lib 18 message.service

  unfoldable pub read_field : ℕ → Fields WatchServiceConfigRequest
  read_field levels tag message =
      if tag == 10
      then into lib.string (λ v. record message { namespace = v })
      else if tag == 18
      then into lib.string (λ v. record message { service = v })
      else none

  unfoldable pub decode : ℕ → Option ℕ → Get WatchServiceConfigRequest
  unfolding read_field
  decode levels size = decode_message lib read_field create_base levels size

pub record Partial : Type 0 where
  pub namespace : Option Text
  pub service : Option Text

unfoldable pub from_partial : Partial → WatchServiceConfigRequest
from_partial object = record {
  namespace = given_or object.namespace [];
  service = given_or object.service [];
}

unfoldable pub create : Option Partial → WatchServiceConfigRequest
unfolding from_partial
create base = from_partial (given_or base (record { namespace = none; service = none }))

-- Its texts have no lone surrogate.
abbrev pub IsValid : WatchServiceConfigRequest → Type 0
IsValid m = IsText m.namespace × IsText m.service

module _ {lib : Protobuf} (laws : IsLawful lib) where
  pub encode-Writes :
      (levels : ℕ) (m : WatchServiceConfigRequest)
      → IsValid m
      → Writes lib (read_field lib levels) (encode lib m) create_base m
  unfolding encode read_field create_base
  encode-Writes levels m valid =
      put_string-Writes laws 10 refl m.namespace (λ v x. record x { namespace = v }) valid.0 refl
        refl
      ⟫ put_string-Writes laws 18 refl m.service (λ v x. record x { service = v }) valid.1 refl refl

module _ {lib : Protobuf} (onward : ReadsOn lib) where
  pub ends :
      (levels tag : ℕ) (m : WatchServiceConfigRequest) → FieldEnds (read_field lib levels tag m)
  unfolding read_field
  ends levels tag m = search (field_ends, onward)
