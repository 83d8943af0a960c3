-- ===== src/Secrets/WatchServiceBundleResponse.antt =====
-- typescript/src/gen/signet/v1/secrets.ts: the message WatchServiceBundleResponse.
use signet_clients.Wire.Messages.{
  ℕ, Option, none, List, [], ◌==◌, if◌then◌else◌, refl, ℤ, pos, Text, Outcome, Protobuf, Get,
  Fields, decode_message, ◌⊕◌, string_field, int32_field, into, given_or, IsLawful, ReadsOn, IsText,
  Writes, ◌⟫◌, put_string-Writes, put_int32-Writes, FieldEnds, field_ends,
}

pub record WatchServiceBundleResponse : Type 0 where
  pub event_type : ℤ
  pub namespace : Text
  pub service : Text

unfoldable pub create_base : WatchServiceBundleResponse
create_base = record { event_type = pos 0; namespace = []; service = [] }

module _ (lib : Protobuf) where
  unfoldable pub encode : WatchServiceBundleResponse → Outcome (List ℕ)
  encode message =
      int32_field lib 8 message.event_type
      ⊕ string_field lib 18 message.namespace
      ⊕ string_field lib 26 message.service

  unfoldable pub read_field : ℕ → Fields WatchServiceBundleResponse
  read_field levels tag message =
      if tag == 8
      then into lib.int32 (λ v. record message { event_type = v })
      else if tag == 18
      then into lib.string (λ v. record message { namespace = v })
      else if tag == 26
      then into lib.string (λ v. record message { service = v })
      else none

  unfoldable pub decode : ℕ → Option ℕ → Get WatchServiceBundleResponse
  unfolding read_field
  decode levels size = decode_message lib read_field create_base levels size

pub record Partial : Type 0 where
  pub event_type : Option ℤ
  pub namespace : Option Text
  pub service : Option Text

unfoldable pub from_partial : Partial → WatchServiceBundleResponse
from_partial object = record {
  event_type = given_or object.event_type (pos 0);
  namespace = given_or object.namespace [];
  service = given_or object.service [];
}

unfoldable pub create : Option Partial → WatchServiceBundleResponse
unfolding from_partial
create base =
    from_partial (given_or base (record { event_type = none; namespace = none; service = none }))

-- Its texts have no lone surrogate.
abbrev pub IsValid : WatchServiceBundleResponse → Type 0
IsValid m = IsText m.namespace × IsText m.service

module _ {lib : Protobuf} (laws : IsLawful lib) where
  pub encode-Writes :
      (levels : ℕ) (m : WatchServiceBundleResponse)
      → IsValid m
      → Writes lib (read_field lib levels) (encode lib m) create_base m
  unfolding encode read_field create_base
  encode-Writes levels m valid =
      put_int32-Writes laws 8 refl m.event_type (λ v x. record x { event_type = v }) refl refl
      ⟫ put_string-Writes laws 18 refl m.namespace (λ v x. record x { namespace = v }) valid.0 refl
          refl
      ⟫ put_string-Writes laws 26 refl m.service (λ v x. record x { service = v }) valid.1 refl refl

module _ {lib : Protobuf} (onward : ReadsOn lib) where
  pub ends :
      (levels tag : ℕ) (m : WatchServiceBundleResponse) → FieldEnds (read_field lib levels tag m)
  unfolding read_field
  ends levels tag m = search (field_ends, onward)
