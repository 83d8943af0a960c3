-- ===== src/Secrets/AcquireRestartLockRequest.antt =====
-- typescript/src/gen/signet/v1/secrets.ts: the message AcquireRestartLockRequest.
use signet_clients.Wire.Messages.{
  ℕ, Bool, false, Option, none, List, [], ◌==◌, if◌then◌else◌, refl, ℤ, pos, Text, Outcome,
  Protobuf, Get, Fields, decode_message, ◌⊕◌, string_field, int32_field, bool_field, into, given_or,
  IsLawful, ReadsOn, IsText, Writes, ◌⟫◌, put_string-Writes, put_int32-Writes, put_bool-Writes,
  FieldEnds, field_ends,
}

pub record AcquireRestartLockRequest : Type 0 where
  pub namespace : Text
  pub service : Text
  pub ttl_seconds : ℤ
  pub heartbeat : Bool

unfoldable pub create_base : AcquireRestartLockRequest
create_base = record { namespace = []; service = []; ttl_seconds = pos 0; heartbeat = false }

module _ (lib : Protobuf) where
  unfoldable pub encode : AcquireRestartLockRequest → Outcome (List ℕ)
  encode message =
      string_field lib 10 message.namespace
      ⊕ string_field lib 18 message.service
      ⊕ int32_field lib 24 message.ttl_seconds
      ⊕ bool_field lib 32 message.heartbeat

  unfoldable pub read_field : ℕ → Fields AcquireRestartLockRequest
  read_field levels tag message =
      if tag == 10
      then into lib.string (λ v. record message { namespace = v })
      else if tag == 18
      then into lib.string (λ v. record message { service = v })
      else if tag == 24
      then into lib.int32 (λ v. record message { ttl_seconds = v })
      else if tag == 32
      then into lib.bool (λ v. record message { heartbeat = v })
      else none

  unfoldable pub decode : ℕ → Option ℕ → Get AcquireRestartLockRequest
  unfolding read_field
  decode levels size = decode_message lib read_field create_base levels size

pub record Partial : Type 0 where
  pub namespace : Option Text
  pub service : Option Text
  pub ttl_seconds : Option ℤ
  pub heartbeat : Option Bool

unfoldable pub from_partial : Partial → AcquireRestartLockRequest
from_partial object = record {
  namespace = given_or object.namespace [];
  service = given_or object.service [];
  ttl_seconds = given_or object.ttl_seconds (pos 0);
  heartbeat = given_or object.heartbeat false;
}

unfoldable pub create : Option Partial → AcquireRestartLockRequest
unfolding from_partial
create base = from_partial (
    given_or base
      (record { namespace = none; service = none; ttl_seconds = none; heartbeat = none }))

-- Its texts have no lone surrogate.
abbrev pub IsValid : AcquireRestartLockRequest → Type 0
IsValid m = IsText m.namespace × IsText m.service

module _ {lib : Protobuf} (laws : IsLawful lib) where
  pub encode-Writes :
      (levels : ℕ) (m : AcquireRestartLockRequest)
      → IsValid m
      → Writes lib (read_field lib levels) (encode lib m) create_base m
  unfolding encode read_field create_base
  encode-Writes levels m valid =
      put_string-Writes laws 10 refl m.namespace (λ v x. record x { namespace = v }) valid.0 refl
        refl
      ⟫ put_string-Writes laws 18 refl m.service (λ v x. record x { service = v }) valid.1 refl refl
      ⟫ put_int32-Writes laws 24 refl m.ttl_seconds (λ v x. record x { ttl_seconds = v }) refl refl
      ⟫ put_bool-Writes laws 32 refl m.heartbeat (λ v x. record x { heartbeat = v }) refl refl

module _ {lib : Protobuf} (onward : ReadsOn lib) where
  pub ends :
      (levels tag : ℕ) (m : AcquireRestartLockRequest) → FieldEnds (read_field lib levels tag m)
  unfolding read_field
  ends levels tag m = search (field_ends, onward)
