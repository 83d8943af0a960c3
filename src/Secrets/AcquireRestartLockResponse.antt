-- ===== src/Secrets/AcquireRestartLockResponse.antt =====
-- typescript/src/gen/signet/v1/secrets.ts: the message AcquireRestartLockResponse.
use signet_clients.Wire.Messages.{
  ℕ, suc, Option, none, some, List, [], ◌==◌, if◌then◌else◌, refl, ℤ, pos, Text, Outcome, Protobuf,
  Get, Fields, decode_message, ◌⊕◌, string_field, int32_field, message_field, into, into_message,
  given_or, IsLawful, ReadsOn, IsText, Writes, ◌⟫◌, put_string-Writes, put_int32-Writes, FieldEnds,
  field_ends,
}
use signet_clients.Timestamp.{Date, encode_date, decode_date}
use signet_clients.Timestamp.Dates.{IsExact}
use signet_clients.Timestamp.Trips.{IsDateOption, put_date-Writes, decode_date-AlwaysEnds}

pub record AcquireRestartLockResponse : Type 0 where
  pub message_type : ℤ
  pub position : ℤ
  pub token : Text
  pub expires_at : Option Date

unfoldable pub create_base : AcquireRestartLockResponse
create_base = record { message_type = pos 0; position = pos 0; token = []; expires_at = none }

module _ (lib : Protobuf) where
  unfoldable pub encode : AcquireRestartLockResponse → Outcome (List ℕ)
  encode message =
      int32_field lib 8 message.message_type
      ⊕ int32_field lib 16 message.position
      ⊕ string_field lib 26 message.token
      ⊕ message_field lib 34 (encode_date lib) message.expires_at

module _ (lib : Protobuf) (millis_sum : ℤ → ℤ → ℤ) where
  unfoldable pub read_field : ℕ → Fields AcquireRestartLockResponse
  read_field levels tag message =
      if tag == 8
      then into lib.int32 (λ v. record message { message_type = v })
      else if tag == 16
      then into lib.int32 (λ v. record message { position = v })
      else if tag == 26
      then into lib.string (λ v. record message { token = v })
      else if tag == 34
      then into_message lib (decode_date lib millis_sum levels)
          (λ v. record message { expires_at = some v })
      else none

  unfoldable pub decode : ℕ → Option ℕ → Get AcquireRestartLockResponse
  unfolding read_field
  decode levels size = decode_message lib read_field create_base levels size

pub record Partial : Type 0 where
  pub message_type : Option ℤ
  pub position : Option ℤ
  pub token : Option Text
  pub expires_at : Option Date

unfoldable pub from_partial : Partial → AcquireRestartLockResponse
from_partial object = record {
  message_type = given_or object.message_type (pos 0);
  position = given_or object.position (pos 0);
  token = given_or object.token [];
  expires_at = object.expires_at;
}

unfoldable pub create : Option Partial → AcquireRestartLockResponse
unfolding from_partial
create base = from_partial (
    given_or base
      (record { message_type = none; position = none; token = none; expires_at = none }))

-- Its texts have no lone surrogate and its date, if it has one, is valid.
abbrev pub IsValid : AcquireRestartLockResponse → Type 0
IsValid m = IsText m.token × IsDateOption m.expires_at

module _ {lib : Protobuf} (laws : IsLawful lib) where
  pub encode-Writes :
      {millis_sum : ℤ → ℤ → ℤ} (exact : IsExact millis_sum) (levels : ℕ)
      (m : AcquireRestartLockResponse)
      → IsValid m
      → Writes lib (read_field lib millis_sum (suc levels)) (encode lib m) create_base m
  unfolding encode read_field create_base
  encode-Writes exact levels m valid =
      put_int32-Writes laws 8 refl m.message_type (λ v x. record x { message_type = v }) refl refl
      ⟫ put_int32-Writes laws 16 refl m.position (λ v x. record x { position = v }) refl refl
      ⟫ put_string-Writes laws 26 refl m.token (λ v x. record x { token = v }) valid.0 refl refl
      ⟫ put_date-Writes laws exact levels 34 refl m.expires_at (λ v x. record x { expires_at = v })
          valid.1 refl refl

module _ {lib : Protobuf} (onward : ReadsOn lib) where
  pub ends :
      (millis_sum : ℤ → ℤ → ℤ) (levels tag : ℕ) (m : AcquireRestartLockResponse)
      → FieldEnds (read_field lib millis_sum levels tag m)
  unfolding read_field
  ends millis_sum levels tag m =
      search (field_ends, onward, decode_date-AlwaysEnds onward millis_sum levels)
