-- ===== src/Admin/SyncBundleChunk.antt =====
-- typescript/src/gen/admin/v1/admin.ts: the message SyncBundleChunk.
use signet_clients.Wire.Messages.{
  ℕ, suc, Option, none, some, List, map_option, AllOption, ◌==◌, if◌then◌else◌, refl, Outcome,
  Protobuf, Get, Fields, decode_message, ◌⊕◌, message_field, into, into_message, given_or,
  optional_bytes_field, IsLawful, ReadsOn, Writes, ◌⟫◌, put_optional_bytes-Writes,
  put_message-Writes, FieldEnds, field_ends, decode_message-AlwaysEnds,
}
use signet_clients.Admin.SyncBundleHeader

pub record SyncBundleChunk : Type 0 where
  pub header : Option SyncBundleHeader.SyncBundleHeader
  pub data_bytes : Option (List ℕ)

unfoldable pub create_base : SyncBundleChunk
create_base = record { header = none; data_bytes = none }

module _ (lib : Protobuf) where
  unfoldable pub encode : SyncBundleChunk → Outcome (List ℕ)
  encode message =
      message_field lib 10 (SyncBundleHeader.encode lib) message.header
      ⊕ optional_bytes_field lib 18 message.data_bytes

  unfoldable pub read_field : ℕ → Fields SyncBundleChunk
  read_field levels tag message =
      if tag == 10
      then into_message lib (SyncBundleHeader.decode lib levels)
          (λ v. record message { header = some v })
      else if tag == 18
      then into lib.bytes (λ v. record message { data_bytes = some v })
      else none

  unfoldable pub decode : ℕ → Option ℕ → Get SyncBundleChunk
  unfolding read_field
  decode levels size = decode_message lib read_field create_base levels size

pub record Partial : Type 0 where
  pub header : Option SyncBundleHeader.Partial
  pub data_bytes : Option (List ℕ)

unfoldable pub from_partial : Partial → SyncBundleChunk
from_partial object = record {
  header = map_option SyncBundleHeader.from_partial object.header;
  data_bytes = object.data_bytes;
}

unfoldable pub create : Option Partial → SyncBundleChunk
unfolding from_partial
create base = from_partial (given_or base (record { header = none; data_bytes = none }))

-- Its texts have no lone surrogate.
abbrev pub IsValid : SyncBundleChunk → Type 0
IsValid m = AllOption SyncBundleHeader.IsValid m.header

module _ {lib : Protobuf} (laws : IsLawful lib) where
  pub encode-Writes :
      (levels : ℕ) (m : SyncBundleChunk)
      → IsValid m
      → Writes lib (read_field lib (suc levels)) (encode lib m) create_base m
  unfolding encode read_field create_base SyncBundleHeader.decode
  encode-Writes levels m valid =
      put_message-Writes laws 10 refl (SyncBundleHeader.encode lib)
        (SyncBundleHeader.read_field lib) SyncBundleHeader.create_base levels
        (SyncBundleHeader.encode-Writes laws levels) m.header (λ v x. record x { header = v }) valid
        refl refl
      ⟫ put_optional_bytes-Writes laws 18 refl m.data_bytes (λ v x. record x { data_bytes = v })
          refl refl

module _ {lib : Protobuf} (onward : ReadsOn lib) where
  pub ends : (levels tag : ℕ) (m : SyncBundleChunk) → FieldEnds (read_field lib levels tag m)
  unfolding read_field SyncBundleHeader.decode
  ends levels tag m = search (
    field_ends,
    onward,
    decode_message-AlwaysEnds onward (SyncBundleHeader.read_field lib) SyncBundleHeader.create_base
        (SyncBundleHeader.ends onward) levels,
  )
