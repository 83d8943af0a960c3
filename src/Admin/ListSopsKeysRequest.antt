-- ===== src/Admin/ListSopsKeysRequest.antt =====
-- typescript/src/gen/admin/v1/admin.ts: the message ListSOPSKeysRequest.
use signet_clients.Wire.Messages.{
  ℕ, Option, none, List, [], Outcome, resolved, Protobuf, Get, Fields, decode_message, given_or,
  IsLawful, ReadsOn, Writes, empty-Writes, FieldEnds,
}

pub record ListSopsKeysRequest : Type 0 where

unfoldable pub create_base : ListSopsKeysRequest
create_base = record {}

module _ (lib : Protobuf) where
  unfoldable pub encode : ListSopsKeysRequest → Outcome (List ℕ)
  encode message = resolved []

  unfoldable pub read_field : ℕ → Fields ListSopsKeysRequest
  read_field levels tag message = none

  unfoldable pub decode : ℕ → Option ℕ → Get ListSopsKeysRequest
  unfolding read_field
  decode levels size = decode_message lib read_field create_base levels size

pub record Partial : Type 0 where

unfoldable pub from_partial : Partial → ListSopsKeysRequest
from_partial object = record {}

unfoldable pub create : Option Partial → ListSopsKeysRequest
unfolding from_partial
create base = from_partial (given_or base (record {}))

-- Nothing is asked of the message.
abbrev pub IsValid : ListSopsKeysRequest → Type 0
IsValid m = Unit {0}

module _ {lib : Protobuf} (laws : IsLawful lib) where
  pub encode-Writes :
      (levels : ℕ) (m : ListSopsKeysRequest)
      → IsValid m
      → Writes lib (read_field lib levels) (encode lib m) create_base m
  unfolding encode read_field create_base
  encode-Writes levels m valid = empty-Writes m

module _ {lib : Protobuf} (onward : ReadsOn lib) where
  pub ends : (levels tag : ℕ) (m : ListSopsKeysRequest) → FieldEnds (read_field lib levels tag m)
  unfolding read_field
  ends levels tag m = tt
