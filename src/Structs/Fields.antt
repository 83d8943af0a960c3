-- ===== src/Structs/Fields.antt =====
-- typescript/src/gen: the fields of the messages that hold documents.
use signet_clients.Prelude.{ℕ, ◌≤◌, ◌^◌, true, Option, none, some, ltb, ◌≡◌, subst}
use signet_clients.Wire.{Protobuf, Fields}
use signet_clients.Wire.Fields.{message_field, into_message}
use signet_clients.Wire.Laws.{IsLawful}
use signet_clients.Wire.Feeding.{Writes}
use signet_clients.Wire.Updates.{started}
use signet_clients.Wire.Statements.{empty-Writes, message-Writes, one_message-Writes}
use signet_clients.Structs.{Any, undefined, Entries, encode_content, encode_struct, content_field}
use signet_clients.Structs.Decoding.{decode_content, decode_struct, depth, depth_struct}
use signet_clients.Structs.Wrapping.{IsPlain, IsPlainStruct}
use signet_clients.Structs.Trips.{reads_at}

-- The document is plain, and not nested more deeply than the levels allow.
abbrev pub CanReturn : ℕ → Any → Type 0
CanReturn levels v = IsPlain v × (depth v ≤ levels)

abbrev pub CanReturnOption : ℕ → Option Entries → Type 0
CanReturnOption levels none = Unit
CanReturnOption levels (some es) = IsPlainStruct es × (depth_struct es ≤ levels)

module _ {lib : Protobuf} (laws : IsLawful lib) where
  pub put_struct-Writes :
      (levels tag : ℕ) {M : Type 0} {fields : Fields M} {m : M}
      → ltb tag (2 ^ 32) ≡ true
      → (o : Option Entries) (up : Option Entries → M → M) → CanReturnOption levels o
      → up none m ≡ m
      → fields tag m ≡ into_message lib (decode_struct lib levels) (λ es. up (some es) m)
      → Writes lib fields (message_field lib tag (encode_struct lib) o) m (up o m)
  unfolding decode_struct
  put_struct-Writes levels tag {m} small o up returns e = started tag e (
      message-Writes laws tag small (encode_struct lib) (decode_struct lib levels) o (λ v. up v m)
        (λ es bs e.
          let (plain, deep) = subst (CanReturnOption levels) e returns in
          (reads_at laws levels).struct es bs plain deep))

  content-Writes :
      (levels tag : ℕ) {M : Type 0} {fields : Fields M}
      → ltb tag (2 ^ 32) ≡ true
      → (v : Any) (set : Any → M) → CanReturn levels v
      → fields tag (set undefined) ≡ into_message lib (decode_content lib levels) set
      → Writes lib fields (content_field lib tag v) (set undefined) (set v)
  unfolding decode_content content_field message_field
  content-Writes levels tag small undefined set returns h = empty-Writes (set undefined)
  content-Writes levels tag small v set returns h =
      one_message-Writes laws tag small (encode_content lib) (decode_content lib levels) v
        (set undefined) set (λ bs. (reads_at laws levels).content v bs returns.0 returns.1) h

  pub put_content-Writes :
      (levels tag : ℕ) {M : Type 0} {fields : Fields M} {m : M}
      → ltb tag (2 ^ 32) ≡ true
      → (v : Any) (up : Any → M → M) → CanReturn levels v
      → up undefined m ≡ m
      → fields tag m ≡ into_message lib (decode_content lib levels) (λ v. up v m)
      → Writes lib fields (content_field lib tag v) m (up v m)
  put_content-Writes levels tag {m} small v up returns e =
      started tag e (content-Writes levels tag small v (λ v. up v m) returns)
