-- ===== src/Wire.antt =====
-- typescript/src/gen: what the generated messages share: reading with a BinaryReader, writing with a
-- BinaryWriter, and the loop of `decode`. Both classes belong to the package @bufbuild/protobuf.
pub mod Laws
pub mod Fields
pub mod Feeding
pub mod Statements
pub mod Repeated
pub mod Reading
pub mod Refusing
pub mod Totality
pub mod Nested
pub mod Updates
pub mod Messages
pub mod Samples
use signet_clients.Prelude.{
  ℕ, zero, suc, ◌+◌, ◌%◌, Bool, ◌||◌, Option, none, some, List, [], ◌++◌, ltb, ◌==◌, length,
  if◌then◌else◌,
}
use signet_clients.Prelude.Int.{ℤ}
use signet_clients.Runtime.{Text, codes, JsValue, error, new_error, Outcome, resolved, rejected}

-- A BinaryReader: its position, and the bytes from there on.
pub record Reader : Type 0 where
  pub pos : ℕ
  pub rest : List ℕ

-- The package's operations. A writer's operation gives the bytes that it appends; `join` gives those
-- that `fork`, the writing of a chunk and `join` append. A double is given by its 64 bits.
pub record Protobuf : Type 0 where
  pub uint32 : Reader → Outcome (ℕ × Reader)
  pub string : Reader → Outcome (Text × Reader)
  pub bytes : Reader → Outcome (List ℕ × Reader)
  pub int32 : Reader → Outcome (ℤ × Reader)
  pub int64 : Reader → Outcome (ℤ × Reader)
  pub bool : Reader → Outcome (Bool × Reader)
  pub double : Reader → Outcome (ℕ × Reader)
  pub skip : ℕ → Reader → Outcome (Unit {0} × Reader)
  pub write_uint32 : ℕ → List ℕ
  pub write_string : Text → List ℕ
  pub write_bytes : List ℕ → List ℕ
  pub write_int32 : ℤ → Outcome (List ℕ)
  pub write_int64 : ℤ → Outcome (List ℕ)
  pub write_bool : Bool → List ℕ
  pub write_double : ℕ → List ℕ
  pub join : List ℕ → Outcome (List ℕ)
  -- What an integer's operation throws for NaN.
  pub not_a_number : JsValue

-- How a reading call ends. `spent`: the loop of `decode` has used up its fuel.
pub data Read (A : Type 0) : Type 0 where
  ok : A → Reader → Read A
  thrown : JsValue → Read A
  spent : Read A

abbrev pub Get : Type 0 → Type 0
Get A = Reader → Read A

infixl 5 ◌>>=◌
abbrev pub ◌>>=◌ : {A B : Type 0} → Get A → (A → Get B) → Get B
◌>>=◌ m f r = elim (m r) [ ok a r' ↦ f a r' | thrown e ↦ thrown e | spent ↦ spent ]

abbrev pub pure : {A : Type 0} → A → Get A
pure a r = ok a r

abbrev pub throw : {A : Type 0} → JsValue → Get A
throw e r = thrown e

-- A call of the package's reader.
abbrev pub call : {A : Type 0} → (Reader → Outcome (A × Reader)) → Get A
call m r = elim (m r) [ resolved p ↦ ok p.0 p.1 | rejected e ↦ thrown e ]

-- The `switch` of a message: the reading of the field whose tag this is, if the message has one.
abbrev pub Fields : Type 0 → Type 0
Fields M = ℕ → M → Option (Get M)

-- `if ((tag & 7) === 4 || tag === 0) break;`
unfoldable pub ends_message : ℕ → Bool
ends_message tag = tag % 8 == 4 || tag == 0

abbrev pub recursion_error : JsValue
recursion_error = error (new_error (codes "protobuf decode recursion limit exceeded"))

-- `length === undefined ? reader.len : reader.pos + length`.
unfoldable pub end_of : Option ℕ → Reader → ℕ
end_of none r = r.pos + length r.rest
end_of (some n) r = r.pos + n

module _ (lib : Protobuf) where
  open lib use {uint32, skip}

  module _ {M : Type 0} (fields : Fields M) where
    -- The body of the loop after the tag; `next` stands for the further rounds.
    abbrev pub after_tag : (M → Get M) → ℕ → M → Get M
    after_tag next tag message = elim (fields tag message) [
      | some get ↦ get >>= next
      | none ↦
          if ends_message tag then pure message else call (skip (tag % 8)) >>= λ _. next message
    ]

    -- `while (reader.pos < end)`, with fuel.
    pub decode_loop : ℕ → ℕ → M → Get M
    unfolding ends_message
    decode_loop zero end message r = if ltb r.pos end then spent else ok message r
    decode_loop (suc fuel) end message r =
        let round = (do tag ← call uint32; after_tag (λ m. decode_loop fuel end m) tag message) r in
        if ltb r.pos end then round else ok message r

  -- `decode(reader, length)`, given the message's `switch` and what createBase gives. `levels` is
  -- 100 less the depth that the reader has recorded; a nested call finds one less. Each round reads
  -- a byte or throws, so that the bytes left, and one, are fuel enough.
  unfoldable pub decode_message : {M : Type 0} → (ℕ → Fields M) → M → ℕ → Option ℕ → Get M
  unfolding decode_loop end_of
  decode_message fields base zero size r = throw recursion_error r
  decode_message fields base (suc levels) size r =
      decode_loop (fields levels) (suc (length r.rest)) (end_of size r) base r

-- `decode` of a Uint8Array.
abbrev pub from_bytes : List ℕ → Reader
from_bytes bs = record { pos = 0; rest = bs }

-- The limit on nested calls.
abbrev pub decode_levels : ℕ
decode_levels = 100
