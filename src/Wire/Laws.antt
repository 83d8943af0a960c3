-- ===== src/Wire/Laws.antt =====
-- What the generated messages rely on: the documented behaviour of a BinaryReader and a BinaryWriter.
use signet_clients.Prelude.{
  ℕ, ◌+◌, ◌^◌, ◌≤◌, ◌<◌, Bool, true, false, not, ◌&&◌, List, [], ◌∷◌, ◌++◌, leb, length, ◌≡◌,
}
use signet_clients.Prelude.Int.{ℤ, pos_part, neg_part}
use signet_clients.Runtime.{Text, JsValue, Outcome, resolved, rejected}
use signet_clients.Wire.{Reader, Protobuf}

-- No lone surrogate: `expected` is true after a high surrogate. Other texts have no coding as UTF-8.
unfoldable pub no_lone_surrogate : Bool → Text → Bool
no_lone_surrogate expected [] = not expected
no_lone_surrogate true (c ∷ s) = leb 0xdc00 c && leb c 0xdfff && no_lone_surrogate false s
no_lone_surrogate false (c ∷ s) =
    let low = no_lone_surrogate true s in
    let rest = no_lone_surrogate false s in
    elim (leb 0xd800 c && leb c 0xdbff) [
      | true ↦ low
      | false ↦ not (leb 0xdc00 c && leb c 0xdfff) && rest
    ]

abbrev pub IsText : Text → Type 0
IsText s = no_lone_surrogate false s ≡ true

abbrev pub reader_at : ℕ → List ℕ → Reader
reader_at p bs = record { pos = p; rest = bs }

-- The call reads the bytes, whatever follows them, as the value, and no byte more.
abbrev pub ReadsBack : {A : Type 0} → (Reader → Outcome (A × Reader)) → List ℕ → A → Type 0
ReadsBack read bs v =
    (p : ℕ) (more : List ℕ)
    → read (reader_at p (bs ++ more)) ≡ resolved (v, reader_at (p + length bs) more)

-- A call that succeeds does not move backwards.
abbrev pub GoesOn : {A : Type 0} → (Reader → Outcome (A × Reader)) → Type 0
GoesOn {A} read =
    (r : Reader) (v : A) (r' : Reader) → read r ≡ resolved (v, r') → length r'.rest ≤ length r.rest

abbrev pub InInt32 : ℤ → Type 0
InInt32 v = (pos_part v < 2 ^ 31) × (neg_part v ≤ 2 ^ 31)

abbrev pub InInt64 : ℤ → Type 0
InInt64 v = (pos_part v < 2 ^ 63) × (neg_part v ≤ 2 ^ 63)

-- The reader reads on: a number takes at least a byte, since it throws at the end of its bytes, and
-- no other call moves backwards.
pub record ReadsOn (lib : Protobuf) : Type 0 where
  pub uint32_advances :
      (r : Reader) (n : ℕ) (r' : Reader)
      → lib.uint32 r ≡ resolved (n, r')
      → length r'.rest < length r.rest
  pub string_goes_on : GoesOn lib.string
  pub bytes_goes_on : GoesOn lib.bytes
  pub int32_goes_on : GoesOn lib.int32
  pub int64_goes_on : GoesOn lib.int64
  pub bool_goes_on : GoesOn lib.bool
  pub double_goes_on : GoesOn lib.double
  pub skip_goes_on : (type : ℕ) → GoesOn (lib.skip type)

pub record IsLawful (lib : Protobuf) : Type 0 where
  pub uint32_back : (n : ℕ) → n < 2 ^ 32 → ReadsBack lib.uint32 (lib.write_uint32 n) n
  pub string_back : (s : Text) → IsText s → ReadsBack lib.string (lib.write_string s) s
  pub bytes_back : (bs : List ℕ) → ReadsBack lib.bytes (lib.write_bytes bs) bs
  pub bool_back : (b : Bool) → ReadsBack lib.bool (lib.write_bool b) b
  pub double_back : (d : ℕ) → d < 2 ^ 64 → ReadsBack lib.double (lib.write_double d) d
  -- An integer is written if it is in range, and the writer throws otherwise.
  pub int32_back :
      (v : ℤ) (bs : List ℕ) → lib.write_int32 v ≡ resolved bs → ReadsBack lib.int32 bs v
  pub int32_in_range : (v : ℤ) → InInt32 v → (bs : List ℕ) × (lib.write_int32 v ≡ resolved bs)
  pub int32_out_of_range :
      (v : ℤ) → (InInt32 v → ⊥) → (e : JsValue) × (lib.write_int32 v ≡ rejected e)
  pub int64_back :
      (v : ℤ) (bs : List ℕ) → lib.write_int64 v ≡ resolved bs → ReadsBack lib.int64 bs v
  pub int64_in_range : (v : ℤ) → InInt64 v → (bs : List ℕ) × (lib.write_int64 v ≡ resolved bs)
  -- A chunk's length stands before the chunk.
  pub join_back :
      (chunk bs : List ℕ)
      → lib.join chunk ≡ resolved bs
      → (size : List ℕ) × (bs ≡ size ++ chunk) × ReadsBack lib.uint32 size (length chunk)
  pub join_short :
      (chunk : List ℕ) → length chunk < 2 ^ 32 → (bs : List ℕ) × (lib.join chunk ≡ resolved bs)
  pub reads_on : ReadsOn lib
