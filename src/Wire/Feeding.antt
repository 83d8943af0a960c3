-- ===== src/Wire/Feeding.antt =====
-- typescript/src/gen: the loop of `decode` over bytes that were written field by field.
use signet_clients.Prelude.{
  ℕ, zero, suc, ◌+◌, ◌%◌, ◌^◌, false, none, ◌≤◌, ◌<◌, none, some, List, [], ◌++◌, append_assoc,
  length, length-append, lt→ltb, ◌≡◌, refl, ap, subst, ◌∙◌, arith,
}
use signet_clients.Runtime.{Outcome, resolved, rejected}
use signet_clients.Wire.{
  Protobuf, Get, Fields, ok, call, ◌>>=◌, decode_loop, after_tag, ends_message,
}
use signet_clients.Wire.Laws.{IsLawful, ReadsBack, reader_at}
use signet_clients.Wire.Fields.{◌⊕◌}

-- The call reads the bytes, whatever follows them, cs the message.
abbrev pub Gets : {M : Type 0} → Get M → List ℕ → M → Type 0
Gets get bs m =
    (p : ℕ) (more : List ℕ) → get (reader_at p (bs ++ more)) ≡ ok m (reader_at (p + length bs) more)

module _ (lib : Protobuf) {M : Type 0} (fields : Fields M) where
  -- The loop takes the bytes in, which turn the first message into the second.
  pub record Eats (bs : List ℕ) (m m' : M) : Type 0 where
    pub run :
        (fuel p end : ℕ) (more : List ℕ)
        → p + length bs ≤ end
        → length bs < fuel
        → (fuel' : ℕ) × (fuel ≤ fuel' + length bs)
          × (decode_loop lib fields fuel end m (reader_at p (bs ++ more))
              ≡ decode_loop lib fields fuel' end m' (reader_at (p + length bs) more))

  -- What the statement writes, if it does not throw, is taken in.
  pub record Writes (w : Outcome (List ℕ)) (m m' : M) : Type 0 where
    pub eats : (bs : List ℕ) → w ≡ resolved bs → Eats bs m m'

module _ {lib : Protobuf} {M : Type 0} {fields : Fields M} where
  pub Eats-nil : (m : M) → Eats lib fields [] m m
  Eats-nil m = record {
    run = λ fuel p end more h k. (
      fuel,
      omega arith,
      ap (λ q. decode_loop lib fields fuel end m (reader_at q more)) (omega arith),
    );
  }

  pub Eats-append :
      (bs cs : List ℕ) {m m' m'' : M}
      → Eats lib fields bs m m'
      → Eats lib fields cs m' m''
      → Eats lib fields (bs ++ cs) m m''
  Eats-append bs cs {m} {m'} {m''} f g = record {
    run = λ fuel p end more h k.
        let first =
          f.run fuel p end (cs ++ more) (omega (arith, length-append bs cs))
            (omega (arith, length-append bs cs)) in
        let second =
          g.run first.0 (p + length bs) end more (omega (arith, length-append bs cs))
            (omega (arith, length-append bs cs, first.1)) in
        (
          second.0,
          omega (arith, length-append bs cs, first.1, second.1),
          rw append_assoc (
              first.2
              ∙ (second.2
                  ∙ ap (λ q. decode_loop lib fields second.0 end m'' (reader_at q more))
                      (omega (arith, length-append bs cs)))),
        );
  }

  pub Writes-then :
      {w v : Outcome (List ℕ)} {m m' m'' : M}
      → Writes lib fields w m m'
      → Writes lib fields v m' m''
      → Writes lib fields (w ⊕ v) m m''
  Writes-then {w = resolved bs} {v = resolved cs} {m} {m''} f g = record {
    eats = λ ds e.
        let both = Eats-append bs cs (f.eats bs refl) (g.eats cs refl) in
        subst (λ x. Eats lib fields x m m'') (let h : bs ++ cs ≡ ds = cc in h) both;
  }
  Writes-then {w = resolved bs} {v = rejected x} f g = record { eats = λ ds e. absurd (cc) }
  Writes-then {w = rejected x} f g = record { eats = λ ds e. absurd (cc) }

-- A tag takes at least a byte.
pub tag_bytes :
    {lib : Protobuf} (laws : IsLawful lib) (tag : ℕ)
    → tag < 2 ^ 32
    → 0 < length (lib.write_uint32 tag)
tag_bytes {lib} laws tag small = omega (
  arith,
  laws.reads_on.uint32_advances _ _ _ (laws.uint32_back tag small 0 []),
  length-append (lib.write_uint32 tag) [],
)

module _ {lib : Protobuf} (laws : IsLawful lib) {M : Type 0} (fields : Fields M) where
  -- A round of the loop, on a tag and what the field's call reads.
  decode_round :
      (tag : ℕ) (bs : List ℕ) (m m' : M) (get : Get M)
      → tag < 2 ^ 32
      → fields tag m ≡ some get
      → Gets get bs m'
      → (fuel p end : ℕ) (more : List ℕ) → p < end
      → decode_loop lib fields (suc fuel) end m (reader_at p (lib.write_uint32 tag ++ bs ++ more))
        ≡ decode_loop lib fields fuel end m'
            (reader_at (p + length (lib.write_uint32 tag ++ bs)) more)
  unfolding decode_loop
  decode_round tag bs m m' get small is_field gets fuel p end more h =
      rw
        (
          lt→ltb p end h,
          append_assoc,
          ◌>>=◌,
          call,
          laws.uint32_back tag small p (bs ++ more),
          after_tag,
          is_field,
          gets (p + length (lib.write_uint32 tag)) more,
        )
        (ap (λ q. decode_loop lib fields fuel end m' (reader_at q more))
          (omega (arith, length-append (lib.write_uint32 tag) bs)))

  skip_round :
      (tag : ℕ) (bs : List ℕ) (m : M)
      → tag < 2 ^ 32
      → fields tag m ≡ none
      → ends_message tag ≡ false
      → ReadsBack (lib.skip (tag % 8)) bs tt
      → (fuel p end : ℕ) (more : List ℕ) → p < end
      → decode_loop lib fields (suc fuel) end m (reader_at p (lib.write_uint32 tag ++ bs ++ more))
        ≡ decode_loop lib fields fuel end m
            (reader_at (p + length (lib.write_uint32 tag ++ bs)) more)
  unfolding decode_loop
  skip_round tag bs m small unknown goes skips fuel p end more h =
      rw
        (
          lt→ltb p end h,
          append_assoc,
          ◌>>=◌,
          call,
          laws.uint32_back tag small p (bs ++ more),
          after_tag,
          unknown,
          goes,
          skips (p + length (lib.write_uint32 tag)) more,
        )
        (ap (λ q. decode_loop lib fields fuel end m (reader_at q more))
          (omega (arith, length-append (lib.write_uint32 tag) bs)))

module _ {lib : Protobuf} (laws : IsLawful lib) {M : Type 0} {fields : Fields M} where
  -- Bytes that a round takes in, of which some are the tag's.
  Eats-round :
      (tag : ℕ) (bs : List ℕ) (m m' : M)
      → tag < 2 ^ 32
      → ((fuel p end : ℕ) (more : List ℕ)
          → p < end
          → decode_loop lib fields
              (suc fuel)
              end
              m
              (reader_at p (lib.write_uint32 tag ++ bs ++ more))
            ≡ decode_loop lib fields fuel end m'
                (reader_at (p + length (lib.write_uint32 tag ++ bs)) more))
      → Eats lib fields (lib.write_uint32 tag ++ bs) m m'
  Eats-round tag bs m m' small round = record { run = go }
    where
      go :
          (fuel p end : ℕ) (more : List ℕ)
          → p + length (lib.write_uint32 tag ++ bs) ≤ end
          → length (lib.write_uint32 tag ++ bs) < fuel
          → (fuel' : ℕ) × (fuel ≤ fuel' + length (lib.write_uint32 tag ++ bs))
            × (decode_loop lib fields fuel end m (reader_at p (lib.write_uint32 tag ++ bs ++ more))
                ≡ decode_loop lib fields fuel' end m'
                    (reader_at (p + length (lib.write_uint32 tag ++ bs)) more))
      go zero p end more h k = absurd (omega arith)
      go (suc fuel) p end more h k =
          let some_byte = tag_bytes laws tag small in
          let longer = length-append (lib.write_uint32 tag) bs in
          (fuel, omega arith, round fuel p end more (omega arith))

  pub Eats-field :
      (tag : ℕ) (bs : List ℕ) {m m' : M} (get : Get M)
      → tag < 2 ^ 32
      → fields tag m ≡ some get
      → Gets get bs m'
      → Eats lib fields (lib.write_uint32 tag ++ bs) m m'
  Eats-field tag bs {m} {m'} get small is_field gets =
      Eats-round tag bs m m' small (decode_round laws fields tag bs m m' get small is_field gets)

  -- A field that the message does not have, and that does not end it, is skipped.
  pub Eats-skipped :
      (tag : ℕ) (bs : List ℕ) (m : M)
      → tag < 2 ^ 32
      → fields tag m ≡ none
      → ends_message tag ≡ false
      → ReadsBack (lib.skip (tag % 8)) bs tt
      → Eats lib fields (lib.write_uint32 tag ++ bs) m m
  Eats-skipped tag bs m small unknown goes skips =
      Eats-round tag bs m m small (skip_round laws fields tag bs m small unknown goes skips)
