-- ===== src/Wire/Refusing.antt =====
-- typescript/src/gen: the loop of `decode` over bytes that were written field by field, where a
-- nested call throws.
use signet_clients.Prelude.{
  ℕ, zero, suc, ◌+◌, ◌^◌, ◌≤◌, ◌<◌, true, Option, some, List, ◌++◌, append_assoc, length,
  length-append, lt→ltb, ltb, ltb→lt, ◌≡◌, refl, sym, subst, ◌∙◌, arith,
}
use signet_clients.Runtime.{JsValue, Outcome, resolved, rejected}
use signet_clients.Wire.{
  Protobuf, Get, Fields, thrown, call, ◌>>=◌, decode_loop, after_tag, decode_message,
}
use signet_clients.Wire.Laws.{IsLawful, reader_at}
use signet_clients.Wire.Fields.{◌⊕◌, message_field, into_message}
use signet_clients.Wire.Feeding.{Writes, tag_bytes}
use signet_clients.Wire.Statements.{joined_cases}

-- The call throws on the bytes, whatever follows them.
abbrev pub Refuses : {M : Type 0} → Get M → List ℕ → JsValue → Type 0
Refuses get bs e = (p : ℕ) (more : List ℕ) → get (reader_at p (bs ++ more)) ≡ thrown e

-- The loop throws on what the statement writes, if that does not throw.
pub record LoopRefuses (lib : Protobuf) {M : Type 0} (fields : Fields M) (e : JsValue)
    (w : Outcome (List ℕ)) (m : M) : Type 0 where
  pub refuses :
      (bs : List ℕ)
      → w ≡ resolved bs
      → (fuel p end : ℕ) (more : List ℕ) → p + length bs ≤ end
      → length bs < fuel
      → decode_loop lib fields fuel end m (reader_at p (bs ++ more)) ≡ thrown e

module _ {lib : Protobuf} {M : Type 0} {fields : Fields M} {e : JsValue} where
  -- What comes later is not reached.
  pub LoopRefuses-first :
      {w : Outcome (List ℕ)} (v : Outcome (List ℕ)) {m : M}
      → LoopRefuses lib fields e w m
      → LoopRefuses lib fields e (w ⊕ v) m
  LoopRefuses-first {w = resolved bs} (resolved cs) {m} first = record {
    refuses = λ ds k fuel p end more h enough.
        let parts : ds ≡ bs ++ cs = cc in
        let size : length ds ≡ length bs + length cs =
          subst (λ x. length x ≡ length bs + length cs) (sym parts) (length-append bs cs) in
        rw (parts, append_assoc)
          (first.refuses bs refl fuel p end (cs ++ more) (omega arith) (omega arith));
  }
  LoopRefuses-first {w = resolved bs} (rejected x) first = record { refuses = λ ds k. absurd (cc) }
  LoopRefuses-first {w = rejected x} v first = record { refuses = λ ds k. absurd (cc) }

  pub LoopRefuses-later :
      {w v : Outcome (List ℕ)} {m m' : M}
      → Writes lib fields w m m'
      → LoopRefuses lib fields e v m'
      → LoopRefuses lib fields e (w ⊕ v) m
  LoopRefuses-later {w = resolved bs} {v = resolved cs} {m} first later = record {
    refuses = λ ds k fuel p end more h enough.
        let parts : ds ≡ bs ++ cs = cc in
        let size : length ds ≡ length bs + length cs =
          subst (λ x. length x ≡ length bs + length cs) (sym parts) (length-append bs cs) in
        let eaten = (first.eats bs refl).run fuel p end (cs ++ more) (omega arith) (omega arith) in
        rw (parts, append_assoc)
          (eaten.2
            ∙ later.refuses cs refl eaten.0 (p + length bs) end more (omega arith)
                (omega (arith, eaten.1)));
  }
  LoopRefuses-later {w = resolved bs} {v = rejected x} first later = record {
    refuses = λ ds k. absurd (cc);
  }
  LoopRefuses-later {w = rejected x} first later = record { refuses = λ ds k. absurd (cc) }

refuse_round :
    {lib : Protobuf} (laws : IsLawful lib) {M : Type 0} (fields : Fields M) {e : JsValue} (tag : ℕ)
    (m : M) (get : Get M) (bs : List ℕ)
    → tag < 2 ^ 32
    → fields tag m ≡ some get
    → Refuses get bs e
    → (fuel p end : ℕ) (more : List ℕ) → p < end
    → decode_loop lib fields (suc fuel) end m (reader_at p (lib.write_uint32 tag ++ bs ++ more))
      ≡ thrown e
unfolding decode_loop
refuse_round {lib} laws fields tag m get bs small is_field refuses fuel p end more h =
    rw
      (
        lt→ltb p end h,
        append_assoc,
        ◌>>=◌,
        call,
        laws.uint32_back tag small p (bs ++ more),
        after_tag,
        is_field,
        refuses (p + length (lib.write_uint32 tag)) more,
      )
      refl

module _ {lib : Protobuf} (laws : IsLawful lib) {M : Type 0} {fields : Fields M} {e : JsValue}
    (tag : ℕ) (small : ltb tag (2 ^ 32) ≡ true) where
  tagged-LoopRefuses :
      (m : M) (get : Get M) (w : Outcome (List ℕ))
      → fields tag m ≡ some get
      → ((bs : List ℕ) → w ≡ resolved bs → Refuses get bs e)
      → LoopRefuses lib fields e (resolved (lib.write_uint32 tag) ⊕ w) m
  tagged-LoopRefuses m get (rejected x) is_field refuses = record { refuses = λ ds k. absurd (cc) }
  tagged-LoopRefuses m get (resolved bs) is_field refuses = record { refuses = go }
    where
      go :
          (ds : List ℕ)
          → resolved (lib.write_uint32 tag ++ bs) ≡ resolved ds
          → (fuel p end : ℕ) (more : List ℕ) → p + length ds ≤ end
          → length ds < fuel
          → decode_loop lib fields fuel end m (reader_at p (ds ++ more)) ≡ thrown e
      go ds k zero p end more h enough = absurd (omega arith)
      go ds k (suc fuel) p end more h enough =
          let parts : ds ≡ lib.write_uint32 tag ++ bs = cc in
          let size : length ds ≡ length (lib.write_uint32 tag) + length bs =
            subst (λ x. length x ≡ length (lib.write_uint32 tag) + length bs) (sym parts)
              (length-append (lib.write_uint32 tag) bs) in
          let some_byte = tag_bytes laws tag (ltb→lt _ _ small) in
          rw parts (
            refuse_round laws fields tag m get bs (ltb→lt _ _ small) is_field (refuses bs refl) fuel
              p end more (omega arith))

  -- A message within the message that its own `decode` refuses.
  pub message-LoopRefuses :
      {A : Type 0} (encode : A → Outcome (List ℕ)) (decode_in : Option ℕ → Get A) (a : A) (m : M)
      (set : A → M)
      → ((bs : List ℕ) → encode a ≡ resolved bs → Refuses (decode_in (some (length bs))) bs e)
      → fields tag m ≡ into_message lib decode_in set
      → LoopRefuses lib fields e (message_field lib tag encode (some a)) m
  unfolding message_field
  message-LoopRefuses encode decode_in a m set refuses is_field =
      tagged-LoopRefuses m _ _ is_field λ bs k p more.
        let (chunk, made, joins) = joined_cases lib.join (encode a) bs k in
        let (size, parts, sized) = laws.join_back chunk bs joins in
        rw
          (
            parts,
            append_assoc,
            ◌>>=◌,
            call,
            sized p (chunk ++ more),
            refuses chunk made (p + length size) more,
          )
          refl

-- `decode`, given the length of what was written.
pub decode_message-Refuses :
    {lib : Protobuf} {M : Type 0} (fields : ℕ → Fields M) (base : M) (levels : ℕ) {e : JsValue}
    {w : Outcome (List ℕ)} (bs : List ℕ)
    → LoopRefuses lib (fields levels) e w base
    → w ≡ resolved bs
    → Refuses (decode_message lib fields base (suc levels) (some (length bs))) bs e
unfolding decode_message
decode_message-Refuses fields base levels bs loop h p more =
    loop.refuses bs h (suc (length (bs ++ more))) p (p + length bs) more (omega arith)
      (omega (arith, length-append bs more))
