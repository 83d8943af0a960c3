-- ===== src/Structs/Fusing.antt =====
-- typescript/src/gen/google/protobuf/struct.ts: the recursion over a document's parts and the calls of
-- the messages' `encode` write the same.
use signet_clients.Prelude.{
  ℕ, zero, suc, ◌≤◌, Bool, not, true, false, Bool-cases, inl, inr, ◌≡◌, refl, sym, ap, ◌∙◌, List,
  [], append_assoc, append-nil, arith, if◌then◌else◌,
}
use signet_clients.Runtime.{Text, JsValue, Outcome, resolved, rejected}
use signet_clients.Strings.Equality.{same_text_refl}
use signet_clients.Wire.{Protobuf}
use signet_clients.Wire.Fields.{◌⊕◌, string_field, message_field}
use signet_clients.Structs.{
  Any, undefined, null, boolean, number, text, array, object, other, Items, no_items, item, Entries,
  no_entries, entry, is_undefined, has_key, put, is_proto, assign, assign_all, copied, wrap,
  is_kept, chunk, encode_content, encode_struct, encode_items,
}
use signet_clients.Structs.Decoding.{encode_value, depth, depth_struct, depth_items}
use signet_clients.Structs.Values.{depth_positive, depth_struct_positive, depth_items_positive}
use signet_clients.Structs.Wrapping.{behind, put-new, encode_content-wrap}
use signet_clients.Structs.Encoding.{
  Encoders, called, wrapped_value, wrapped_struct, write_value, write_struct, write_entry,
  write_items, encoders_over, encoders,
}

⊕_assoc : (u v w : Outcome (List ℕ)) → (u ⊕ v) ⊕ w ≡ u ⊕ (v ⊕ w)
⊕_assoc (rejected e) v w = refl
⊕_assoc (resolved bs) (rejected e) w = refl
⊕_assoc (resolved bs) (resolved cs) (rejected e) = refl
⊕_assoc (resolved bs) (resolved cs) (resolved ds) = ap resolved (append_assoc bs cs ds)

⊕_nil : (w : Outcome (List ℕ)) → w ⊕ resolved [] ≡ w
⊕_nil (resolved bs) = ap resolved (append-nil bs)
⊕_nil (rejected e) = refl

⊕_nil_left : (w : Outcome (List ℕ)) → resolved [] ⊕ w ≡ w
⊕_nil_left (resolved bs) = refl
⊕_nil_left (rejected e) = refl

kept_or_not :
    (b : Bool) (w rest : Outcome (List ℕ))
    → (if b then resolved [] else w) ⊕ rest ≡ (if not b then w ⊕ rest else rest)
kept_or_not true w rest = ⊕_nil_left rest
kept_or_not false w rest = refl

pub assign-proto :
    (key : Text) (v : Any) (es : Entries) → is_proto key ≡ true → assign key v es ≡ es
unfolding assign
assign-proto key v es lost = rw lost refl

pub assign-other :
    (key : Text) (v : Any) (es : Entries) → is_proto key ≡ false → assign key v es ≡ put key v es
unfolding assign
assign-other key v es made = rw made refl

pub is_kept-proto : (key : Text) (v : Any) → is_proto key ≡ true → is_kept key v ≡ false
unfolding is_kept has_key
is_kept-proto key v lost = rw (assign-proto key v no_entries lost) refl

pub is_kept-other :
    (key : Text) (v : Any) → is_proto key ≡ false → is_kept key v ≡ not (is_undefined v)
unfolding is_kept has_key put
is_kept-other key v made = rw (assign-other key v no_entries made, same_text_refl key) refl

-- No object has two properties with one key.
unfoldable mutual
  pub KeysDiffer : Any → Type 0
  KeysDiffer (object es) = KeysDifferAfter no_entries es
  KeysDiffer (array xs) = AllKeysDiffer xs
  KeysDiffer v = Unit

  -- `before` are the properties that stand before these, as they are copied.
  pub KeysDifferAfter : Entries → Entries → Type 0
  KeysDifferAfter before no_entries = Unit
  KeysDifferAfter before (entry key v es) =
      (has_key key before ≡ false) × KeysDiffer v × KeysDifferAfter (assign key v before) es

  pub AllKeysDiffer : Items → Type 0
  AllKeysDiffer no_items = Unit
  AllKeysDiffer (item v xs) = KeysDiffer v × AllKeysDiffer xs

module _ (lib : Protobuf) where
  -- What is written of one property of an object.
  abbrev one_entry : Text → Any → Outcome (List ℕ)
  one_entry key v = chunk lib 10 (string_field lib 10 key ⊕ chunk lib 18 (encode_content lib v))

  -- The calls write what the recursion does, at one depth.
  record WritesAs (d : Encoders) (levels : ℕ) : Type 0 where
    content :
        (v : Any) → depth v ≤ levels → KeysDiffer v → wrapped_value lib d v ≡ encode_content lib v
    struct :
        (es : Entries)
        → depth_struct es ≤ levels
        → KeysDifferAfter no_entries es
        → wrapped_struct lib d es ≡ encode_struct lib es
    fields_entry :
        (key : Text) (v : Any)
        → suc (depth v) ≤ levels
        → is_undefined v ≡ false
        → KeysDiffer v
        → chunk lib 10 (d.fields_entry (record { key = key; value = v })) ≡ one_entry key v
    list_value :
        (xs : Items)
        → depth_items xs ≤ levels
        → AllKeysDiffer xs
        → d.list_value xs ≡ encode_items lib xs

  module _ (d : Encoders) (levels : ℕ) (inner : WritesAs d levels) where
    write_struct-behind :
        (ds es : Entries)
        → write_struct lib d (behind ds es) ≡ write_struct lib d ds ⊕ write_struct lib d es
    unfolding write_struct behind
    write_struct-behind no_entries es = sym (⊕_nil_left _)
    write_struct-behind (entry key v ds) es = elim (Bool-cases (is_undefined v)) [
      | inl skipped ↦ rw skipped (write_struct-behind ds es)
      | inr written ↦ rw written (
          ap (λ w. chunk lib 10 (d.fields_entry (record { key = key; value = v })) ⊕ w)
            (write_struct-behind ds es)
          ∙ sym (⊕_assoc _ _ _))
    ]

    one_entry-written :
        (key : Text) (v : Any)
        → suc (depth v) ≤ levels
        → KeysDiffer v
        → write_struct lib d (entry key v no_entries)
          ≡ (if is_undefined v then resolved [] else one_entry key v)
    unfolding write_struct
    one_entry-written key v deep differ = elim (Bool-cases (is_undefined v)) [
      | inl skipped ↦ rw skipped refl
      | inr written ↦ rw written (⊕_nil _ ∙ inner.fields_entry key v deep written differ)
    ]

    -- What one more property adds to what is written.
    write_struct-assign :
        (key : Text) (v : Any) (before : Entries) (rest : Outcome (List ℕ))
        → has_key key before ≡ false
        → suc (depth v) ≤ levels
        → KeysDiffer v
        → write_struct lib d (assign key v before) ⊕ rest
          ≡ write_struct lib d before ⊕ (if is_kept key v then one_entry key v ⊕ rest else rest)
    write_struct-assign key v before rest fresh deep differ = elim (Bool-cases (is_proto key)) [
      | inl lost ↦ rw (assign-proto key v before lost, is_kept-proto key v lost) refl
      | inr made ↦
          rw
            (
              assign-other key v before made,
              put-new key v before fresh,
              write_struct-behind before (entry key v no_entries),
              one_entry-written key v deep differ,
              is_kept-other key v made,
            )
            (⊕_assoc _ _ _
              ∙ ap (λ w. write_struct lib d before ⊕ w)
                  (kept_or_not (is_undefined v) (one_entry key v) rest))
    ]

    write_struct-copied :
        (before es : Entries)
        → depth_struct es ≤ suc levels
        → KeysDifferAfter before es
        → write_struct lib d (assign_all es before)
          ≡ write_struct lib d before ⊕ encode_struct lib es
    unfolding assign_all encode_content KeysDiffer depth
    write_struct-copied before no_entries deep differ = sym (⊕_nil _)
    write_struct-copied before (entry key v es) deep differ =
        write_struct-copied (assign key v before) es (omega arith) differ.2
        ∙ write_struct-assign key v before (encode_struct lib es) differ.0 (omega arith) differ.1

    write_items-fused :
        (xs : Items)
        → depth_items xs ≤ suc levels
        → AllKeysDiffer xs
        → write_items lib d xs ≡ encode_items lib xs
    unfolding write_items encode_content KeysDiffer depth
    write_items-fused no_items deep differ = refl
    write_items-fused (item v xs) deep differ =
        rw (inner.content v (omega arith) differ.0, write_items-fused xs (omega arith) differ.1)
          refl

    write_value-fused :
        (v : Any)
        → depth v ≤ suc levels
        → KeysDiffer v
        → called (write_value lib d) (wrap v) ≡ encode_content lib v
    unfolding wrap write_value message_field KeysDiffer depth encode_value
    write_value-fused (object es) deep differ =
        rw (inner.struct es (omega arith) differ) (sym (encode_content-wrap lib (object es)))
    write_value-fused (array xs) deep differ =
        rw (inner.list_value xs (omega arith) differ) (sym (encode_content-wrap lib (array xs)))
    write_value-fused undefined deep differ = sym (encode_content-wrap lib undefined)
    write_value-fused null deep differ = sym (encode_content-wrap lib null)
    write_value-fused (boolean b) deep differ = sym (encode_content-wrap lib (boolean b))
    write_value-fused (number n) deep differ = sym (encode_content-wrap lib (number n))
    write_value-fused (text s) deep differ = sym (encode_content-wrap lib (text s))
    write_value-fused (other type) deep differ = sym (encode_content-wrap lib (other type))

    writes_next : WritesAs (encoders_over lib d) (suc levels)
    unfolding encoders_over write_entry copied write_struct
    writes_next = record {
      content = write_value-fused;
      struct = λ es deep differ.
          write_struct-copied no_entries es deep differ ∙ ⊕_nil_left (encode_struct lib es);
      fields_entry =
          λ key v deep given differ. rw (given, inner.content v (omega arith) differ) refl;
      list_value = write_items-fused;
    }

  writes_as : (too_deep : JsValue) (levels : ℕ) → WritesAs (encoders lib too_deep levels) levels
  unfolding encoders
  writes_as too_deep zero = record {
    content = λ v deep. absurd (omega (arith, depth_positive v));
    struct = λ es deep. absurd (omega (arith, depth_struct_positive es));
    fields_entry = λ key v deep. absurd (omega arith);
    list_value = λ xs deep. absurd (omega (arith, depth_items_positive xs));
  }
  writes_as too_deep (suc levels) =
      writes_next (encoders lib too_deep levels) levels (writes_as too_deep levels)

-- Encoding a value as the messages' `encode` do it, each wrapping its parts and calling the others,
-- writes what the recursion over the value's parts writes, and throws what it throws, if no object has
-- two properties with one key. The calls nest no deeper than those that read the value.
pub encode_content-fused :
    (lib : Protobuf) (too_deep : JsValue) (levels : ℕ) (v : Any)
    → depth v ≤ levels
    → KeysDiffer v
    → wrapped_value lib (encoders lib too_deep levels) v ≡ encode_content lib v
encode_content-fused lib too_deep levels v = (writes_as lib too_deep levels).content v
