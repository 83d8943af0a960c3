-- ===== src/Structs/Trips.antt =====
-- typescript/src/gen/google/protobuf/struct.ts: documents that are written and read back.
use signet_clients.Prelude.{ℕ, zero, suc, ◌≤◌, true, some, List, length, ◌≡◌, refl, sym, arith}
use signet_clients.Prelude.Int.{pos}
use signet_clients.Runtime.{Text, resolved}
use signet_clients.Wire.{Protobuf}
use signet_clients.Wire.Fields.{◌⊕◌, string_field, message_field}
use signet_clients.Wire.Laws.{IsLawful, IsText}
use signet_clients.Wire.Feeding.{Gets, Writes, Writes-then, Eats-field}
use signet_clients.Wire.Reading.{decode_message-Gets}
use signet_clients.Wire.Statements.{
  empty-Writes, into-Gets, one_message-Writes, string-Writes, tagged-Writes, Writes-eq, Writes-of,
}
use signet_clients.Structs.{
  Any, undefined, null, boolean, number, text, array, object, other, Items, no_items, item, Entries,
  no_entries, entry, base_value, base_entry, put, copied, is_kept, unwrap, encode_content,
  encode_struct, encode_items, chunk,
}
use signet_clients.Structs.Decoding.{
  decoders, depth, depth_struct, depth_items, read_value, read_struct, read_entry, read_items,
  unwrapped_value, unwrapped_struct, add_entry, push,
}
use signet_clients.Structs.Wrapping.{
  IsPlain, IsPlainAfter, IsPlainStruct, AreItemsPlain, behind, behind-nil, behind-put, items_behind,
  items_behind-nil, items_behind-push, add_entry-kept, copied-IsPlainStruct,
}
use signet_clients.Structs.Values.{
  value_of, Gets-then, depth_positive, depth_struct_positive, depth_items_positive, unwrap-value_of,
}

module _ {lib : Protobuf} (laws : IsLawful lib) where
  -- What the four calls read back at one depth.
  pub record ReadsAt (levels : ℕ) : Type 0 where
    pub content :
        (v : Any) (bs : List ℕ)
        → IsPlain v
        → depth v ≤ levels
        → encode_content lib v ≡ resolved bs
        → Gets (unwrapped_value lib (decoders lib levels) (some (length bs))) bs v
    pub struct :
        (es : Entries) (bs : List ℕ)
        → IsPlainStruct es
        → depth_struct es ≤ levels
        → encode_struct lib es ≡ resolved bs
        → Gets (unwrapped_struct lib (decoders lib levels) (some (length bs))) bs es
    pub fields_entry :
        (key : Text) (v : Any) (bs : List ℕ)
        → IsText key
        → IsPlain v
        → suc (depth v) ≤ levels
        → string_field lib 10 key ⊕ chunk lib 18 (encode_content lib v) ≡ resolved bs
        → Gets
            ((decoders lib levels).fields_entry (some (length bs)))
            bs
            (record { key = key; value = v })
    pub list_value :
        (xs : Items) (bs : List ℕ)
        → AreItemsPlain xs
        → depth_items xs ≤ levels
        → encode_items lib xs ≡ resolved bs
        → Gets ((decoders lib levels).list_value (some (length bs))) bs xs

  module _ (levels : ℕ) (inner : ReadsAt levels) where
    value-Writes :
        (v : Any)
        → IsPlain v
        → depth v ≤ suc levels
        → Writes lib
            (read_value lib (decoders lib levels))
            (encode_content lib v)
            base_value
            (value_of v)
    unfolding encode_content depth IsPlain read_value message_field value_of
    value-Writes undefined plain deep = empty-Writes base_value
    value-Writes null plain deep = tagged-Writes laws 8 refl _ _ refl (λ bs k.
        into-Gets lib.int32 (λ v. record base_value { null_value = some v }) bs
          (laws.int32_back (pos 0) bs k))
    value-Writes (boolean b) plain deep = Writes-of (
        Eats-field laws 32 _ _ (omega arith) refl (
          into-Gets lib.bool (λ v. record base_value { bool_value = some v }) _ (laws.bool_back b)))
    value-Writes (number d) plain deep = Writes-of (
        Eats-field laws 17 _ _ (omega arith) refl (
          into-Gets lib.double (λ v. record base_value { number_value = some v }) _
            (laws.double_back d plain)))
    value-Writes (text s) plain deep = Writes-of (
        Eats-field laws 26 _ _ (omega arith) refl (
          into-Gets lib.string (λ v. record base_value { string_value = some v }) _
            (laws.string_back s plain)))
    value-Writes (array xs) plain deep =
        one_message-Writes laws 50 refl (encode_items lib) ((decoders lib levels).list_value) xs
          base_value (λ v. record base_value { list_value = some v })
          (λ bs e. inner.list_value xs bs plain (omega arith) e) refl
    value-Writes (object es) plain deep =
        one_message-Writes laws 42 refl (encode_struct lib)
          (unwrapped_struct lib (decoders lib levels)) es base_value
          (λ v. record base_value { struct_value = some v })
          (λ bs e. inner.struct es bs plain (omega arith) e) refl
    value-Writes (other type) plain deep = record { eats = λ bs e. absurd (cc) }

    -- A property that comes after those of `before`.
    pub entry-Writes :
        (before : Entries) (key : Text) (v : Any)
        → IsText key
        → is_kept key v ≡ true
        → IsPlain v
        → suc (depth v) ≤ levels
        → Writes lib
            (read_struct lib (decoders lib levels))
            (chunk lib 10 (string_field lib 10 key ⊕ chunk lib 18 (encode_content lib v)))
            before
            (put key v before)
    unfolding read_struct message_field
    entry-Writes before key v is_text kept plain deep =
        Writes-eq
          (one_message-Writes laws 10 refl
            (λ _. string_field lib 10 key ⊕ chunk lib 18 (encode_content lib v))
            ((decoders lib levels).fields_entry) (record { key = key; value = v }) before
            (λ e. add_entry e before) (λ bs e. inner.fields_entry key v bs is_text plain deep e)
            refl)
          (add_entry-kept key v before kept)

    entries-Writes :
        (before es : Entries)
        → IsPlainAfter before es
        → depth_struct es ≤ suc levels
        → Writes lib
            (read_struct lib (decoders lib levels))
            (encode_struct lib es)
            before
            (behind before es)
    unfolding encode_content depth IsPlain behind
    entries-Writes before no_entries plain deep =
        Writes-eq (empty-Writes before) (sym (behind-nil before))
    entries-Writes before (entry key v es) plain deep = rw plain.1 (
        Writes-then (entry-Writes before key v plain.0 plain.1 plain.3 (omega arith)) (
          Writes-eq (entries-Writes (put key v before) es plain.4 (omega arith))
            (behind-put key v before es plain.2)))

    pub item-Writes :
        (before : Items) (v : Any)
        → IsPlain v
        → depth v ≤ levels
        → Writes lib
            (read_items lib (decoders lib levels))
            (chunk lib 10 (encode_content lib v))
            before
            (push v before)
    unfolding read_items message_field
    item-Writes before v plain deep =
        one_message-Writes laws 10 refl (encode_content lib)
          (unwrapped_value lib (decoders lib levels)) v before (λ x. push x before)
          (λ bs e. inner.content v bs plain deep e) refl

    items-Writes :
        (before xs : Items)
        → AreItemsPlain xs
        → depth_items xs ≤ suc levels
        → Writes lib
            (read_items lib (decoders lib levels))
            (encode_items lib xs)
            before
            (items_behind before xs)
    unfolding encode_content depth IsPlain items_behind
    items-Writes before no_items plain deep =
        Writes-eq (empty-Writes before) (sym (items_behind-nil before))
    items-Writes before (item v xs) plain deep =
        Writes-then (item-Writes before v plain.0 (omega arith)) (
          Writes-eq (items-Writes (push v before) xs plain.1 (omega arith))
            (items_behind-push v before xs))

    reads_next : ReadsAt (suc levels)
    unfolding decoders behind items_behind read_entry message_field
    reads_next = record {
      content = λ v bs plain deep h.
          Gets-then ((decoders lib (suc levels)).value (some (length bs))) unwrap bs (value_of v)
            (decode_message-Gets (λ _. read_value lib (decoders lib levels)) base_value levels bs
              (value-Writes v plain deep) h)
            (unwrap-value_of lib v bs h);
      struct = λ es bs plain deep h.
          Gets-then ((decoders lib (suc levels)).struct (some (length bs))) copied bs es
            (decode_message-Gets (λ _. read_struct lib (decoders lib levels)) no_entries levels bs
              (entries-Writes no_entries es plain deep) h)
            (copied-IsPlainStruct es plain);
      fields_entry = λ key v bs is_text plain deep h.
          decode_message-Gets (λ _. read_entry lib (decoders lib levels)) base_entry levels bs
            (Writes-then
              (string-Writes laws 10 refl key (λ s. record { key = s; value = undefined }) is_text
                refl)
              (one_message-Writes laws 18 refl (encode_content lib)
                (unwrapped_value lib (decoders lib levels)) v
                (record { key = key; value = undefined }) (λ x. record { key = key; value = x })
                (λ cs e. inner.content v cs plain (omega arith) e) refl))
            h;
      list_value = λ xs bs plain deep h.
          decode_message-Gets (λ _. read_items lib (decoders lib levels)) no_items levels bs
            (items-Writes no_items xs plain deep) h;
    }

  -- A document is read back at every depth that leaves it levels enough.
  pub reads_at : (levels : ℕ) → ReadsAt levels
  reads_at zero = record {
    content = λ v bs plain deep. absurd (omega (arith, depth_positive v));
    struct = λ es bs plain deep. absurd (omega (arith, depth_struct_positive es));
    fields_entry = λ key v bs is_text plain deep. absurd (omega arith);
    list_value = λ xs bs plain deep. absurd (omega (arith, depth_items_positive xs));
  }
  reads_at (suc levels) = reads_next levels (reads_at levels)
