-- ===== src/Structs/Nesting.antt =====
-- typescript/src/gen/google/protobuf/struct.ts: documents at the limit of nested calls of `decode`.
use signet_clients.Prelude.{
  ℕ, zero, suc, ◌+◌, ◌<◌, some, List, ◌++◌, length, leb, le→leb, leb-false, lt_or_le, inl, inr,
  if◌then◌else◌, ◌≡◌, refl, arith,
}
use signet_clients.Runtime.{Text, resolved}
use signet_clients.Wire.{Protobuf, ok, thrown, ◌>>=◌, decode_message, recursion_error}
use signet_clients.Wire.Fields.{◌⊕◌, string_field, message_field}
use signet_clients.Wire.Laws.{IsLawful, IsText, reader_at}
use signet_clients.Wire.Statements.{string-Writes}
use signet_clients.Wire.Refusing.{
  Refuses, LoopRefuses, LoopRefuses-first, LoopRefuses-later, message-LoopRefuses,
  decode_message-Refuses,
}
use signet_clients.Structs.{
  Any, undefined, null, boolean, number, text, array, object, other, Items, no_items, item, Entries,
  no_entries, entry, base_value, base_entry, put, encode_content, encode_struct, encode_items,
  chunk,
}
use signet_clients.Structs.Decoding.{
  decoders, decode_content, depth, depth_struct, depth_items, read_value, read_struct, read_entry,
  read_items, unwrapped_value, unwrapped_struct, add_entry, push,
}
use signet_clients.Structs.Wrapping.{IsPlain, IsPlainAfter, IsPlainStruct, AreItemsPlain}
use signet_clients.Structs.Trips.{reads_at, entry-Writes, item-Writes}

module _ {lib : Protobuf} (laws : IsLawful lib) where
  -- What the four calls refuse with so many levels left.
  record RefusesAt (levels : ℕ) : Type 0 where
    content :
        (v : Any) (bs : List ℕ)
        → IsPlain v
        → levels < depth v
        → encode_content lib v ≡ resolved bs
        → Refuses (unwrapped_value lib (decoders lib levels) (some (length bs))) bs recursion_error
    struct :
        (es : Entries) (bs : List ℕ)
        → IsPlainStruct es
        → levels < depth_struct es
        → encode_struct lib es ≡ resolved bs
        → Refuses (unwrapped_struct lib (decoders lib levels) (some (length bs))) bs recursion_error
    fields_entry :
        (key : Text) (v : Any) (bs : List ℕ)
        → IsText key
        → IsPlain v
        → levels < suc (depth v)
        → string_field lib 10 key ⊕ chunk lib 18 (encode_content lib v) ≡ resolved bs
        → Refuses ((decoders lib levels).fields_entry (some (length bs))) bs recursion_error
    list_value :
        (xs : Items) (bs : List ℕ)
        → AreItemsPlain xs
        → levels < depth_items xs
        → encode_items lib xs ≡ resolved bs
        → Refuses ((decoders lib levels).list_value (some (length bs))) bs recursion_error

  module _ (levels : ℕ) (inner : RefusesAt levels) where
    value-LoopRefuses :
        (v : Any)
        → IsPlain v
        → suc levels < depth v
        → LoopRefuses lib
            (read_value lib (decoders lib levels))
            recursion_error
            (encode_content lib v)
            base_value
    unfolding encode_content depth IsPlain read_value message_field
    value-LoopRefuses (object es) plain deep =
        message-LoopRefuses laws 42 refl (encode_struct lib)
          (unwrapped_struct lib (decoders lib levels)) es base_value
          (λ v. record base_value { struct_value = some v })
          (λ bs e. inner.struct es bs plain (omega arith) e) refl
    value-LoopRefuses (array xs) plain deep =
        message-LoopRefuses laws 50 refl (encode_items lib) ((decoders lib levels).list_value) xs
          base_value (λ v. record base_value { list_value = some v })
          (λ bs e. inner.list_value xs bs plain (omega arith) e) refl
    value-LoopRefuses undefined plain deep = absurd (omega arith)
    value-LoopRefuses null plain deep = absurd (omega arith)
    value-LoopRefuses (boolean b) plain deep = absurd (omega arith)
    value-LoopRefuses (number d) plain deep = absurd (omega arith)
    value-LoopRefuses (text s) plain deep = absurd (omega arith)
    value-LoopRefuses (other type) plain deep = absurd (omega arith)

    entries-LoopRefuses :
        (before es : Entries)
        → IsPlainAfter before es
        → suc levels < depth_struct es
        → LoopRefuses lib
            (read_struct lib (decoders lib levels))
            recursion_error
            (encode_struct lib es)
            before
    unfolding encode_content depth IsPlain read_struct message_field
    entries-LoopRefuses before no_entries plain deep = absurd (omega arith)
    entries-LoopRefuses before (entry key v es) plain deep =
        rw plain.1 (elim (lt_or_le levels (suc (depth v))) [
          | inl h ↦ LoopRefuses-first _ (
              message-LoopRefuses laws 10 refl
                (λ _. string_field lib 10 key ⊕ chunk lib 18 (encode_content lib v))
                ((decoders lib levels).fields_entry) (record { key = key; value = v }) before
                (λ e. add_entry e before) (λ bs e. inner.fields_entry key v bs plain.0 plain.3 h e)
                refl)
          | inr h ↦
              LoopRefuses-later
                (entry-Writes laws levels (reads_at laws levels) before key v plain.0 plain.1
                  plain.3 h)
                (entries-LoopRefuses (put key v before) es plain.4 (omega arith))
        ])

    items-LoopRefuses :
        (before xs : Items)
        → AreItemsPlain xs
        → suc levels < depth_items xs
        → LoopRefuses lib
            (read_items lib (decoders lib levels))
            recursion_error
            (encode_items lib xs)
            before
    unfolding encode_content depth IsPlain read_items message_field
    items-LoopRefuses before no_items plain deep = absurd (omega arith)
    items-LoopRefuses before (item v xs) plain deep = elim (lt_or_le levels (depth v)) [
      | inl h ↦ LoopRefuses-first _ (
          message-LoopRefuses laws 10 refl (encode_content lib)
            (unwrapped_value lib (decoders lib levels)) v before (λ x. push x before)
            (λ bs e. inner.content v bs plain.0 h e) refl)
      | inr h ↦
          LoopRefuses-later (item-Writes laws levels (reads_at laws levels) before v plain.0 h)
            (items-LoopRefuses (push v before) xs plain.1 (omega arith))
    ]

    refuses_next : RefusesAt (suc levels)
    unfolding decoders read_entry message_field
    refuses_next = record {
      content = λ v bs plain deep h p more.
          rw
            (
              ◌>>=◌,
              decode_message-Refuses (λ _. read_value lib (decoders lib levels)) base_value levels
                  bs (value-LoopRefuses v plain deep) h p more,
            )
            refl;
      struct = λ es bs plain deep h p more.
          rw
            (
              ◌>>=◌,
              decode_message-Refuses (λ _. read_struct lib (decoders lib levels)) no_entries levels
                  bs (entries-LoopRefuses no_entries es plain deep) h p more,
            )
            refl;
      fields_entry = λ key v bs is_text plain deep h.
          decode_message-Refuses (λ _. read_entry lib (decoders lib levels)) base_entry levels bs
            (LoopRefuses-later
              (string-Writes laws 10 refl key (λ s. record { key = s; value = undefined }) is_text
                refl)
              (message-LoopRefuses laws 18 refl (encode_content lib)
                (unwrapped_value lib (decoders lib levels)) v
                (record { key = key; value = undefined }) (λ x. record { key = key; value = x })
                (λ cs e. inner.content v cs plain (omega arith) e) refl))
            h;
      list_value = λ xs bs plain deep h.
          decode_message-Refuses (λ _. read_items lib (decoders lib levels)) no_items levels bs
            (items-LoopRefuses no_items xs plain deep) h;
    }

  refuses_at : (levels : ℕ) → RefusesAt levels
  unfolding decoders decode_message
  refuses_at zero = record {
    content = λ v bs plain deep h p more. refl;
    struct = λ es bs plain deep h p more. refl;
    fields_entry = λ key v bs is_text plain deep h p more. refl;
    list_value = λ xs bs plain deep h p more. refl;
  }
  refuses_at (suc levels) = refuses_next levels (refuses_at levels)

-- What has been written of a plain document is read back exactly if it nests no more calls of
-- `decode` than are left; otherwise reading it throws the error of the recursion limit. The package's
-- writer and reader keep their laws.
pub depth-decides :
    {lib : Protobuf} (laws : IsLawful lib) (levels : ℕ) (v : Any) (bs : List ℕ)
    → IsPlain v
    → encode_content lib v ≡ resolved bs
    → (p : ℕ) (more : List ℕ)
    → decode_content lib levels (some (length bs)) (reader_at p (bs ++ more)) ≡ (
        if leb (depth v) levels
        then ok v (reader_at (p + length bs) more)
        else thrown recursion_error)
unfolding decode_content
depth-decides laws levels v bs plain written p more = elim (lt_or_le levels (depth v)) [
  | inl h ↦
      rw (leb-false (depth v) levels h)
        ((refuses_at laws levels).content v bs plain h written p more)
  | inr h ↦
      rw (le→leb (depth v) levels h) ((reads_at laws levels).content v bs plain h written p more)
]
