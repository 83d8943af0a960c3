-- ===== src/Structs/Cleaning.antt =====
-- typescript/src/gen/google/protobuf/struct.ts: what comes back of a document that has properties
-- which are not written.
use signet_clients.Prelude.{
  ℕ, ◌+◌, ◌≤◌, ◌<◌, ◌^◌, not, Bool-cases, inl, inr, if_cases, ◌≡◌, refl, sym, ap, ◌∙◌, List, ◌++◌,
  some, length, arith, if◌then◌else◌,
}
use signet_clients.Runtime.{Text, JsValue, resolved}
use signet_clients.Wire.{Protobuf, ok}
use signet_clients.Wire.Laws.{IsLawful, IsText, reader_at}
use signet_clients.Structs.{
  Any, undefined, null, boolean, number, text, array, object, other, Items, no_items, item, Entries,
  no_entries, entry, is_undefined, put, is_proto, assign, is_kept, chunk, encode_content,
  encode_struct, encode_items,
}
use signet_clients.Structs.Decoding.{decode_content, depth, depth_struct, depth_items}
use signet_clients.Structs.Wrapping.{IsPlain, IsPlainAfter, AreItemsPlain}
use signet_clients.Structs.Trips.{reads_at}
use signet_clients.Structs.Encoding.{wrapped_value, encoders}
use signet_clients.Structs.Keys.{Misses, Misses-assign, Misses-assign_kept}
use signet_clients.Structs.Fusing.{
  KeysDiffer, KeysDifferAfter, AllKeysDiffer, is_kept-proto, is_kept-other, encode_content-fused,
}

-- The document without the properties that are undefined or called `__proto__`, at any depth.
unfoldable mutual
  pub cleaned : Any → Any
  cleaned (object es) = object (cleaned_entries es)
  cleaned (array xs) = array (cleaned_items xs)
  cleaned v = v

  pub cleaned_entries : Entries → Entries
  cleaned_entries no_entries = no_entries
  cleaned_entries (entry key v es) =
      let one = entry key (cleaned v) in
      let rest = cleaned_entries es in if is_kept key v then one rest else rest

  pub cleaned_items : Items → Items
  cleaned_items no_items = no_items
  cleaned_items (item v xs) = item (cleaned v) (cleaned_items xs)

-- Its texts have no lone surrogate, and its numbers are 64 bits.
unfoldable mutual
  pub HasTexts : Any → Type 0
  HasTexts (text s) = IsText s
  HasTexts (number d) = d < 2 ^ 64
  HasTexts (object es) = HaveTexts es
  HasTexts (array xs) = AllHaveTexts xs
  HasTexts v = Unit

  pub HaveTexts : Entries → Type 0
  HaveTexts no_entries = Unit
  HaveTexts (entry key v es) = IsText key × HasTexts v × HaveTexts es

  pub AllHaveTexts : Items → Type 0
  AllHaveTexts no_items = Unit
  AllHaveTexts (item v xs) = HasTexts v × AllHaveTexts xs

is_undefined-cleaned : (v : Any) → is_undefined (cleaned v) ≡ is_undefined v
unfolding cleaned is_undefined
is_undefined-cleaned undefined = refl
is_undefined-cleaned null = refl
is_undefined-cleaned (boolean b) = refl
is_undefined-cleaned (number d) = refl
is_undefined-cleaned (text s) = refl
is_undefined-cleaned (array xs) = refl
is_undefined-cleaned (object es) = refl
is_undefined-cleaned (other type) = refl

is_kept-cleaned : (key : Text) (v : Any) → is_kept key (cleaned v) ≡ is_kept key v
is_kept-cleaned key v = elim (Bool-cases (is_proto key)) [
  | inl lost ↦ is_kept-proto key (cleaned v) lost ∙ sym (is_kept-proto key v lost)
  | inr made ↦
      is_kept-other key (cleaned v) made
      ∙ ap not (is_undefined-cleaned v)
      ∙ sym (is_kept-other key v made)
]

module _ (lib : Protobuf) where
  entry-cleaned :
      (key : Text) (v : Any) (es : Entries)
      → encode_content lib (cleaned v) ≡ encode_content lib v
      → encode_struct lib (cleaned_entries es) ≡ encode_struct lib es
      → encode_struct lib (cleaned_entries (entry key v es)) ≡ encode_struct lib (entry key v es)
  unfolding cleaned encode_content
  entry-cleaned key v es content rest = elim (Bool-cases (is_kept key v)) [
    | inl kept ↦ rw (kept, is_kept-cleaned key v, kept, content, rest) refl
    | inr lost ↦ rw (lost, rest) refl
  ]

  mutual
    unfolding cleaned encode_content

    encode_content-cleaned : (v : Any) → encode_content lib (cleaned v) ≡ encode_content lib v
    encode_content-cleaned (object es) = ap (chunk lib 42) (encode_struct-cleaned es)
    encode_content-cleaned (array xs) = ap (chunk lib 50) (encode_items-cleaned xs)
    encode_content-cleaned undefined = refl
    encode_content-cleaned null = refl
    encode_content-cleaned (boolean b) = refl
    encode_content-cleaned (number d) = refl
    encode_content-cleaned (text s) = refl
    encode_content-cleaned (other type) = refl

    encode_struct-cleaned :
        (es : Entries) → encode_struct lib (cleaned_entries es) ≡ encode_struct lib es
    encode_struct-cleaned no_entries = refl
    encode_struct-cleaned (entry key v es) =
        entry-cleaned key v es (encode_content-cleaned v) (encode_struct-cleaned es)

    encode_items-cleaned : (xs : Items) → encode_items lib (cleaned_items xs) ≡ encode_items lib xs
    encode_items-cleaned no_items = refl
    encode_items-cleaned (item v xs) = rw (encode_content-cleaned v, encode_items-cleaned xs) refl

mutual
  unfolding cleaned HasTexts KeysDiffer IsPlain

  cleaned-IsPlain : (v : Any) → HasTexts v → KeysDiffer v → IsPlain (cleaned v)
  cleaned-IsPlain (object es) texts differ =
      entries-IsPlain no_entries no_entries es (λ k absent. absent) texts differ
  cleaned-IsPlain (array xs) texts differ = items-IsPlain xs texts differ
  cleaned-IsPlain undefined texts differ = tt
  cleaned-IsPlain null texts differ = tt
  cleaned-IsPlain (boolean b) texts differ = tt
  cleaned-IsPlain (number d) texts differ = texts
  cleaned-IsPlain (text s) texts differ = texts
  cleaned-IsPlain (other type) texts differ = tt

  entries-IsPlain :
      (before others es : Entries)
      → Misses before others
      → HaveTexts es
      → KeysDifferAfter before es
      → IsPlainAfter others (cleaned_entries es)
  entries-IsPlain before others no_entries misses texts differ = tt
  entries-IsPlain before others (entry key v es) misses texts differ =
      if_cases (IsPlainAfter others) (is_kept key v)
        (λ kept. (
          texts.0,
          is_kept-cleaned key v ∙ kept,
          misses key differ.0,
          cleaned-IsPlain v texts.1 differ.1,
          entries-IsPlain (assign key v before) (put key (cleaned v) others) es
              (Misses-assign_kept key v (cleaned v) before others misses kept) texts.2 differ.2,
        ))
        (λ _.
          entries-IsPlain (assign key v before) others es (Misses-assign key v before others misses)
            texts.2 differ.2)

  items-IsPlain :
      (xs : Items) → AllHaveTexts xs → AllKeysDiffer xs → AreItemsPlain (cleaned_items xs)
  items-IsPlain no_items texts differ = tt
  items-IsPlain (item v xs) texts differ =
      (cleaned-IsPlain v texts.0 differ.0, items-IsPlain xs texts.1 differ.1)

mutual
  unfolding cleaned depth

  depth-cleaned : (v : Any) → depth (cleaned v) ≤ depth v
  depth-cleaned (object es) = omega (arith, depth_struct-cleaned es)
  depth-cleaned (array xs) = omega (arith, depth_items-cleaned xs)
  depth-cleaned undefined = omega arith
  depth-cleaned null = omega arith
  depth-cleaned (boolean b) = omega arith
  depth-cleaned (number d) = omega arith
  depth-cleaned (text s) = omega arith
  depth-cleaned (other type) = omega arith

  depth_struct-cleaned : (es : Entries) → depth_struct (cleaned_entries es) ≤ depth_struct es
  depth_struct-cleaned no_entries = omega arith
  depth_struct-cleaned (entry key v es) =
      if_cases (λ ds. depth_struct ds ≤ depth_struct (entry key v es)) (is_kept key v)
        (λ _. omega (arith, depth-cleaned v, depth_struct-cleaned es))
        (λ _. omega (arith, depth_struct-cleaned es))

  depth_items-cleaned : (xs : Items) → depth_items (cleaned_items xs) ≤ depth_items xs
  depth_items-cleaned no_items = omega arith
  depth_items-cleaned (item v xs) = omega (arith, depth-cleaned v, depth_items-cleaned xs)

-- A document that the messages' `encode` write, each wrapping its parts and calling the others, is
-- read back as the document without those properties that are undefined or called `__proto__`, at any
-- depth, and otherwise as it was, an undefined item of an array included. The document nests no more
-- calls than the writer and the reader have levels, its texts have no lone surrogate, its numbers are
-- 64 bits, and no object has two properties with one key. The package's writer and reader keep their
-- laws.
pub decode-encode :
    {lib : Protobuf} (laws : IsLawful lib) (too_deep : JsValue) (levels : ℕ) (v : Any) (bs : List ℕ)
    → depth v ≤ levels
    → KeysDiffer v
    → HasTexts v
    → wrapped_value lib (encoders lib too_deep levels) v ≡ resolved bs
    → (p : ℕ) (more : List ℕ)
    → decode_content lib levels (some (length bs)) (reader_at p (bs ++ more))
      ≡ ok (cleaned v) (reader_at (p + length bs) more)
unfolding decode_content
decode-encode {lib} laws too_deep levels v bs deep differ texts written =
    (reads_at laws levels).content (cleaned v) bs (cleaned-IsPlain v texts differ)
      (omega (arith, depth-cleaned v))
      (encode_content-cleaned lib v
        ∙ sym (encode_content-fused lib too_deep levels v deep differ)
        ∙ written)
