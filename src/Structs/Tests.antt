-- ===== src/Structs/Tests.antt =====
-- Tests of documents, and the theorems on them at concrete inputs.
use signet_clients.Prelude.{ℕ, true, List, [], ◌∷◌, ◌++◌, some, ◌≡◌, refl, ◌≤◌, arith}
use signet_clients.Runtime.{codes, resolved, JsValue, error, new_error}
use signet_clients.Wire.{ok, thrown, recursion_error, decode_message}
use signet_clients.Wire.Fields.{string_field}
use signet_clients.Wire.Laws.{reader_at, no_lone_surrogate}
use signet_clients.Wire.Samples.{sample_package, sample_package-IsLawful}
use signet_clients.Structs.{
  Any, Entries, undefined, wrap, assign, null, boolean, array, object, no_items, item, no_entries,
  entry, encode_content, is_kept, has_key, copied,
}
use signet_clients.Structs.Decoding.{decode_content, depth}
use signet_clients.Structs.Nesting.{depth-decides}
use signet_clients.Structs.Wrapping.{IsPlain}
use signet_clients.Structs.Encoding.{encoders, write_value}
use signet_clients.Structs.Fusing.{KeysDiffer}
use signet_clients.Structs.Cleaning.{cleaned, HasTexts, decode-encode}
use signet_clients.Structs.Losing.{proto_key}

-- {"a": [true, null]}
abbrev document : Any
document = object (entry (codes "a") (array (item (boolean true) (item null no_items))) no_entries)

abbrev document_bytes : List ℕ
document_bytes =
    42 ∷ 17 ∷ 10 ∷ 15 ∷ 10 ∷ 1 ∷ 97 ∷ 18 ∷ 10 ∷ 50 ∷ 8 ∷ 10 ∷ 2 ∷ 32 ∷ 1 ∷ 10 ∷ 2 ∷ 8 ∷ 0 ∷ []

document_written : encode_content sample_package document ≡ resolved document_bytes
unfolding encode_content is_kept string_field
document_written = refl

document_read :
    decode_content sample_package 99 (some 19) (reader_at 0 document_bytes)
    ≡ ok document (reader_at 19 [])
unfolding decode_content decode_message copied
document_read = refl

document-IsPlain : IsPlain document
unfolding IsPlain is_kept has_key no_lone_surrogate
document-IsPlain = (refl, refl, refl, (tt, (tt, tt)), tt)

-- It nests six calls: Value, Struct, Struct_FieldsEntry, Value, ListValue and Value.
depth-decides_example :
    decode_content sample_package 5 (some 19) (reader_at 0 (document_bytes ++ []))
    ≡ thrown recursion_error
unfolding depth
depth-decides_example =
    depth-decides sample_package-IsLawful 5 document document_bytes document-IsPlain
      document_written 0 []

abbrev too_deep : JsValue
too_deep = error (new_error (codes "Maximum call stack size exceeded"))

-- {"a": [true, undefined], "b": undefined, "__proto__": null}
abbrev mixed : Any
mixed = object (
    entry (codes "a") (array (item (boolean true) (item undefined no_items)))
      (entry (codes "b") undefined (entry proto_key null no_entries)))

mixed-KeysDiffer : KeysDiffer mixed
unfolding KeysDiffer has_key assign
mixed-KeysDiffer = (refl, (tt, (tt, tt)), (refl, tt, (refl, tt, tt)))

mixed-HasTexts : HasTexts mixed
unfolding HasTexts no_lone_surrogate
mixed-HasTexts = (refl, (tt, (tt, tt)), (refl, tt, (refl, tt, tt)))

mixed_deep : depth mixed ≤ 6
unfolding depth
mixed_deep = omega arith

abbrev mixed_bytes : List ℕ
mixed_bytes = 42 ∷ 15 ∷ 10 ∷ 13 ∷ 10 ∷ 1 ∷ 97 ∷ 18 ∷ 8 ∷ 50 ∷ 6 ∷ 10 ∷ 2 ∷ 32 ∷ 1 ∷ 10 ∷ 0 ∷ []

-- {"a": [true, undefined]}
decode-encode_example :
    decode_content sample_package 6 (some 17) (reader_at 0 (mixed_bytes ++ []))
    ≡ ok
        (object
          (entry (codes "a") (array (item (boolean true) (item undefined no_items))) no_entries))
        (reader_at 17 [])
unfolding cleaned is_kept encoders wrap copied write_value string_field
decode-encode_example =
    decode-encode sample_package-IsLawful too_deep 6 mixed mixed_bytes mixed_deep mixed-KeysDiffer
      mixed-HasTexts refl 0 []

abbrev others : Entries
others = entry (codes "a") (boolean true) no_entries
