-- ===== src/Structs/Values.antt =====
-- typescript/src/gen/google/protobuf/struct.ts: a value that has been read, before it is unwrapped,
-- and the depth of documents.
use signet_clients.Prelude.{ℕ, ◌+◌, ◌<◌, some, List, length, ◌≡◌, refl, ap, arith}
use signet_clients.Prelude.Int.{pos}
use signet_clients.Runtime.{resolved}
use signet_clients.Wire.{Protobuf, Get, ok, pure, ◌>>=◌}
use signet_clients.Wire.Laws.{reader_at}
use signet_clients.Wire.Feeding.{Gets}
use signet_clients.Structs.{
  Any, undefined, null, boolean, number, text, array, object, other, Items, no_items, item, Entries,
  no_entries, entry, Value, base_value, wrap, unwrap, encode_content,
}
use signet_clients.Structs.Decoding.{depth, depth_struct, depth_items}
use signet_clients.Structs.Wrapping.{unwrap-wrap}

-- What reading the bytes of a wrapped value gives before it is unwrapped.
unfoldable pub value_of : Any → Value
value_of undefined = base_value
value_of null = record base_value { null_value = some (pos 0) }
value_of (boolean b) = record base_value { bool_value = some b }
value_of (number d) = record base_value { number_value = some d }
value_of (text s) = record base_value { string_value = some s }
value_of (array xs) = record base_value { list_value = some xs }
value_of (object es) = record base_value { struct_value = some es }
value_of (other type) = base_value

pub Gets-then :
    {A B : Type 0} (get : Get A) (f : A → B) (bs : List ℕ) (a : A) {b : B}
    → Gets get bs a
    → f a ≡ b
    → Gets (get >>= λ x. pure (f x)) bs b
Gets-then get f bs a {b} gets e p more =
    rw (◌>>=◌, gets p more) (ap (λ x. ok x (reader_at (p + length bs) more)) e)

pub depth_positive : (v : Any) → 0 < depth v
unfolding depth
depth_positive (object es) = omega arith
depth_positive (array xs) = omega arith
depth_positive undefined = omega arith
depth_positive null = omega arith
depth_positive (boolean b) = omega arith
depth_positive (number d) = omega arith
depth_positive (text s) = omega arith
depth_positive (other type) = omega arith

pub depth_struct_positive : (es : Entries) → 0 < depth_struct es
unfolding depth
depth_struct_positive no_entries = omega arith
depth_struct_positive (entry key v es) = omega arith

pub depth_items_positive : (xs : Items) → 0 < depth_items xs
unfolding depth
depth_items_positive no_items = omega arith
depth_items_positive (item v xs) = omega arith

pub unwrap-value_of :
    (lib : Protobuf) (v : Any) (bs : List ℕ)
    → encode_content lib v ≡ resolved bs
    → unwrap (value_of v) ≡ v
unfolding encode_content wrap value_of
unwrap-value_of lib undefined bs h = unwrap-wrap undefined base_value refl
unwrap-value_of lib null bs h = unwrap-wrap null _ refl
unwrap-value_of lib (boolean b) bs h = unwrap-wrap (boolean b) _ refl
unwrap-value_of lib (number d) bs h = unwrap-wrap (number d) _ refl
unwrap-value_of lib (text s) bs h = unwrap-wrap (text s) _ refl
unwrap-value_of lib (array xs) bs h = unwrap-wrap (array xs) _ refl
unwrap-value_of lib (object es) bs h = unwrap-wrap (object es) _ refl
unwrap-value_of lib (other type) bs h = absurd (cc)
