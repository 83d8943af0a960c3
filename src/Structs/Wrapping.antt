-- ===== src/Structs/Wrapping.antt =====
-- typescript/src/gen/google/protobuf/struct.ts: what wrapping and copying keep.
use signet_clients.Prelude.{
  ◌<◌, ◌^◌, true, false, ◌≡◌, refl, sym, ap, subst, ◌∙◌, append-nil, arith, ℕ, List, [],
}
use signet_clients.Runtime.{Text, Outcome, resolved, rejected}
use signet_clients.Wire.{Protobuf}
use signet_clients.Wire.Fields.{◌⊕◌, message_field}
use signet_clients.Wire.Laws.{IsText}
use signet_clients.Structs.{
  Any, undefined, null, boolean, number, text, array, object, other, Items, no_items, item, Entries,
  no_entries, entry, Value, has_key, put, assign, assign_all, copied, wrap, unwrap, is_kept,
  encode_content,
}
use signet_clients.Structs.Decoding.{encode_value, add_entry, push}

-- The document comes back as it is: its texts can be written, no object has a property that is
-- undefined or called `__proto__`, or two with one key.
unfoldable mutual
  pub IsPlain : Any → Type 0
  IsPlain (text s) = IsText s
  IsPlain (number d) = d < 2 ^ 64
  IsPlain (object es) = IsPlainAfter no_entries es
  IsPlain (array xs) = AreItemsPlain xs
  IsPlain v = Unit

  -- `before` are the properties that stand before these.
  pub IsPlainAfter : Entries → Entries → Type 0
  IsPlainAfter before no_entries = Unit
  IsPlainAfter before (entry key v es) =
      IsText key
      × (is_kept key v ≡ true)
      × (has_key key before ≡ false)
      × IsPlain v
      × IsPlainAfter (put key v before) es

  pub AreItemsPlain : Items → Type 0
  AreItemsPlain no_items = Unit
  AreItemsPlain (item v xs) = IsPlain v × AreItemsPlain xs

abbrev pub IsPlainStruct : Entries → Type 0
IsPlainStruct es = IsPlainAfter no_entries es

module _ (lib : Protobuf) where
  abbrev pub encoded : Outcome Value → Outcome (List ℕ)
  encoded (resolved m) = encode_value lib m
  encoded (rejected e) = rejected e

  ⊕-nil : (w : Outcome (List ℕ)) → w ⊕ resolved [] ≡ w
  ⊕-nil (resolved bs) = ap resolved (append-nil bs)
  ⊕-nil (rejected e) = refl

  ⊕-nil_left : (w : Outcome (List ℕ)) → resolved [] ⊕ w ≡ w
  ⊕-nil_left (resolved bs) = refl
  ⊕-nil_left (rejected e) = refl

  -- Writing a value is wrapping it and encoding what that gives.
  pub encode_content-wrap : (v : Any) → encode_content lib v ≡ encoded (wrap v)
  unfolding encode_content encode_value wrap message_field
  encode_content-wrap undefined = refl
  encode_content-wrap null = sym (⊕-nil _)
  encode_content-wrap (boolean b) = ap resolved (sym (append-nil _))
  encode_content-wrap (number d) = ap resolved (sym (append-nil _))
  encode_content-wrap (text s) = ap resolved (sym (append-nil _))
  encode_content-wrap (array xs) = sym (simp (⊕-nil_left))
  encode_content-wrap (object es) = sym (simp (⊕-nil_left, ⊕-nil))
  encode_content-wrap (other type) = refl

resolved_injective : {A : Type 0} {v w : A} → resolved v ≡ resolved w → v ≡ w
resolved_injective h = cc h

-- What was wrapped is what unwrapping gives.
pub unwrap-wrap : (v : Any) (m : Value) → wrap v ≡ resolved m → unwrap m ≡ v
unfolding wrap unwrap
unwrap-wrap undefined m h = subst (λ x. unwrap x ≡ undefined) (resolved_injective h) refl
unwrap-wrap null m h = subst (λ x. unwrap x ≡ null) (resolved_injective h) refl
unwrap-wrap (boolean b) m h = subst (λ x. unwrap x ≡ boolean b) (resolved_injective h) refl
unwrap-wrap (number d) m h = subst (λ x. unwrap x ≡ number d) (resolved_injective h) refl
unwrap-wrap (text s) m h = subst (λ x. unwrap x ≡ text s) (resolved_injective h) refl
unwrap-wrap (array xs) m h = subst (λ x. unwrap x ≡ array xs) (resolved_injective h) refl
unwrap-wrap (object es) m h = subst (λ x. unwrap x ≡ object es) (resolved_injective h) refl
unwrap-wrap (other type) m h = absurd (cc)

-- One object's properties behind another's.
unfoldable pub behind : Entries → Entries → Entries
behind no_entries es = es
behind (entry k v ds) es = entry k v (behind ds es)

pub behind-nil : (es : Entries) → behind es no_entries ≡ es
unfolding behind
behind-nil no_entries = refl
behind-nil (entry k v es) = ap (entry k v) (behind-nil es)

behind_assoc : (ds es fs : Entries) → behind (behind ds es) fs ≡ behind ds (behind es fs)
unfolding behind
behind_assoc no_entries es fs = refl
behind_assoc (entry k v ds) es fs = ap (entry k v) (behind_assoc ds es fs)

pub put-new :
    (key : Text) (v : Any) (es : Entries)
    → has_key key es ≡ false
    → put key v es ≡ behind es (entry key v no_entries)
unfolding has_key put behind
put-new key v no_entries h = refl
put-new key v (entry k w es) h = ground (arith, put-new key v es)

pub assign-kept :
    (key : Text) (v : Any) (es : Entries) → is_kept key v ≡ true → assign key v es ≡ put key v es
unfolding is_kept assign
assign-kept key v es h = ground arith

pub add_entry-kept :
    (key : Text) (v : Any) (es : Entries)
    → is_kept key v ≡ true
    → add_entry (record { key = key; value = v }) es ≡ put key v es
unfolding is_kept add_entry assign
add_entry-kept key v es h = ground arith

pub behind-put :
    (key : Text) (v : Any) (before es : Entries)
    → has_key key before ≡ false
    → behind (put key v before) es ≡ behind before (entry key v es)
unfolding behind
behind-put key v before es h =
    rw (put-new key v before h) (behind_assoc before (entry key v no_entries) es)

-- Copying plain properties, one after the other, puts them behind those that are there.
assign_all-behind :
    (before es : Entries) → IsPlainAfter before es → assign_all es before ≡ behind before es
unfolding assign_all IsPlain
assign_all-behind before no_entries h = sym (behind-nil before)
assign_all-behind before (entry key v es) h =
    rw (assign-kept key v before h.1)
      (assign_all-behind (put key v before) es h.4 ∙ behind-put key v before es h.2)

-- An object's plain properties are what their copy has.
pub copied-IsPlainStruct : (es : Entries) → IsPlainStruct es → copied es ≡ es
unfolding copied behind
copied-IsPlainStruct es h = assign_all-behind no_entries es h

unfoldable pub items_behind : Items → Items → Items
items_behind no_items xs = xs
items_behind (item v ys) xs = item v (items_behind ys xs)

pub items_behind-nil : (xs : Items) → items_behind xs no_items ≡ xs
unfolding items_behind
items_behind-nil no_items = refl
items_behind-nil (item v xs) = ap (item v) (items_behind-nil xs)

pub items_behind-push :
    (v : Any) (before xs : Items)
    → items_behind (push v before) xs ≡ items_behind before (item v xs)
unfolding items_behind push
items_behind-push v no_items xs = refl
items_behind-push v (item w ys) xs = ap (item w) (items_behind-push v ys xs)
