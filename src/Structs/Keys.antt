-- ===== src/Structs/Keys.antt =====
-- typescript/src/gen/google/protobuf/struct.ts: which keys an object has after an assignment.
use signet_clients.Prelude.{true, false, ◌||◌, Bool, Bool-cases, inl, inr, ◌≡◌, refl, sym, ◌∙◌}
use signet_clients.Runtime.{Text}
use signet_clients.Strings.{same_text}
use signet_clients.Strings.Equality.{same_text-eq}
use signet_clients.Structs.{
  Any, Entries, no_entries, entry, has_key, put, is_proto, assign, is_kept,
}
use signet_clients.Structs.Wrapping.{assign-kept}
use signet_clients.Structs.Fusing.{assign-proto, assign-other}

or_self : (a b : Bool) → (a || b) ≡ (a || (a || b))
or_self true b = refl
or_self false b = refl

or_swap : (a b c : Bool) → (a || (b || c)) ≡ (b || (a || c))
or_swap true true c = refl
or_swap true false c = refl
or_swap false b c = refl

or-false : (a b : Bool) → (a || b) ≡ false → (a ≡ false) × (b ≡ false)
or-false true b h = absurd (cc)
or-false false b h = (refl, h)

-- Every key that is not among the one object's properties is not among the other's.
abbrev pub Misses : Entries → Entries → Type 0
Misses before others = (k : Text) → has_key k before ≡ false → has_key k others ≡ false

has_key-put :
    (k key : Text) (v : Any) (es : Entries)
    → has_key k (put key v es) ≡ (same_text k key || has_key k es)
unfolding has_key put
has_key-put k key v no_entries = refl
has_key-put k key v (entry j w es) = elim (Bool-cases (same_text key j)) [
  | inl same ↦ rw (same, same_text-eq key j same) (or_self (same_text k j) (has_key k es))
  | inr differ ↦ rw (differ, has_key-put k key v es) (or_swap (same_text k j) (same_text k key) _)
]

Misses-put :
    (key : Text) (v w : Any) (before others : Entries)
    → Misses before others
    → Misses (put key v before) (put key w others)
Misses-put key v w before others misses k absent =
    let (other_key, free) =
      or-false (same_text k key) (has_key k before) (sym (has_key-put k key v before) ∙ absent) in
    has_key-put k key w others ∙ rw (other_key, misses k free) refl

Misses-skip :
    (key : Text) (v : Any) (before others : Entries)
    → Misses before others
    → Misses (put key v before) others
Misses-skip key v before others misses k absent =
    misses k
      (or-false (same_text k key) (has_key k before) (sym (has_key-put k key v before) ∙ absent)).1

pub Misses-assign :
    (key : Text) (v : Any) (before others : Entries)
    → Misses before others
    → Misses (assign key v before) others
Misses-assign key v before others misses = elim (Bool-cases (is_proto key)) [
  | inl lost ↦ rw (assign-proto key v before lost) misses
  | inr made ↦ rw (assign-other key v before made) (Misses-skip key v before others misses)
]

pub Misses-assign_kept :
    (key : Text) (v w : Any) (before others : Entries)
    → Misses before others
    → is_kept key v ≡ true
    → Misses (assign key v before) (put key w others)
Misses-assign_kept key v w before others misses kept =
    rw (assign-kept key v before kept) (Misses-put key v w before others misses)
