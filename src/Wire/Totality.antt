-- ===== src/Wire/Totality.antt =====
-- typescript/src/gen: `decode` comes to an end on every input, by returning or by throwing.
use signet_clients.Prelude.{
  ℕ, zero, suc, ◌%◌, ◌≤◌, ◌<◌, Bool, true, false, Option, none, some, length, ltb, ◌≡◌, ◌≢◌, refl,
  subst, arith, if◌then◌else◌, Bool-cases, Option-cases, ◌⊎◌, inl, inr,
}
use signet_clients.Runtime.{JsValue, Outcome, resolved, rejected}
use signet_clients.Wire.{
  Reader, Protobuf, Read, Get, Fields, ok, thrown, spent, call, pure, ◌>>=◌, ends_message,
  decode_loop, after_tag, decode_message,
}
use signet_clients.Wire.Laws.{ReadsOn, GoesOn}
use signet_clients.Wire.Fields.{into, into_message}

-- The call has come to an end, with fewer bytes left.
abbrev pub Ends : {A : Type 0} → ℕ → Read A → Type 0
Ends n (ok v r) = length r.rest < n
Ends n (thrown e) = Unit
Ends n spent = ⊥

abbrev pub AlwaysEnds : {A : Type 0} → Get A → Type 0
AlwaysEnds get = (r : Reader) → Ends (suc (length r.rest)) (get r)

-- The same of the call that a field has, if it has one.
abbrev pub FieldEnds : {M : Type 0} → Option (Get M) → Type 0
FieldEnds none = Unit
FieldEnds (some get) = AlwaysEnds get

Ends-le : {A : Type 0} (n k : ℕ) (x : Read A) → n ≤ k → Ends n x → Ends k x
Ends-le n k (ok v r) h e = omega arith
Ends-le n k (thrown x) h e = tt
Ends-le n k spent h e = absurd e

pub Outcome-cases :
    {A : Type 0} (o : Outcome A) → ((v : A) × (o ≡ resolved v)) ⊎ ((e : JsValue) × (o ≡ rejected e))
Outcome-cases (resolved v) = inl (v, refl)
Outcome-cases (rejected e) = inr (e, refl)

Ends-bind :
    {A B : Type 0} (n : ℕ) (x : Read A) (f : A → Get B)
    → Ends n x
    → ((v : A) (r : Reader) → length r.rest < n → Ends n (f v r))
    → Ends n (elim x [ ok v r ↦ f v r | thrown e ↦ thrown e | spent ↦ spent ])
Ends-bind n (ok v r) f h k = k v r h
Ends-bind n (thrown e) f h k = tt
Ends-bind n spent f h k = absurd h

pub AlwaysEnds-bind :
    {A B : Type 0} (m : Get A) (f : A → Get B)
    → AlwaysEnds m
    → ((v : A) → AlwaysEnds (f v))
    → AlwaysEnds (m >>= f)
AlwaysEnds-bind m f h k r =
    Ends-bind (suc (length r.rest)) (m r) f (h r) (λ v r' le. Ends-le _ _ (f v r') le (k v r'))

pub AlwaysEnds-call :
    {A : Type 0} (read : Reader → Outcome (A × Reader)) → GoesOn read → AlwaysEnds (call read)
AlwaysEnds-call read on r = elim (Outcome-cases (read r)) [
  | inl (p, e) ↦ rw (call, e) (omega (arith, on r p.0 p.1 e))
  | inr (x, e) ↦ rw (call, e) tt
]

pub FieldEnds-into :
    {A M : Type 0} (read : Reader → Outcome (A × Reader)) (set : A → M)
    → GoesOn read
    → FieldEnds (into read set)
FieldEnds-into read set on =
    AlwaysEnds-bind (call read) (λ v. pure (set v)) (AlwaysEnds-call read on) (λ v r. omega arith)

pub FieldEnds-message :
    {lib : Protobuf} (onward : ReadsOn lib) {A M : Type 0} (decode_in : Option ℕ → Get A)
    (set : A → M)
    → ((size : Option ℕ) → AlwaysEnds (decode_in size))
    → FieldEnds (into_message lib decode_in set)
FieldEnds-message {lib} onward decode_in set ends =
    AlwaysEnds-bind (call lib.uint32) (λ n. (decode_in (some n) >>= λ m. pure (set m)))
      (AlwaysEnds-call lib.uint32 (λ r n r' e. omega (arith, onward.uint32_advances r n r' e)))
      (λ n.
        AlwaysEnds-bind (decode_in (some n)) (λ m. pure (set m)) (ends (some n))
          (λ m r. omega arith))

pub FieldEnds-if :
    {M : Type 0} (b : Bool) (f g : Option (Get M))
    → FieldEnds f
    → FieldEnds g
    → FieldEnds (if b then f else g)
FieldEnds-if true f g h k = h
FieldEnds-if false f g h k = k

module _ {lib : Protobuf} (onward : ReadsOn lib) where
  tag-Ends : (r : Reader) → Ends (length r.rest) (call lib.uint32 r)
  tag-Ends r = elim (Outcome-cases (lib.uint32 r)) [
    | inl (p, e) ↦ rw (call, e) (onward.uint32_advances r p.0 p.1 e)
    | inr (x, e) ↦ rw (call, e) tt
  ]

  module _ {M : Type 0} (fields : Fields M)
      (ends : (tag : ℕ) (m : M) → FieldEnds (fields tag m)) where
    -- What follows the tag in a round.
    after_tag-Ends :
        (next : M → Get M) (tag : ℕ) (m : M) (r : Reader)
        → ((m' : M) (r' : Reader)
            → length r'.rest < suc (length r.rest)
            → Ends (suc (length r.rest)) (next m' r'))
        → Ends (suc (length r.rest)) (after_tag lib fields next tag m r)
    after_tag-Ends next tag m r h = elim (Option-cases (fields tag m)) [
      | inr (get, known) ↦
          rw (after_tag, known) (Ends-bind _ (get r) next (subst FieldEnds known (ends tag m) r) h)
      | inl unknown ↦
          rw (after_tag, unknown)
            (elim (Bool-cases (ends_message tag)) [
              | inl last ↦ rw last (omega arith)
              | inr more ↦ rw more (
                  Ends-bind _ (call (lib.skip (tag % 8)) r) (λ _. next m)
                    (AlwaysEnds-call _ (onward.skip_goes_on (tag % 8)) r) (λ _. h m))
            ])
    ]

    decode_loop-Ends :
        (fuel end : ℕ) (m : M) (r : Reader)
        → length r.rest < fuel
        → Ends (suc (length r.rest)) (decode_loop lib fields fuel end m r)
    unfolding decode_loop
    decode_loop-Ends zero end m r h = absurd (omega arith)
    decode_loop-Ends (suc fuel) end m r h = elim (Bool-cases (ltb r.pos end)) [
      | inr done ↦ rw done (omega arith)
      | inl more ↦ rw more (
          Ends-le (length r.rest) _ _ (omega arith) (
            Ends-bind (length r.rest) (call lib.uint32 r) _ (tag-Ends r) (λ tag r' le.
              Ends-le _ _ _ le (
                after_tag-Ends (decode_loop lib fields fuel end) tag m r' (λ m' s le'.
                  Ends-le _ _ _ (omega arith) (decode_loop-Ends fuel end m' s (omega arith)))))))
    ]

  -- At whatever depth and for whatever bytes, the call returns a message or throws.
  pub decode_message-AlwaysEnds :
      {M : Type 0} (fields : ℕ → Fields M) (base : M)
      → ((levels tag : ℕ) (m : M) → FieldEnds (fields levels tag m))
      → (levels : ℕ) (size : Option ℕ) → AlwaysEnds (decode_message lib fields base levels size)
  unfolding decode_message
  decode_message-AlwaysEnds fields base ends zero size r = tt
  decode_message-AlwaysEnds fields base ends (suc levels) size r =
      decode_loop-Ends (fields levels) (ends levels) (suc (length r.rest)) _ base r (omega arith)

pub AlwaysEnds-ne-spent : {A : Type 0} (get : Get A) → AlwaysEnds get → (r : Reader) → get r ≢ spent
AlwaysEnds-ne-spent get ends r e = subst (Ends (suc (length r.rest))) e (ends r)
