-- ===== src/Wire/Statements.antt =====
-- typescript/src/gen: what a message's `encode` writes for each field, its `decode` takes in.
use signet_clients.Prelude.{
  ℕ, zero, suc, ◌+◌, ◌^◌, Bool, true, false, Option, none, some, List, [], ◌∷◌, ◌++◌, append_assoc,
  length, length-append, ltb, ltb→lt, ◌≡◌, refl, sym, ap, subst, arith,
}
use signet_clients.Prelude.Int.{ℤ, pos, negsuc}
use signet_clients.Runtime.{Text, Outcome, resolved, rejected}
use signet_clients.Wire.{Reader, Protobuf, Get, Fields, ok, call, pure, ◌>>=◌}
use signet_clients.Wire.Laws.{IsLawful, IsText, ReadsBack, reader_at}
use signet_clients.Wire.Fields.{
  ◌⊕◌, joined, string_field, bytes_field, bool_field, int32_field, int64_field, message_field,
  optional_bytes_field, into, nested, into_message,
}
use signet_clients.Wire.Feeding.{Gets, Eats, Writes, Eats-nil, Eats-field}

-- A field's call reads what the writer's operation wrote.
pub into-Gets :
    {A M : Type 0} (read : Reader → Outcome (A × Reader)) (set : A → M) (bs : List ℕ) {v : A}
    → ReadsBack read bs v
    → Gets (call read >>= λ x. pure (set x)) bs (set v)
into-Gets read set bs back p more = rw (◌>>=◌, call, back p more) refl

pub Writes-of :
    {lib : Protobuf} {M : Type 0} {fields : Fields M} {bs : List ℕ} {m m' : M}
    → Eats lib fields bs m m'
    → Writes lib fields (resolved bs) m m'
Writes-of {lib} {fields} {m} {m'} e = record {
  eats = λ cs h. subst (λ x. Eats lib fields x m m') (cc h) e;
}

pub joined_cases :
    (join : List ℕ → Outcome (List ℕ)) (w : Outcome (List ℕ)) (bs : List ℕ)
    → joined join w ≡ resolved bs
    → (chunk : List ℕ) × (w ≡ resolved chunk) × (join chunk ≡ resolved bs)
joined_cases join (resolved chunk) bs h = (chunk, refl, h)
joined_cases join (rejected e) bs h = absurd (cc)

sized-Gets :
    (lib : Protobuf) {A M : Type 0} (decode_in : Option ℕ → Get A) (set : A → M)
    (size chunk : List ℕ) {a : A}
    → ReadsBack lib.uint32 size (length chunk)
    → Gets (decode_in (some (length chunk))) chunk a
    → Gets (nested lib decode_in set) (size ++ chunk) (set a)
sized-Gets lib decode_in set size chunk {a} sized back p more =
    rw (append_assoc, ◌>>=◌, call, sized p (chunk ++ more), back (p + length size) more)
      (ap (λ q. ok (set a) (reader_at q more)) (omega (arith, length-append size chunk)))

-- The message that comes out may be written another way.
pub Writes-eq :
    {lib : Protobuf} {M : Type 0} {fields : Fields M} {w : Outcome (List ℕ)} {m m' m'' : M}
    → Writes lib fields w m m'
    → m' ≡ m''
    → Writes lib fields w m m''
Writes-eq {lib} {fields} {w} {m} writes e = subst (λ x. Writes lib fields w m x) e writes

pub empty-Writes :
    {lib : Protobuf} {M : Type 0} {fields : Fields M} (m : M) → Writes lib fields (resolved []) m m
empty-Writes m = Writes-of (Eats-nil m)

module _ {lib : Protobuf} (laws : IsLawful lib) {M : Type 0} {fields : Fields M} (tag : ℕ)
    (small : ltb tag (2 ^ 32) ≡ true) where
  pub string-Writes :
      (s : Text) (set : Text → M)
      → IsText s
      → fields tag (set []) ≡ into lib.string set
      → Writes lib fields (string_field lib tag s) (set []) (set s)
  unfolding string_field
  string-Writes [] set text h = Writes-of (Eats-nil (set []))
  string-Writes (c ∷ s) set text h = Writes-of (
      Eats-field laws tag _ _ (ltb→lt _ _ small) h
        (into-Gets lib.string set _ (laws.string_back (c ∷ s) text)))

  pub bytes-Writes :
      (bs : List ℕ) (set : List ℕ → M)
      → fields tag (set []) ≡ into lib.bytes set
      → Writes lib fields (bytes_field lib tag bs) (set []) (set bs)
  unfolding bytes_field
  bytes-Writes [] set h = Writes-of (Eats-nil (set []))
  bytes-Writes (b ∷ bs) set h = Writes-of (
      Eats-field laws tag _ _ (ltb→lt _ _ small) h
        (into-Gets lib.bytes set _ (laws.bytes_back (b ∷ bs))))

  pub bool-Writes :
      (b : Bool) (set : Bool → M)
      → fields tag (set false) ≡ into lib.bool set
      → Writes lib fields (bool_field lib tag b) (set false) (set b)
  unfolding bool_field
  bool-Writes false set h = Writes-of (Eats-nil (set false))
  bool-Writes true set h = Writes-of (
      Eats-field laws tag _ _ (ltb→lt _ _ small) h (into-Gets lib.bool set _ (laws.bool_back true)))

  -- An operation that may throw.
  pub tagged-Writes :
      {m m' : M} (get : Get M) (w : Outcome (List ℕ))
      → fields tag m ≡ some get
      → ((bs : List ℕ) → w ≡ resolved bs → Gets get bs m')
      → Writes lib fields (resolved (lib.write_uint32 tag) ⊕ w) m m'
  tagged-Writes get (resolved bs) h back =
      Writes-of (Eats-field laws tag bs get (ltb→lt _ _ small) h (back bs refl))
  tagged-Writes get (rejected e) h back = record { eats = λ cs k. absurd (cc) }

  pub int32-Writes :
      (v : ℤ) (set : ℤ → M)
      → fields tag (set (pos 0)) ≡ into lib.int32 set
      → Writes lib fields (int32_field lib tag v) (set (pos 0)) (set v)
  unfolding int32_field
  int32-Writes (pos zero) set h = Writes-of (Eats-nil (set (pos 0)))
  int32-Writes (pos (suc n)) set h =
      tagged-Writes _ _ h (λ bs k. into-Gets lib.int32 set _ (laws.int32_back (pos (suc n)) bs k))
  int32-Writes (negsuc n) set h =
      tagged-Writes _ _ h (λ bs k. into-Gets lib.int32 set _ (laws.int32_back (negsuc n) bs k))

  -- The reading call may refuse more than the package's does.
  pub int64-Writes :
      (read : Reader → Outcome (ℤ × Reader)) (v : ℤ) (set : ℤ → M)
      → ((bs : List ℕ) → lib.write_int64 v ≡ resolved bs → ReadsBack read bs v)
      → fields tag (set (pos 0)) ≡ into read set
      → Writes lib fields (int64_field lib tag v) (set (pos 0)) (set v)
  unfolding int64_field
  int64-Writes read (pos zero) set back h = Writes-of (Eats-nil (set (pos 0)))
  int64-Writes read (pos (suc n)) set back h =
      tagged-Writes _ _ h (λ bs k. into-Gets read set bs (back bs k))
  int64-Writes read (negsuc n) set back h =
      tagged-Writes _ _ h (λ bs k. into-Gets read set bs (back bs k))

  pub one_message-Writes :
      {A : Type 0} (encode : A → Outcome (List ℕ)) (decode_in : Option ℕ → Get A) (a : A) (m : M)
      (set : A → M)
      → ((bs : List ℕ) → encode a ≡ resolved bs → Gets (decode_in (some (length bs))) bs a)
      → fields tag m ≡ into_message lib decode_in set
      → Writes lib fields (message_field lib tag encode (some a)) m (set a)
  unfolding message_field
  one_message-Writes encode decode_in a m set back h = tagged-Writes _ _ h λ bs k.
      let (chunk, made, joins) = joined_cases lib.join (encode a) bs k in
      let (size, parts, sized) = laws.join_back chunk bs joins in
      subst (λ xs. Gets (nested lib decode_in set) xs (set a)) (sym parts)
        (sized-Gets lib decode_in set size chunk sized (back chunk made))

  pub message-Writes :
      {A : Type 0} (encode : A → Outcome (List ℕ)) (decode_in : Option ℕ → Get A) (o : Option A)
      (set : Option A → M)
      → ((a : A) (bs : List ℕ)
          → o ≡ some a
          → encode a ≡ resolved bs
          → Gets (decode_in (some (length bs))) bs a)
      → fields tag (set none) ≡ into_message lib decode_in (λ a. set (some a))
      → Writes lib fields (message_field lib tag encode o) (set none) (set o)
  unfolding message_field
  message-Writes encode decode_in none set back h = Writes-of (Eats-nil (set none))
  message-Writes encode decode_in (some a) set back h =
      one_message-Writes encode decode_in a (set none) (λ x. set (some x)) (λ bs. back a bs refl) h

  pub optional_bytes-Writes :
      (o : Option (List ℕ)) (set : Option (List ℕ) → M)
      → fields tag (set none) ≡ into lib.bytes (λ v. set (some v))
      → Writes lib fields (optional_bytes_field lib tag o) (set none) (set o)
  unfolding optional_bytes_field
  optional_bytes-Writes none set h = Writes-of (Eats-nil (set none))
  optional_bytes-Writes (some bs) set h = Writes-of (
      Eats-field laws tag _ _ (ltb→lt _ _ small) h
        (into-Gets lib.bytes (λ v. set (some v)) _ (laws.bytes_back bs)))
