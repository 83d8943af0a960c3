-- ===== src/Wire/Samples.antt =====
-- A package that keeps the laws: a number is one unit, and a text or a list of bytes stands behind its
-- length. The tests and witnesses of the generated messages are run with it.
use signet_clients.Prelude.{
  ℕ, zero, suc, ◌+◌, ◌*◌, ◌/◌, ◌%◌, ◌^◌, ◌≤◌, ◌<◌, Bool, true, false, ◌&&◌, List, [], ◌∷◌, ◌++◌,
  ◌==◌, leb, ltb, length, length-append, take, drop, take-append_length, drop-append_length, ◌≡◌,
  refl, ap, subst, ◌∙◌, arith, Bool-cases, inl, inr, if◌then◌else◌,
}
use signet_clients.Prelude.Int.{ℤ, pos, negsuc, pos_part, neg_part}
use signet_clients.Runtime.{codes, JsValue, error, new_error, Outcome, resolved, rejected}
use signet_clients.Wire.{Reader, Protobuf}
use signet_clients.Wire.Laws.{IsLawful, ReadsOn, ReadsBack, GoesOn, reader_at}

abbrev failure : JsValue
failure = error (new_error (codes "premature EOF"))

abbrev pub read_number : Reader → Outcome (ℕ × Reader)
read_number r = elim r.rest [
  | [] ↦ rejected failure
  | n ∷ bs ↦ resolved (n, reader_at (suc r.pos) bs)
]

abbrev read_chunk : Reader → Outcome (List ℕ × Reader)
read_chunk r = elim r.rest [
  | [] ↦ rejected failure
  | n ∷ bs ↦
      if leb n (length bs)
      then resolved (take n bs, reader_at (r.pos + suc n) (drop n bs))
      else rejected failure
]

abbrev write_chunk : List ℕ → List ℕ
write_chunk bs = length bs ∷ bs

-- The integers, one after the other, on both sides of zero.
abbrev zigzag : ℤ → ℕ
zigzag (pos n) = n * 2
zigzag (negsuc n) = n * 2 + 1

abbrev unzigzag : ℕ → ℤ
unzigzag n = if n % 2 == 0 then pos (n / 2) else negsuc (n / 2)

abbrev map_read : {A B : Type 0} → (A → B) → Outcome (A × Reader) → Outcome (B × Reader)
map_read f (rejected e) = rejected e
map_read f (resolved p) = resolved (f p.0, p.1)

abbrev write_int : ℕ → ℤ → Outcome (List ℕ)
write_int limit v =
    if ltb (pos_part v) limit && leb (neg_part v) limit
    then resolved (zigzag v ∷ [])
    else rejected failure

abbrev write_joined : List ℕ → Outcome (List ℕ)
write_joined bs = if ltb (length bs) (2 ^ 32) then resolved (write_chunk bs) else rejected failure

abbrev skip_field : Bool → Reader → Outcome (Unit {0} × Reader)
skip_field true r = map_read (λ _. tt) (read_chunk r)
skip_field false r = map_read (λ _. tt) (read_number r)

abbrev pub sample_package : Protobuf
sample_package = record {
  uint32 = read_number;
  string = read_chunk;
  bytes = read_chunk;
  int32 = λ r. map_read unzigzag (read_number r);
  int64 = λ r. map_read unzigzag (read_number r);
  bool = λ r. map_read (λ n. n == 1) (read_number r);
  double = read_number;
  skip = λ type. skip_field (type == 2);
  write_uint32 = λ n. n ∷ [];
  write_string = write_chunk;
  write_bytes = write_chunk;
  write_int32 = write_int (2 ^ 31);
  write_int64 = write_int (2 ^ 63);
  write_bool = λ b. (if b then 1 else 0) ∷ [];
  write_double = λ d. d ∷ [];
  join = write_joined;
  not_a_number = failure;
}

pub number_back : (n : ℕ) → ReadsBack read_number (n ∷ []) n
number_back n p more =
    ap (λ q. resolved (n, reader_at q more)) (let e : suc p ≡ p + 1 = omega arith in e)

chunk_back : (bs : List ℕ) → ReadsBack read_chunk (write_chunk bs) bs
chunk_back bs p more =
    rw
      (
        let fits : leb (length bs) (length (bs ++ more)) ≡ true =
              ground (arith, length-append bs more) in
            fits,
        take-append_length bs more,
        drop-append_length bs more,
      )
      refl

pub map_back :
    {A B : Type 0} (read : Reader → Outcome (A × Reader)) (f : A → B) (bs : List ℕ) (a : A) (b : B)
    → ReadsBack read bs a
    → f a ≡ b
    → ReadsBack (λ r. map_read f (read r)) bs b
map_back read f bs a b back e p more =
    ap (map_read f) (back p more) ∙ ap (λ c. resolved (c, reader_at (p + length bs) more)) e

unzigzag-zigzag : (v : ℤ) → unzigzag (zigzag v) ≡ v
unzigzag-zigzag (pos n) = ground arith
unzigzag-zigzag (negsuc n) = ground arith

written_int :
    (limit : ℕ) (v : ℤ) (bs : List ℕ) → write_int limit v ≡ resolved bs → zigzag v ∷ [] ≡ bs
written_int limit v bs h = ground arith

int_back :
    (limit : ℕ) (v : ℤ) (bs : List ℕ)
    → write_int limit v ≡ resolved bs
    → ReadsBack (λ r. map_read unzigzag (read_number r)) bs v
int_back limit v bs h =
    subst (λ xs. ReadsBack (λ r. map_read unzigzag (read_number r)) xs v) (written_int limit v bs h)
      (map_back read_number unzigzag (zigzag v ∷ []) (zigzag v) v (number_back (zigzag v))
        (unzigzag-zigzag v))

int_in_range :
    (limit : ℕ) (v : ℤ)
    → pos_part v < limit
    → neg_part v ≤ limit
    → (bs : List ℕ) × (write_int limit v ≡ resolved bs)
int_in_range limit v h k = (zigzag v ∷ [], ground arith)

int_out_of_range :
    (limit : ℕ) (v : ℤ)
    → (((pos_part v < limit) × (neg_part v ≤ limit)) → ⊥)
    → (e : JsValue) × (write_int limit v ≡ rejected e)
int_out_of_range limit v h = (failure, ground arith)

-- What is left after a call, by the bytes that it found.
number_shorter :
    (bs : List ℕ) (p n : ℕ) (r : Reader)
    → read_number (reader_at p bs) ≡ resolved (n, r)
    → length r.rest < length bs
number_shorter [] p n r h = absurd (cc)
number_shorter (b ∷ bs) p n r h = let e : bs ≡ r.rest = cc h in omega (arith, ap length e)

drop_shorter : (n : ℕ) (bs : List ℕ) → length (drop n bs) ≤ length bs
drop_shorter zero bs = omega arith
drop_shorter (suc n) [] = omega arith
drop_shorter (suc n) (b ∷ bs) = omega (arith, drop_shorter n bs)

chunk_shorter :
    (bs : List ℕ) (p : ℕ) (cs : List ℕ) (r : Reader)
    → read_chunk (reader_at p bs) ≡ resolved (cs, r)
    → length r.rest ≤ length bs
chunk_shorter [] p cs r h = absurd (cc)
chunk_shorter (b ∷ bs) p cs r h = elim (Bool-cases (leb b (length bs))) [
  | inl fits ↦
      let k : ◌≡◌ {A = Outcome (List ℕ × Reader)}
          (resolved (take b bs, reader_at (p + suc b) (drop b bs))) (resolved (cs, r)) =
        rw fits at h in
      let e : drop b bs ≡ r.rest = cc k in omega (arith, ap length e, drop_shorter b bs)
  | inr short ↦ let k : rejected failure ≡ resolved (cs, r) = rw short at h in absurd (cc k)
]

map_shorter :
    {A B : Type 0} (o : Outcome (A × Reader)) (f : A → B) (n : ℕ)
    → ((a : A) (r : Reader) → o ≡ resolved (a, r) → length r.rest ≤ n)
    → (b : B) (r : Reader) → map_read f o ≡ resolved (b, r)
    → length r.rest ≤ n
map_shorter (rejected e) f n shorter b r h = absurd (cc)
map_shorter (resolved p) f n shorter b r h =
    let e : p.1 ≡ r = cc h in subst (λ q. length q.rest ≤ n) e (shorter p.0 p.1 refl)

number-GoesOn : GoesOn read_number
number-GoesOn r n r' h = omega (arith, number_shorter r.rest r.pos n r' h)

chunk-GoesOn : GoesOn read_chunk
chunk-GoesOn r bs r' h = chunk_shorter r.rest r.pos bs r' h

map-GoesOn :
    {A B : Type 0} (read : Reader → Outcome (A × Reader)) (f : A → B)
    → GoesOn read
    → GoesOn (λ r. map_read f (read r))
map-GoesOn read f on r b r' h = map_shorter (read r) f (length r.rest) (on r) b r' h

skip-GoesOn : (delimited : Bool) → GoesOn (skip_field delimited)
skip-GoesOn true = map-GoesOn read_chunk (λ _. tt) chunk-GoesOn
skip-GoesOn false = map-GoesOn read_number (λ _. tt) number-GoesOn

bool_back :
    (b : Bool)
    → ReadsBack (λ r. map_read (λ n. n == 1) (read_number r)) ((if b then 1 else 0) ∷ []) b
bool_back true = map_back read_number (λ n. n == 1) (1 ∷ []) 1 true (number_back 1) refl
bool_back false = map_back read_number (λ n. n == 1) (0 ∷ []) 0 false (number_back 0) refl

joined_back :
    (chunk bs : List ℕ)
    → write_joined chunk ≡ resolved bs
    → (size : List ℕ) × (bs ≡ size ++ chunk) × ReadsBack read_number size (length chunk)
joined_back chunk bs h = (length chunk ∷ [], ground arith, number_back (length chunk))

pub sample_package-ReadsOn : ReadsOn sample_package
sample_package-ReadsOn = record {
  uint32_advances = λ r n r' h. number_shorter r.rest r.pos n r' h;
  string_goes_on = chunk-GoesOn;
  bytes_goes_on = chunk-GoesOn;
  int32_goes_on = map-GoesOn read_number unzigzag number-GoesOn;
  int64_goes_on = map-GoesOn read_number unzigzag number-GoesOn;
  bool_goes_on = map-GoesOn read_number (λ n. n == 1) number-GoesOn;
  double_goes_on = number-GoesOn;
  skip_goes_on = λ type. skip-GoesOn (type == 2);
}

pub sample_package-IsLawful : IsLawful sample_package
sample_package-IsLawful = record {
  uint32_back = λ n small. number_back n;
  string_back = λ s is_text. chunk_back s;
  bytes_back = chunk_back;
  bool_back = bool_back;
  double_back = λ d small. number_back d;
  int32_back = int_back (2 ^ 31);
  int32_in_range = λ v range. int_in_range (2 ^ 31) v range.0 range.1;
  int32_out_of_range = int_out_of_range (2 ^ 31);
  int64_back = int_back (2 ^ 63);
  int64_in_range = λ v range. int_in_range (2 ^ 63) v range.0 range.1;
  join_back = joined_back;
  join_short = λ chunk short. (write_chunk chunk, ground arith);
  reads_on = sample_package-ReadsOn;
}
