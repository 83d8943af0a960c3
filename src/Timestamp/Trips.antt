-- ===== src/Timestamp/Trips.antt =====
-- typescript/src/gen: timestamps and dates that are written and read back, and the end of every read.
use signet_clients.Prelude.{
  ℕ, true, ltb, ◌^◌, zero, suc, ◌/◌, ◌+◌, ◌≤◌, Option, none, some, List, length, ◌==◌, ◌≡◌, refl,
  subst, ◌∙◌, arith, ap,
}
use signet_clients.Prelude.Int.{ℤ, pos, negsuc, neg}
use signet_clients.Runtime.{Outcome, resolved, rejected}
use signet_clients.Wire.{Reader, Protobuf, Fields, ok, pure, ◌>>=◌}
use signet_clients.Wire.Laws.{IsLawful, ReadsOn, ReadsBack, GoesOn, reader_at}
use signet_clients.Wire.Fields.{message_field, into_message}
use signet_clients.Wire.Feeding.{Gets, Writes, Writes-then}
use signet_clients.Wire.Reading.{decode_message-Gets}
use signet_clients.Wire.Updates.{started}
use signet_clients.Wire.Statements.{int32-Writes, int64-Writes, message-Writes}
use signet_clients.Wire.Totality.{
  AlwaysEnds, FieldEnds-if, FieldEnds-into, AlwaysEnds-bind, decode_message-AlwaysEnds,
}
use signet_clients.Timestamp.{
  Timestamp, Date, date, invalid_date, create_base, encode, decode, read_field, safe_int64,
  checked_long, long_to_number, to_timestamp, from_timestamp, encode_date, decode_date,
  max_safe_integer,
}
use signet_clients.Timestamp.Numbers.{IsSafe, long_to_number-IsSafe}
use signet_clients.Timestamp.Dates.{IsDate, IsExact, from_timestamp-to_timestamp}

checked_long-IsSafe :
    (v : ℤ) (r : Reader) → IsSafe v → checked_long (resolved (v, r)) ≡ resolved (v, r)
checked_long-IsSafe v r safe = rw (checked_long, (long_to_number-IsSafe v v).1 (safe, refl)) refl

same_reader :
    (o : Outcome ℤ) (q : Reader) (v : ℤ) (r : Reader)
    → elim o as (λ _. Outcome (ℤ × Reader)) [
      | resolved n ↦ resolved (n, q)
      | rejected e ↦ rejected e
    ]
      ≡ resolved (v, r)
    → q ≡ r
same_reader (resolved n) q v r h = cc
same_reader (rejected e) q v r h = absurd (cc)

checked_long_inverse :
    (o : Outcome (ℤ × Reader)) (v : ℤ) (r : Reader)
    → checked_long o ≡ resolved (v, r)
    → (n : ℤ) × (o ≡ resolved (n, r))
checked_long_inverse (rejected e) v r h = absurd (cc)
checked_long_inverse (resolved p) v r h =
    (p.0, ap (λ q. resolved (p.0, q)) (same_reader (long_to_number p.0) p.1 v r h))

IsSafe-neg : (n : ℕ) → n ≤ max_safe_integer → IsSafe (neg n)
IsSafe-neg zero h = (omega arith, omega arith)
IsSafe-neg (suc n) h = (omega arith, h)

-- A valid date has a timestamp, whose seconds are a safe integer.
to_timestamp-IsSafe :
    (v : ℤ)
    → IsDate (date v)
    → (t : Timestamp) × (to_timestamp (date v) ≡ some t) × IsSafe t.seconds
unfolding to_timestamp
to_timestamp-IsSafe (pos n) h = (_, refl, (omega arith, omega arith))
to_timestamp-IsSafe (negsuc n) h = (_, refl, IsSafe-neg (suc n / 1000) (omega arith))

abbrev pub IsDateOption : Option Date → Type 0
IsDateOption none = Unit
IsDateOption (some d) = IsDate d

module _ {lib : Protobuf} (laws : IsLawful lib) where
  safe_int64_back :
      (v : ℤ) (bs : List ℕ)
      → IsSafe v
      → lib.write_int64 v ≡ resolved bs
      → ReadsBack (safe_int64 lib) bs v
  safe_int64_back v bs safe h p more =
      ap checked_long (laws.int64_back v bs h p more) ∙ checked_long-IsSafe v _ safe

  pub encode-Writes :
      (levels : ℕ) (t : Timestamp)
      → IsSafe t.seconds
      → Writes lib (read_field lib levels) (encode lib t) create_base t
  unfolding encode read_field create_base
  encode-Writes levels t safe =
      Writes-then
        (int64-Writes laws 8 refl (safe_int64 lib) t.seconds
          (λ v. record { seconds = v; nanos = pos 0 }) (λ bs h. safe_int64_back t.seconds bs safe h)
          refl)
        (int32-Writes laws 16 refl t.nanos (λ v. record { seconds = t.seconds; nanos = v }) refl)

  pub decode-Gets :
      (levels : ℕ) (t : Timestamp) (bs : List ℕ)
      → IsSafe t.seconds
      → encode lib t ≡ resolved bs
      → Gets (decode lib (suc levels) (some (length bs))) bs t
  unfolding decode
  decode-Gets levels t bs safe h =
      decode_message-Gets (read_field lib) create_base levels bs (encode-Writes levels t safe) h

  pub decode_date-Gets :
      {millis_sum : ℤ → ℤ → ℤ} (exact : IsExact millis_sum) (levels : ℕ) (d : Date) (bs : List ℕ)
      → IsDate d
      → encode_date lib d ≡ resolved bs
      → Gets (decode_date lib millis_sum (suc levels) (some (length bs))) bs d
  unfolding encode_date decode_date
  decode_date-Gets exact levels invalid_date bs is_date h p more = absurd is_date
  decode_date-Gets {millis_sum} exact levels (date v) bs is_date h p more =
      let (t, made, safe) = to_timestamp-IsSafe v is_date in
      let written = rw (encode_date, made) at h in
      rw (◌>>=◌, decode-Gets levels t bs safe written p more)
        (ap (λ d. ok d (reader_at (p + length bs) more))
          (from_timestamp-to_timestamp exact (date v) t is_date made))

  pub put_date-Writes :
      {millis_sum : ℤ → ℤ → ℤ} (exact : IsExact millis_sum) (levels tag : ℕ) {M : Type 0}
      {fields : Fields M} {m : M}
      → ltb tag (2 ^ 32) ≡ true
      → (o : Option Date) (up : Option Date → M → M) → IsDateOption o
      → up none m ≡ m
      → fields tag m
        ≡ into_message lib (decode_date lib millis_sum (suc levels)) (λ d. up (some d) m)
      → Writes lib fields (message_field lib tag (encode_date lib) o) m (up o m)
  put_date-Writes {millis_sum} exact levels tag {m} small o up valid e = started tag e (
      message-Writes laws tag small (encode_date lib) (decode_date lib millis_sum (suc levels)) o
        (λ v. up v m) (λ d bs e. decode_date-Gets exact levels d bs (subst IsDateOption e valid)))

module _ {lib : Protobuf} (onward : ReadsOn lib) where
  GoesOn-safe_int64 : GoesOn (safe_int64 lib)
  GoesOn-safe_int64 r v r' h =
      let (n, e) = checked_long_inverse (lib.int64 r) v r' h in onward.int64_goes_on r n r' e

  pub decode-AlwaysEnds : (levels : ℕ) (size : Option ℕ) → AlwaysEnds (decode lib levels size)
  unfolding decode read_field
  decode-AlwaysEnds levels size =
      decode_message-AlwaysEnds onward (read_field lib) create_base
        (λ levels' tag m.
          FieldEnds-if (tag == 8) _ _ (FieldEnds-into (safe_int64 lib) _ GoesOn-safe_int64)
            (FieldEnds-if (tag == 16) _ _ (FieldEnds-into lib.int32 _ onward.int32_goes_on) tt))
        levels size

  pub decode_date-AlwaysEnds :
      (millis_sum : ℤ → ℤ → ℤ) (levels : ℕ) (size : Option ℕ)
      → AlwaysEnds (decode_date lib millis_sum levels size)
  unfolding decode_date
  decode_date-AlwaysEnds millis_sum levels size =
      AlwaysEnds-bind (decode lib levels size) (λ t. pure (from_timestamp millis_sum t))
        (decode-AlwaysEnds levels size) (λ t r. omega arith)
