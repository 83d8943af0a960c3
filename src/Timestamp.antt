-- ===== src/Timestamp.antt =====
-- typescript/src/gen/google/protobuf/timestamp.ts: the message Timestamp and longToNumber; and
-- toTimestamp and fromTimestamp of typescript/src/gen/signet/v1/secrets.ts.
pub mod Numbers
pub mod Dates
pub mod Trips
pub mod Tests
use signet_clients.Prelude.{
  ℕ, zero, suc, ◌+◌, ◌*◌, ◌/◌, ◌%◌, ◌^◌, Option, none, some, List, ◌==◌, leb, ltb, if◌then◌else◌,
}
use signet_clients.Prelude.Int.{ℤ, pos, negsuc, neg, ltb_ℤ}
use signet_clients.Runtime.{Text, codes, error, new_error, Outcome, resolved, rejected}
use signet_clients.Wire.{Reader, Protobuf, Get, Fields, pure, ◌>>=◌, decode_message}
use signet_clients.Wire.Fields.{◌⊕◌, int32_field, int64_field, into, given_or}

pub record Timestamp : Type 0 where
  pub seconds : ℤ
  pub nanos : ℤ

unfoldable pub create_base : Timestamp
create_base = record { seconds = pos 0; nanos = pos 0 }

-- Number.MAX_SAFE_INTEGER; MIN_SAFE_INTEGER is its negative.
abbrev pub max_safe_integer : ℕ
max_safe_integer = 9007199254740991

-- The distance of the doubles around an integer below 2 ^ 64: from 2 ^ 53 on it doubles with each
-- power of two.
spacing_from : ℕ → ℕ → ℕ → ℕ
spacing_from zero unit n = unit
spacing_from (suc rounds) unit n =
    let wider = spacing_from rounds (2 * unit) n in if ltb n (2 ^ 53 * unit) then unit else wider

unfoldable pub spacing : ℕ → ℕ
unfolding spacing_from
spacing n = spacing_from 11 1 n

-- `Number(s)` for the decimal digits of an integer: the nearest double, and of two the even one.
unfoldable pub round_even : ℕ → ℕ → ℕ
round_even unit n =
    let below = n / unit in
    let left = 2 * (n % unit) in
    if ltb left unit
    then below * unit
    else if ltb unit left
    then (below + 1) * unit
    else (below + below % 2) * unit

unfoldable pub number_of : ℤ → ℤ
unfolding spacing round_even
number_of (pos n) = pos (round_even (spacing n) n)
number_of (negsuc n) = neg (round_even (spacing (suc n)) (suc n))

-- An int64 as `Number(int64.toString())`, if that is a safe integer.
unfoldable pub checked_number : ℤ → Outcome ℤ
checked_number num =
    if ltb_ℤ (pos max_safe_integer) num
    then rejected (error (new_error (codes "Value is larger than Number.MAX_SAFE_INTEGER")))
    else if ltb_ℤ num (neg max_safe_integer)
    then rejected (error (new_error (codes "Value is smaller than Number.MIN_SAFE_INTEGER")))
    else resolved num

unfoldable pub long_to_number : ℤ → Outcome ℤ
unfolding number_of checked_number
long_to_number int64 = checked_number (number_of int64)

-- A Date is its time in milliseconds, at most `max_date` on either side of 1970, or it is invalid.
pub data Date : Type 0 where
  date : ℤ → Date
  invalid_date : Date

abbrev pub max_date : ℕ
max_date = 8640000000000000

-- What `new Date(millis)` gives for a number with this integer part.
unfoldable pub new_date : ℤ → Date
new_date (pos n) = if leb n max_date then date (pos n) else invalid_date
new_date (negsuc n) = if leb (suc n) max_date then date (negsuc n) else invalid_date

-- With an invalid date both numbers are NaN.
unfoldable pub to_timestamp : Date → Option Timestamp
to_timestamp (date (pos n)) =
    some (record { seconds = pos (n / 1000); nanos = pos (n % 1000 * 1000000) })
to_timestamp (date (negsuc n)) =
    some (record { seconds = neg (suc n / 1000); nanos = neg (suc n % 1000 * 1000000) })
to_timestamp invalid_date = none

unfoldable pub times_thousand : ℤ → ℤ
times_thousand (pos n) = pos (n * 1000)
times_thousand (negsuc n) = neg (suc n * 1000)

-- `millis_sum millis nanos` is the integer part of the double `millis + nanos / 1_000_000`.
unfoldable pub from_timestamp : (ℤ → ℤ → ℤ) → Timestamp → Date
unfolding times_thousand new_date
from_timestamp millis_sum t = new_date (millis_sum (times_thousand t.seconds) t.nanos)

-- `longToNumber(reader.int64())`.
abbrev pub checked_long : Outcome (ℤ × Reader) → Outcome (ℤ × Reader)
checked_long (rejected e) = rejected e
checked_long (resolved p) = elim (long_to_number p.0) [
  | resolved n ↦ resolved (n, p.1)
  | rejected e ↦ rejected e
]

module _ (lib : Protobuf) where
  unfoldable pub encode : Timestamp → Outcome (List ℕ)
  encode message = int64_field lib 8 message.seconds ⊕ int32_field lib 16 message.nanos

  abbrev pub safe_int64 : Reader → Outcome (ℤ × Reader)
  safe_int64 r = checked_long (lib.int64 r)

  unfoldable pub read_field : ℕ → Fields Timestamp
  read_field levels tag message =
      if tag == 8
      then into safe_int64 (λ v. record message { seconds = v })
      else if tag == 16
      then into lib.int32 (λ v. record message { nanos = v })
      else none

  unfoldable pub decode : ℕ → Option ℕ → Get Timestamp
  unfolding read_field
  decode levels size = decode_message lib read_field create_base levels size

pub record Partial : Type 0 where
  pub seconds : Option ℤ
  pub nanos : Option ℤ

unfoldable pub from_partial : Partial → Timestamp
from_partial object = record {
  seconds = given_or object.seconds (pos 0);
  nanos = given_or object.nanos (pos 0);
}

unfoldable pub create : Option Partial → Timestamp
unfolding from_partial
create base = from_partial (given_or base (record { seconds = none; nanos = none }))

module _ (lib : Protobuf) where
  -- `Timestamp.encode(toTimestamp(date), …)`.
  unfoldable pub encode_date : Date → Outcome (List ℕ)
  unfolding encode to_timestamp
  encode_date d = elim (to_timestamp d) [ none ↦ rejected lib.not_a_number | some t ↦ encode lib t ]

  -- `fromTimestamp(Timestamp.decode(reader, …))`.
  unfoldable pub decode_date : (ℤ → ℤ → ℤ) → ℕ → Option ℕ → Get Date
  unfolding decode from_timestamp
  decode_date millis_sum levels size =
      decode lib levels size >>= λ t. pure (from_timestamp millis_sum t)
