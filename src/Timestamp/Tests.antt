-- ===== src/Timestamp/Tests.antt =====
-- Tests of timestamps, and the theorems on them at concrete inputs.
use signet_clients.Prelude.{
  ℕ, zero, suc, ◌+◌, ◌*◌, ◌/◌, ◌-◌, ◌<◌, leb, ◌≡◌, refl, arith, if◌then◌else◌, ◌↔◌,
}
use signet_clients.Prelude.Int.{ℤ, pos, negsuc, neg, pos_part, neg_part}
use signet_clients.Runtime.{resolved}
use signet_clients.Timestamp.{
  Timestamp, date, invalid_date, number_of, long_to_number, to_timestamp, from_timestamp,
}
use signet_clients.Timestamp.Dates.{IsExact, neg_part-neg, to_timestamp-before_epoch}
use signet_clients.Timestamp.Numbers.{IsSafe, long_to_number-IsSafe}

-- The sum without rounding.
abbrev pub whole_sum : ℤ → ℤ → ℤ
whole_sum a b =
    let up = pos_part a + pos_part b / 1000000 in
    let down = neg_part a + neg_part b / 1000000 in
    if leb down up then pos (up - down) else negsuc (down - up - 1)

pos_part-neg : (n : ℕ) → pos_part (neg n) ≡ 0
pos_part-neg zero = refl
pos_part-neg (suc n) = refl

neg_of : (n : ℕ) → (if leb n 0 then pos (0 - n) else negsuc (n - 0 - 1)) ≡ neg n
neg_of zero = refl
neg_of (suc n) = ground arith

whole_sum-down : (m k : ℕ) → whole_sum (neg m) (neg (k * 1000000)) ≡ neg (m + k)
whole_sum-down m k =
    rw
      (
        pos_part-neg m,
        pos_part-neg (k * 1000000),
        neg_part-neg m,
        neg_part-neg (k * 1000000),
        let e : k * 1000000 / 1000000 ≡ k = omega arith in e,
      )
      (neg_of (m + k))

pub whole_sum-IsExact : IsExact whole_sum
whole_sum-IsExact = record { up = λ m k h. ground arith; down = λ m k h. whole_sum-down m k }

long_to_number-IsSafe_example :
    (long_to_number (pos 9007199254740992) ≡ resolved (pos 9007199254740992))
    ↔ (IsSafe (pos 9007199254740992) × (pos 9007199254740992 ≡ pos 9007199254740992))
long_to_number-IsSafe_example = long_to_number-IsSafe (pos 9007199254740992) (pos 9007199254740992)

-- A tie goes to the even double, and the largest int64 to 2 ^ 63.
tie_down : number_of (pos 9007199254740993) ≡ pos 9007199254740992
unfolding number_of
tie_down = refl

tie_up : number_of (negsuc 9007199254740994) ≡ negsuc 9007199254740995
unfolding number_of
tie_up = refl

largest_int64 : number_of (pos 9223372036854775807) ≡ pos 9223372036854775808
unfolding number_of
largest_int64 = refl

abbrev before : Timestamp
before = record { seconds = negsuc 0; nanos = negsuc 499999999 }

to_timestamp-before_epoch_example :
    (0 < neg_part before.nanos) × (from_timestamp whole_sum before ≡ date (negsuc 1499))
unfolding to_timestamp
to_timestamp-before_epoch_example =
    to_timestamp-before_epoch whole_sum-IsExact 1499 before (omega arith, omega arith) (omega arith)
      refl

too_late :
    from_timestamp whole_sum (record { seconds = pos 8640000000001; nanos = pos 0 }) ≡ invalid_date
unfolding from_timestamp
too_late = refl
