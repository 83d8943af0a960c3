-- ===== src/Timestamp/Dates.antt =====
-- typescript/src/gen: numbers of seconds and nanoseconds, and the dates that they stand for.
use signet_clients.Prelude.{
  ℕ, zero, suc, ◌+◌, ◌*◌, ◌/◌, ◌%◌, ◌≤◌, ◌<◌, some, ◌≡◌, refl, arith, subst,
}
use signet_clients.Prelude.Int.{ℤ, pos, negsuc, neg, pos_part, neg_part}
use signet_clients.Timestamp.{
  Timestamp, Date, date, invalid_date, max_date, max_safe_integer, to_timestamp, from_timestamp,
  new_date, times_thousand,
}

-- The sum of doubles is exact for whole milliseconds, as long as it is a safe integer.
pub record IsExact (millis_sum : ℤ → ℤ → ℤ) : Type 0 where
  pub up :
      (m k : ℕ) → m + k ≤ max_safe_integer → millis_sum (pos m) (pos (k * 1000000)) ≡ pos (m + k)
  pub down :
      (m k : ℕ) → m + k ≤ max_safe_integer → millis_sum (neg m) (neg (k * 1000000)) ≡ neg (m + k)

-- A date that is valid.
abbrev pub IsDate : Date → Type 0
IsDate (date v) = (pos_part v ≤ max_date) × (neg_part v ≤ max_date)
IsDate invalid_date = ⊥

millis_parts : (n : ℕ) → n / 1000 * 1000 + n % 1000 ≡ n
millis_parts n = omega arith

times_thousand-neg : (n : ℕ) → times_thousand (neg n) ≡ neg (n * 1000)
unfolding times_thousand
times_thousand-neg zero = refl
times_thousand-neg (suc n) = refl

new_date-pos : (n : ℕ) → n ≤ max_date → new_date (pos n) ≡ date (pos n)
unfolding new_date
new_date-pos n h = ground arith

new_date-neg : (n : ℕ) → n ≤ max_date → new_date (neg n) ≡ date (neg n)
unfolding new_date
new_date-neg zero h = refl
new_date-neg (suc n) h = ground arith

module _ {millis_sum : ℤ → ℤ → ℤ} (exact : IsExact millis_sum) where
  after_epoch :
      (n : ℕ)
      → n ≤ max_date
      → new_date (millis_sum (times_thousand (pos (n / 1000))) (pos (n % 1000 * 1000000)))
        ≡ date (pos n)
  unfolding times_thousand
  after_epoch n h =
      rw (exact.up (n / 1000 * 1000) (n % 1000) (omega arith), millis_parts n) (new_date-pos n h)

  before_epoch :
      (n : ℕ)
      → n ≤ max_date
      → new_date (millis_sum (times_thousand (neg (n / 1000))) (neg (n % 1000 * 1000000)))
        ≡ date (neg n)
  before_epoch n h =
      rw
        (
          times_thousand-neg (n / 1000),
          exact.down (n / 1000 * 1000) (n % 1000) (omega arith),
          millis_parts n,
        )
        (new_date-neg n h)

  pub from_timestamp-to_timestamp :
      (d : Date) (t : Timestamp)
      → IsDate d
      → to_timestamp d ≡ some t
      → from_timestamp millis_sum t ≡ d
  unfolding to_timestamp from_timestamp
  from_timestamp-to_timestamp invalid_date t h e = absurd h
  from_timestamp-to_timestamp (date (pos n)) t h e =
      subst (λ t'. from_timestamp millis_sum t' ≡ date (pos n))
        (let q : record { seconds = pos (n / 1000); nanos = pos (n % 1000 * 1000000) } ≡ t = cc e in
          q)
        (after_epoch n h.0)
  from_timestamp-to_timestamp (date (negsuc n)) t h e =
      subst (λ t'. from_timestamp millis_sum t' ≡ date (negsuc n))
        (let q : record { seconds = neg (suc n / 1000); nanos = neg (suc n % 1000 * 1000000) } ≡ t =
            cc e in
          q)
        (before_epoch (suc n) h.1)

pub neg_part-neg : (n : ℕ) → neg_part (neg n) ≡ n
neg_part-neg zero = refl
neg_part-neg (suc n) = refl

-- A date before 1970 with a fraction of a second, `n` milliseconds before it, is given a negative
-- number of nanoseconds, and comes back from its timestamp.
pub to_timestamp-before_epoch :
    {millis_sum : ℤ → ℤ → ℤ} (exact : IsExact millis_sum) (n : ℕ) (t : Timestamp)
    → IsDate (date (negsuc n))
    → 0 < suc n % 1000
    → to_timestamp (date (negsuc n)) ≡ some t
    → (0 < neg_part t.nanos) × (from_timestamp millis_sum t ≡ date (negsuc n))
unfolding to_timestamp
to_timestamp-before_epoch exact n t h fraction e =
    let parts : t.nanos ≡ neg (suc n % 1000 * 1000000) = cc e in
    (
      rw (parts, neg_part-neg) (omega arith),
      from_timestamp-to_timestamp exact (date (negsuc n)) t h e,
    )
