-- ===== src/Timestamp/Numbers.antt =====
-- typescript/src/gen/google/protobuf/timestamp.ts: which integers longToNumber takes.
use signet_clients.Prelude.{ℕ, zero, suc, ◌≤◌, ◌<◌, ◌≡◌, sym, ap, ◌∙◌, arith, ◌↔◌}
use signet_clients.Prelude.Int.{ℤ, pos, negsuc, neg, pos_part, neg_part}
use signet_clients.Runtime.{resolved}
use signet_clients.Timestamp.{
  max_safe_integer, spacing, round_even, number_of, checked_number, long_to_number,
}

abbrev pub IsSafe : ℤ → Type 0
IsSafe v = (pos_part v ≤ max_safe_integer) × (neg_part v ≤ max_safe_integer)

rounded : ℕ → ℕ
rounded n = round_even (spacing n) n

rounded-small : (n : ℕ) → n ≤ max_safe_integer → rounded n ≡ n
unfolding rounded spacing round_even
rounded-small n h = ground arith

rounded-large : (n : ℕ) → max_safe_integer < n → max_safe_integer < rounded n
unfolding rounded spacing round_even
rounded-large n h = ground arith

checked_number-pos :
    (n : ℕ) (w : ℤ) → (checked_number (pos n) ≡ resolved w) ↔ ((n ≤ max_safe_integer) × (w ≡ pos n))
unfolding checked_number
checked_number-pos n w = (λ h. ground arith, λ h. ground arith)

checked_number-neg :
    (n : ℕ) (w : ℤ) → (checked_number (neg n) ≡ resolved w) ↔ ((n ≤ max_safe_integer) × (w ≡ neg n))
unfolding checked_number
checked_number-neg zero w = (λ h. ground arith, λ h. ground arith)
checked_number-neg (suc n) w = (λ h. ground arith, λ h. ground arith)

-- Only a safe integer is rounded to a safe one, and that is itself.
rounded-safe : (n : ℕ) → rounded n ≤ max_safe_integer → (n ≤ max_safe_integer) × (rounded n ≡ n)
rounded-safe n h =
    let small : n ≤ max_safe_integer = grind (arith, rounded-large n) in
    (small, rounded-small n small)

-- longToNumber returns an integer unchanged exactly if it is a safe one, and returns no other
-- number: one that is not safe is rounded to the nearest double before it is compared, and throws.
pub long_to_number-IsSafe : (v w : ℤ) → (long_to_number v ≡ resolved w) ↔ (IsSafe v × (w ≡ v))
unfolding long_to_number number_of rounded
long_to_number-IsSafe (pos n) w = (
  λ h.
      let (small, same) = (checked_number-pos (rounded n) w).0 h in
      let (safe, kept) = rounded-safe n small in ((safe, omega arith), same ∙ ap pos kept),
  λ h.
      let kept = rounded-small n h.0.0 in
      (checked_number-pos (rounded n) w).1 (rw kept h.0.0, h.1 ∙ ap pos (sym kept)),
)
long_to_number-IsSafe (negsuc n) w = (
  λ h.
      let (small, same) = (checked_number-neg (rounded (suc n)) w).0 h in
      let (safe, kept) = rounded-safe (suc n) small in ((omega arith, safe), same ∙ ap neg kept),
  λ h.
      let kept = rounded-small (suc n) h.0.1 in
      (checked_number-neg (rounded (suc n)) w).1 (rw kept h.0.1, h.1 ∙ ap neg (sym kept)),
)
