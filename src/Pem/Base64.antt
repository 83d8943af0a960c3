-- ===== src/Pem/Base64.antt =====
-- The base64 digits of a key can be read back.
use signet_clients.Prelude.{
  ℕ, ◌+◌, ◌-◌, ◌*◌, ◌/◌, ◌%◌, ◌≤◌, ◌<◌, ◌≡◌, ◌≢◌, refl, ap, ◌∙◌, false, List, [], ◌∷◌, All, All-imp,
  if◌then◌else◌, else_branch, ltb, ◌==◌, arith,
}
use signet_clients.Runtime.{Text}
use signet_clients.Strings.{comma}
use signet_clients.Pem.{base64_digit, padding, to_base64}

-- The number that a base64 digit stands for.
abbrev pub digit_value : ℕ → ℕ
digit_value c =
    if ltb c 48
    then (if c == 43 then 62 else 63)
    else if ltb c 65
    then c + 4
    else if ltb c 97
    then c - 65
    else c - 71

digit_value-digit : (n : ℕ) → n < 64 → digit_value (base64_digit n) ≡ n
unfolding base64_digit
digit_value-digit n h = ground arith

digit-unpadded : (n : ℕ) → n < 64 → base64_digit n ≢ padding
unfolding base64_digit
digit-unpadded n h = ground arith

-- Decoding, after RFC 4648: four digits stand for three bytes, and padding for missing ones.
abbrev pub from_base64 : Text → List ℕ
from_base64 [] = []
from_base64 (w ∷ []) = []
from_base64 (w ∷ x ∷ []) = []
from_base64 (w ∷ x ∷ y ∷ []) = []
from_base64 (w ∷ x ∷ y ∷ z ∷ digits) =
    let rest = from_base64 digits in
    let first = digit_value w * 4 + digit_value x / 16 in
    let second = digit_value x % 16 * 16 + digit_value y / 4 in
    let third = digit_value y % 4 * 64 + digit_value z in
    if y == padding
    then first ∷ []
    else if z == padding
    then first ∷ second ∷ []
    else first ∷ second ∷ third ∷ rest

abbrev pub IsByte : ℕ → Type 0
IsByte b = b < 256

unpadded : (n : ℕ) → n < 64 → (base64_digit n == padding) ≡ false
unpadded n h = ground (arith, digit-unpadded n h)

-- Decoding the digits gives the bytes back, whatever their number.
pub from_base64-to_base64 :
    (bytes : List ℕ) → All IsByte bytes → from_base64 (to_base64 bytes) ≡ bytes
unfolding to_base64
from_base64-to_base64 [] h = refl
from_base64-to_base64 (a ∷ []) (ha, _) =
    rw (digit_value-digit (a / 4) (omega arith), digit_value-digit (a % 4 * 16) (omega arith))
      (ap (λ x. x ∷ []) (let e : a / 4 * 4 + a % 4 * 16 / 16 ≡ a = omega arith in e))
from_base64-to_base64 (a ∷ b ∷ []) (ha, (hb, _)) =
    else_branch (base64_digit (b % 16 * 4) == padding) _ _ (unpadded (b % 16 * 4) (omega arith))
    ∙ rw
        (
          digit_value-digit (a / 4) (omega arith),
          digit_value-digit (a % 4 * 16 + b / 16) (omega arith),
          digit_value-digit (b % 16 * 4) (omega arith),
        )
        (cc (
          let e : a / 4 * 4 + (a % 4 * 16 + b / 16) / 16 ≡ a = omega arith in e,
          let e : (a % 4 * 16 + b / 16) % 16 * 16 + b % 16 * 4 / 4 ≡ b = omega arith in e,
        ))
from_base64-to_base64 (a ∷ b ∷ c ∷ bytes) (ha, (hb, (hc, h))) =
    else_branch (base64_digit (b % 16 * 4 + c / 64) == padding) _ _
      (unpadded (b % 16 * 4 + c / 64) (omega arith))
    ∙ else_branch (base64_digit (c % 64) == padding) _ _ (unpadded (c % 64) (omega arith))
    ∙ rw
        (
          digit_value-digit (a / 4) (omega arith),
          digit_value-digit (a % 4 * 16 + b / 16) (omega arith),
          digit_value-digit (b % 16 * 4 + c / 64) (omega arith),
          digit_value-digit (c % 64) (omega arith),
        )
        (cc (
          let e : a / 4 * 4 + (a % 4 * 16 + b / 16) / 16 ≡ a = omega arith in e,
          let e : (a % 4 * 16 + b / 16) % 16 * 16 + (b % 16 * 4 + c / 64) / 4 ≡ b = omega arith in
              e,
          let e : (b % 16 * 4 + c / 64) % 4 * 64 + c % 64 ≡ c = omega arith in e,
          from_base64-to_base64 bytes h,
        ))

-- What holds of the 64 digits and of the padding holds of every code unit of a base64 text.
pub to_base64-All :
    (P : ℕ → Type 0)
    → ((n : ℕ) → n < 64 → P (base64_digit n))
    → P padding
    → (bytes : List ℕ) → All IsByte bytes
    → All P (to_base64 bytes)
unfolding to_base64
to_base64-All P digit pad [] h = tt
to_base64-All P digit pad (a ∷ []) (ha, _) =
    (digit (a / 4) (omega arith), (digit (a % 4 * 16) (omega arith), (pad, (pad, tt))))
to_base64-All P digit pad (a ∷ b ∷ []) (ha, (hb, _)) = (
  digit (a / 4) (omega arith),
  (digit (a % 4 * 16 + b / 16) (omega arith), (digit (b % 16 * 4) (omega arith), (pad, tt))),
)
to_base64-All P digit pad (a ∷ b ∷ c ∷ bytes) (ha, (hb, (hc, h))) = (
  digit (a / 4) (omega arith),
  (
    digit (a % 4 * 16 + b / 16) (omega arith),
    (
      digit (b % 16 * 4 + c / 64) (omega arith),
      (digit (c % 64) (omega arith), to_base64-All P digit pad bytes h),
    ),
  ),
)

digit-bounds :
    (n : ℕ) → n < 64 → (43 ≤ base64_digit n) × (base64_digit n ≢ 44) × (base64_digit n ≢ 45)
unfolding base64_digit
digit-bounds n h = (ground arith, ground arith, ground arith)

-- A base64 text has no comma, no hyphen and no line break.
pub to_base64-IsPlain :
    (bytes : List ℕ)
    → All IsByte bytes
    → All (λ c. (43 ≤ c) × (c ≢ 44) × (c ≢ 45)) (to_base64 bytes)
to_base64-IsPlain =
    to_base64-All (λ c. (43 ≤ c) × (c ≢ 44) × (c ≢ 45)) digit-bounds
      (omega arith, (λ e. absurd (omega (arith, e))), (λ e. absurd (omega (arith, e))))

-- The digits are read up to a comma where a text has them between other fields.
pub to_base64-NoComma : (bytes : List ℕ) → All IsByte bytes → All (λ c. c ≢ comma) (to_base64 bytes)
to_base64-NoComma bytes h = All-imp (to_base64 bytes) (λ c p. p.1) (to_base64-IsPlain bytes h)
