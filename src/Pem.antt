-- ===== src/Pem.antt =====
-- typescript/src/workload.ts, derToPem: the base64 text of a key, in lines of 64 digits.
pub mod Base64
pub mod Wrapping
pub mod Reading
pub mod Tests
use signet_clients.Prelude.{
  ℕ, suc, zero, ◌+◌, ◌-◌, ◌*◌, ◌/◌, ◌%◌, List, [], ◌∷◌, ◌++◌, ◌==◌, ltb, drop, take, length,
  if◌then◌else◌,
}
use signet_clients.Runtime.{Text, codes}

-- A digit of Buffer's base64 encoding.
pub base64_digit : ℕ → ℕ
base64_digit n =
    if ltb n 26
    then 65 + n
    else if ltb n 52
    then 71 + n
    else if ltb n 62
    then n - 4
    else if n == 62
    then 43
    else 47

abbrev pub padding : ℕ
padding = 61

-- `Buffer.from(der).toString("base64")`.
pub to_base64 : List ℕ → Text
to_base64 [] = []
to_base64 (a ∷ []) = base64_digit (a / 4) ∷ base64_digit (a % 4 * 16) ∷ padding ∷ padding ∷ []
to_base64 (a ∷ b ∷ []) =
    base64_digit (a / 4)
    ∷ base64_digit (a % 4 * 16 + b / 16)
    ∷ base64_digit (b % 16 * 4)
    ∷ padding
    ∷ []
to_base64 (a ∷ b ∷ c ∷ bytes) =
    base64_digit (a / 4)
    ∷ base64_digit (a % 4 * 16 + b / 16)
    ∷ base64_digit (b % 16 * 4 + c / 64)
    ∷ base64_digit (c % 64)
    ∷ to_base64 bytes

-- `s.slice(i, j)`.
slice : Text → ℕ → ℕ → Text
slice s i j = take (j - i) (drop i s)

-- The loop of `derToPem` from index `i` on; each iteration takes one unit of fuel.
lines_from : ℕ → ℕ → Text → List Text
unfolding slice
lines_from zero i base64 = []
lines_from (suc fuel) i base64 =
    let rest = lines_from fuel (i + 64) base64 in
    if ltb i (length base64) then slice base64 i (i + 64) ∷ rest else []

pub pem_lines : Text → List Text
unfolding lines_from
pem_lines base64 = lines_from (length base64) 0 base64

-- `lines.join("\n")`.
pub join_lines : List Text → Text
join_lines [] = []
join_lines (l ∷ []) = l
join_lines (l ∷ m ∷ ls) = l ++ codes "\n" ++ join_lines (m ∷ ls)

pub der_to_pem : List ℕ → Text → Text
unfolding to_base64 pem_lines join_lines
der_to_pem der label =
    codes "-----BEGIN "
    ++ label
    ++ codes "-----\n"
    ++ join_lines (pem_lines (to_base64 der))
    ++ codes "\n-----END "
    ++ label
    ++ codes "-----\n"
