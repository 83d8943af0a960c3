-- ===== src/Pem/Wrapping.antt =====
-- The lines of a PEM text hold the digits in order, 64 in each but the last.
use signet_clients.Prelude.{
  ℕ, suc, zero, ◌+◌, ◌-◌, ◌*◌, ◌≤◌, ◌≡◌, refl, sym, ap, ◌∙◌, subst, false, List, [], ◌∷◌, ◌++◌,
  if_cases, else_branch, Bool-cases, inl, inr, drop, take, length, ltb, arith, take-append-drop,
  drop_all,
}
use signet_clients.Runtime.{Text}
use signet_clients.Pem.{slice, lines_from, pem_lines}

abbrev pub concat : List Text → Text
concat [] = []
concat (l ∷ ls) = l ++ concat ls

-- Every line but the last has 64 digits, and the last has at least one and at most 64.
abbrev pub IsWrapped : List Text → Type 0
IsWrapped [] = Unit {0}
IsWrapped (l ∷ []) = (1 ≤ length l) × (length l ≤ 64)
IsWrapped (l ∷ m ∷ ls) = (length l ≡ 64) × IsWrapped (m ∷ ls)

length-take : (n : ℕ) (t : Text) → n ≤ length t → length (take n t) ≡ n
length-take zero t h = refl
length-take (suc n) [] h = absurd (omega arith)
length-take (suc n) (c ∷ t) h = omega (arith, length-take n t (omega arith))

length-drop : (n : ℕ) (t : Text) → length (drop n t) ≡ length t - n
length-drop zero t = omega arith
length-drop (suc n) [] = omega arith
length-drop (suc n) (c ∷ t) = omega (arith, length-drop n t)

take-all : (n : ℕ) (t : Text) → length t ≤ n → take n t ≡ t
take-all zero [] h = refl
take-all zero (c ∷ t) h = absurd (omega arith)
take-all (suc n) [] h = refl
take-all (suc n) (c ∷ t) h = ap (λ s. c ∷ s) (take-all n t (omega arith))

drop-drop : (n k : ℕ) (t : Text) → drop k (drop n t) ≡ drop (n + k) t
drop-drop zero k t = rw (let e : 0 + k ≡ k = omega arith in e) refl
drop-drop (suc n) zero [] = rw (let e : suc n + 0 ≡ suc (n + 0) = omega arith in e) refl
drop-drop (suc n) (suc k) [] = rw (let e : suc n + suc k ≡ suc (n + suc k) = omega arith in e) refl
drop-drop (suc n) k (c ∷ t) =
    rw (let e : suc n + k ≡ suc (n + k) = omega arith in e) (drop-drop n k t)

slice-line : (i : ℕ) (t : Text) → slice t i (i + 64) ≡ take 64 (drop i t)
unfolding slice
slice-line i t = rw (let e : i + 64 - i ≡ 64 = omega arith in e) refl

line-append : (i : ℕ) (t : Text) → slice t i (i + 64) ++ drop (i + 64) t ≡ drop i t
line-append i t = rw (slice-line i t, sym (drop-drop i 64 t)) (take-append-drop 64 (drop i t))

concat-lines_from :
    (fuel i : ℕ) (t : Text) → length t ≤ i + fuel * 64 → concat (lines_from fuel i t) ≡ drop i t
unfolding lines_from
concat-lines_from zero i t enough = sym (drop_all i t (omega arith))
concat-lines_from (suc fuel) i t enough =
    if_cases (λ ls. concat ls ≡ drop i t) (ltb i (length t))
      (λ _.
        ap (λ s. slice t i (i + 64) ++ s) (concat-lines_from fuel (i + 64) t (omega arith))
        ∙ line-append i t)
      (λ past. sym (drop_all i t (ground arith)))

lines_from-past : (fuel i : ℕ) (t : Text) → length t ≤ i → lines_from fuel i t ≡ []
unfolding lines_from
lines_from-past zero i t h = refl
lines_from-past (suc fuel) i t h =
    else_branch (ltb i (length t)) _ _ (let e : ltb i (length t) ≡ false = ground arith in e)

full_line : (i : ℕ) (t : Text) → i + 64 ≤ length t → length (slice t i (i + 64)) ≡ 64
full_line i t h =
    ap length (slice-line i t) ∙ length-take 64 (drop i t) (omega (arith, length-drop i t))

last_line : (i : ℕ) (t : Text) → length t ≤ i + 64 → length (slice t i (i + 64)) ≡ length t - i
last_line i t h =
    ap length (slice-line i t ∙ take-all 64 (drop i t) (omega (arith, length-drop i t)))
    ∙ length-drop i t

full-IsWrapped : (l : Text) (ls : List Text) → length l ≡ 64 → IsWrapped ls → IsWrapped (l ∷ ls)
full-IsWrapped l [] full w = (omega (arith, full), omega (arith, full))
full-IsWrapped l (m ∷ ls) full w = (full, w)

lines_from-IsWrapped : (fuel i : ℕ) (t : Text) → IsWrapped (lines_from fuel i t)
unfolding lines_from
lines_from-IsWrapped zero i t = tt
lines_from-IsWrapped (suc fuel) i t =
    if_cases IsWrapped (ltb i (length t))
      (λ more. elim (Bool-cases (ltb (i + 64) (length t))) [
        | inl longer ↦
            full-IsWrapped _ _ (full_line i t (ground arith)) (lines_from-IsWrapped fuel (i + 64) t)
        | inr final ↦
            subst (λ ls. IsWrapped (slice t i (i + 64) ∷ ls))
              (sym (lines_from-past fuel (i + 64) t (ground arith))) (ground (arith, last_line i t))
      ])
      (λ _. tt)

-- The loop of derToPem runs out of digits, not of fuel: its lines hold all the digits in order, 64
-- in each line but the last, which has at least one and at most 64.
pub pem_lines-wrap :
    (base64 : Text) → (concat (pem_lines base64) ≡ base64) × IsWrapped (pem_lines base64)
unfolding pem_lines
pem_lines-wrap base64 = (
  concat-lines_from (length base64) 0 base64 (omega arith),
  lines_from-IsWrapped (length base64) 0 base64,
)
