-- ===== src/Strings/Trimming.antt =====
-- Trimming removes the white space around a text, and nothing else.
use signet_clients.Prelude.{ℕ, ◌≡◌, refl, ap, ◌∙◌, true, false, [], ◌∷◌, ◌++◌, All, else_branch}
use signet_clients.Runtime.{Text}
use signet_clients.Strings.{is_white_space, trim_start, trim_before, trim_end, trim}

abbrev pub IsBlank : Text → Type 0
IsBlank = All (λ c. is_white_space c ≡ true)

abbrev pub IsSolid : Text → Type 0
IsSolid = All (λ c. is_white_space c ≡ false)

trim_start-append : (blank s : Text) → IsBlank blank → trim_start (blank ++ s) ≡ trim_start s
unfolding trim_start
trim_start-append [] s h = refl
trim_start-append (c ∷ blank) s (space, h) = rw space (trim_start-append blank s h)

trim_start-blank : (blank : Text) → IsBlank blank → trim_start blank ≡ []
unfolding trim_start
trim_start-blank [] h = refl
trim_start-blank (c ∷ blank) (space, h) = rw space (trim_start-blank blank h)

trim_end-blank : (blank : Text) → IsBlank blank → trim_end blank ≡ []
unfolding trim_end trim_before
trim_end-blank [] h = refl
trim_end-blank (c ∷ blank) (space, h) = rw (trim_end-blank blank h, space) refl

trim_before-solid : (c : ℕ) (s : Text) → is_white_space c ≡ false → trim_before c s ≡ c ∷ s
unfolding trim_before
trim_before-solid c [] solid = rw solid refl
trim_before-solid c (d ∷ s) solid = refl

trim_end-append : (s blank : Text) → IsSolid s → IsBlank blank → trim_end (s ++ blank) ≡ s
unfolding trim_end
trim_end-append [] blank _ h = trim_end-blank blank h
trim_end-append (c ∷ s) blank (solid, hs) h =
    trim_before-solid c (trim_end (s ++ blank)) solid
    ∙ ap (λ t. c ∷ t) (trim_end-append s blank hs h)

trim_start-solid :
    (s blank : Text) → IsSolid s → IsBlank blank → trim_end (trim_start (s ++ blank)) ≡ s
unfolding trim_start trim_end
trim_start-solid [] blank _ h = ap trim_end (trim_start-blank blank h)
trim_start-solid (c ∷ s) blank (solid, hs) h =
    ap trim_end (else_branch (is_white_space c) _ _ solid)
    ∙ trim_end-append (c ∷ s) blank (solid, hs) h

-- White space around a text without white space is removed.
pub trim-blanks :
    (before s after : Text)
    → IsBlank before
    → IsSolid s
    → IsBlank after
    → trim (before ++ (s ++ after)) ≡ s
unfolding trim
trim-blanks before s after b h a =
    ap trim_end (trim_start-append before (s ++ after) b) ∙ trim_start-solid s after h a
