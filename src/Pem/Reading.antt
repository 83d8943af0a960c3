-- ===== src/Pem/Reading.antt =====
-- Reading the text of derToPem back, as RFC 7468 lays it out.
use signet_clients.Prelude.{
  ℕ, ◌≡◌, ◌≢◌, refl, sym, ap, ◌∙◌, Option, none, some, List, [], ◌∷◌, ◌++◌, ◌==◌, drop, length,
  append_assoc, append-nil, All-append, All-imp, subst, append-nil, drop-append_length, All,
  if◌then◌else◌, arith,
}
use signet_clients.Runtime.{Text, codes}
use signet_clients.Strings.{before_first, same_text, starts_with}
use signet_clients.Strings.Equality.{before_first-append, same_text_refl, starts_with-append}
use signet_clients.Pem.{to_base64, pem_lines, join_lines, der_to_pem}
use signet_clients.Pem.Base64.{from_base64, from_base64-to_base64, IsByte, to_base64-IsPlain}
use signet_clients.Pem.Wrapping.{concat, pem_lines-wrap}

abbrev hyphen : ℕ
hyphen = 45

abbrev line_break : ℕ
line_break = 10

abbrev pub without_breaks : Text → Text
without_breaks [] = []
without_breaks (c ∷ s) = let rest = without_breaks s in if c == line_break then rest else c ∷ rest

abbrev begins : Text → Text
begins label = codes "-----BEGIN " ++ (label ++ codes "-----\n")

abbrev finishes : Text → Text
finishes label = codes "-----END " ++ (label ++ codes "-----\n")

abbrev digits_behind : Text → Text → Option (List ℕ)
digits_behind label s =
    let digits = before_first hyphen s in
    if same_text (drop (length digits) s) (finishes label)
    then some (from_base64 (without_breaks digits))
    else none

-- The bytes in a block with this label: between its first and its last line stand base64 digits with
-- line breaks among them.
abbrev pub read_pem : Text → Text → Option (List ℕ)
read_pem label t =
    if starts_with (begins label) t
    then digits_behind label (drop (length (begins label)) t)
    else none

without_breaks-append :
    (s t : Text) → without_breaks (s ++ t) ≡ without_breaks s ++ without_breaks t
without_breaks-append [] t = refl
without_breaks-append (c ∷ s) t = ground (arith, without_breaks-append s t)

without_breaks-plain : (s : Text) → All (λ c. c ≢ line_break) s → without_breaks s ≡ s
without_breaks-plain [] h = refl
without_breaks-plain (c ∷ s) h = ground (arith, without_breaks-plain s h.1)

without_breaks-join_lines :
    (ls : List Text) → without_breaks (join_lines ls) ≡ without_breaks (concat ls)
unfolding join_lines
without_breaks-join_lines [] = refl
without_breaks-join_lines (l ∷ []) = sym (ap without_breaks (append-nil l))
without_breaks-join_lines (l ∷ m ∷ ls) =
    without_breaks-append (l ++ codes "\n") (join_lines (m ∷ ls))
    ∙ ap (λ s. s ++ without_breaks (join_lines (m ∷ ls)))
        (without_breaks-append l (codes "\n") ∙ append-nil (without_breaks l))
    ∙ ap (λ s. without_breaks l ++ s) (without_breaks-join_lines (m ∷ ls))
    ∙ sym (without_breaks-append l (concat (m ∷ ls)))

All-split : (P : ℕ → Type 0) (s t : Text) → All P (s ++ t) → All P s × All P t
All-split P [] t h = (tt, h)
All-split P (c ∷ s) t h = let (before, after) = All-split P s t h.1 in ((h.0, before), after)

join_lines-All :
    (P : ℕ → Type 0) → P line_break → (ls : List Text) → All P (concat ls) → All P (join_lines ls)
unfolding join_lines
join_lines-All P p [] h = tt
join_lines-All P p (l ∷ []) h = (All-split P l [] h).0
join_lines-All P p (l ∷ m ∷ ls) h =
    let (here, later) = All-split P l (concat (m ∷ ls)) h in
    All-append P (l ++ codes "\n") (join_lines (m ∷ ls)) (All-append P l (codes "\n") here (p, tt))
      (join_lines-All P p (m ∷ ls) later)

-- The digits of the bytes, in lines.
abbrev lines_of : List ℕ → Text
lines_of der = join_lines (pem_lines (to_base64 der))

lines_of-digits :
    (der : List ℕ) → All IsByte der → without_breaks (lines_of der ++ codes "\n") ≡ to_base64 der
lines_of-digits der h =
    without_breaks-append (lines_of der) (codes "\n")
    ∙ append-nil _
    ∙ without_breaks-join_lines (pem_lines (to_base64 der))
    ∙ ap without_breaks (pem_lines-wrap (to_base64 der)).0
    ∙ without_breaks-plain (to_base64 der)
        (All-imp (to_base64 der) (λ c p e. absurd (omega (arith, p, e))) (to_base64-IsPlain der h))

lines_of-NoHyphen :
    (der : List ℕ) → All IsByte der → All (λ c. c ≢ hyphen) (lines_of der ++ codes "\n")
lines_of-NoHyphen der h =
    All-append (λ c. c ≢ hyphen) (lines_of der) (codes "\n")
      (join_lines-All (λ c. c ≢ hyphen) (λ e. absurd (omega (arith, e))) (pem_lines (to_base64 der))
        (subst (All (λ c. c ≢ hyphen)) (sym (pem_lines-wrap (to_base64 der)).0)
          (All-imp (to_base64 der) (λ c p. p.2) (to_base64-IsPlain der h))))
      ((λ e. absurd (omega (arith, e))), tt)

der_to_pem-parts :
    (der : List ℕ) (label : Text)
    → der_to_pem der label ≡ begins label ++ ((lines_of der ++ codes "\n") ++ finishes label)
unfolding der_to_pem
der_to_pem-parts der label = simp (append_assoc)

digits_behind-lines :
    (der : List ℕ) (label : Text)
    → All IsByte der
    → digits_behind label ((lines_of der ++ codes "\n") ++ finishes label) ≡ some der
digits_behind-lines der label h =
    rw
      (
        before_first-append hyphen (lines_of der ++ codes "\n") (drop 1 (finishes label))
            (lines_of-NoHyphen der h),
        drop-append_length (lines_of der ++ codes "\n") (finishes label),
        same_text_refl (finishes label),
        lines_of-digits der h,
        from_base64-to_base64 der h,
      )
      refl

-- The text that derToPem makes of bytes has its label in its first and its last line, and the bytes
-- are read back from what stands between them, whatever the label and the number of the bytes.
pub read_pem-der_to_pem :
    (der : List ℕ) (label : Text)
    → All IsByte der
    → read_pem label (der_to_pem der label) ≡ some der
read_pem-der_to_pem der label h =
    rw
      (
        der_to_pem-parts der label,
        starts_with-append (begins label) ((lines_of der ++ codes "\n") ++ finishes label),
        drop-append_length (begins label) ((lines_of der ++ codes "\n") ++ finishes label),
      )
      (digits_behind-lines der label h)
