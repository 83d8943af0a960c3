-- ===== src/Strings/Splitting.antt =====
-- Splitting at commas undoes joining with a comma and a space.
use signet_clients.Prelude.{
  ◌≡◌, refl, sym, ap, ◌∙◌, true, false, List, [], ◌∷◌, ◌++◌, ◌==◌, All, ◌≢◌, arith, else_branch,
  append-nil,
}
use signet_clients.Runtime.{Text, codes}
use signet_clients.Strings.{comma, is_white_space, onto_first, split_from, split_commas}

-- `[p, ...ps].join(", ")`.
abbrev pub join_commas : Text → List Text → Text
join_commas p [] = p
join_commas p (q ∷ qs) = p ++ (codes ", " ++ join_commas q qs)

abbrev pub IsTight : Text → Type 0
IsTight [] = Unit {0}
IsTight (c ∷ s) = is_white_space c ≡ false

abbrev pub NoComma : Text → Type 0
NoComma = All (λ c. c ≢ comma)

-- A part that splitting gives back: no comma in it, and no white space at its start.
abbrev pub IsPart : Text → Type 0
IsPart s = NoComma s × IsTight s

-- A text before the first part.
abbrev onto : Text → List Text → List Text
onto [] parts = parts
onto (c ∷ s) parts = onto_first c (onto s parts)

onto-cons : (s p : Text) (ps : List Text) → onto s (p ∷ ps) ≡ (s ++ p) ∷ ps
unfolding onto_first
onto-cons [] p ps = refl
onto-cons (c ∷ s) p ps = rw (onto-cons s p ps)

split_from-append :
    (p s : Text) → NoComma p → split_from (p ++ s) false ≡ onto p (split_from s false)
unfolding split_from
split_from-append [] s h = refl
split_from-append (c ∷ p) s (other, h) =
    else_branch (c == comma) _ _ (ground arith) ∙ ap (onto_first c) (split_from-append p s h)

split_from-tight : (s : Text) → IsTight s → split_from s true ≡ split_from s false
unfolding split_from
split_from-tight [] h = refl
split_from-tight (c ∷ s) h = rw h

-- The separator: the comma ends a part, and the space behind it is dropped.
split_from-separator : (s : Text) → split_from (codes ", " ++ s) false ≡ [] ∷ split_from s true
unfolding split_from is_white_space
split_from-separator s = refl

join-IsTight : (q : Text) (qs : List Text) → IsTight q → IsTight (join_commas q qs)
unfolding is_white_space
join-IsTight [] [] h = tt
join-IsTight [] (r ∷ rs) h = refl
join-IsTight (c ∷ q) [] h = h
join-IsTight (c ∷ q) (r ∷ rs) h = h

onto-nil : (p : Text) → onto p (split_from [] false) ≡ p ∷ []
unfolding split_from
onto-nil p = onto-cons p [] [] ∙ ap (λ s. s ∷ []) (append-nil p)

onto-part : (p : Text) (ps : List Text) → onto p ([] ∷ ps) ≡ p ∷ ps
onto-part p ps = onto-cons p [] ps ∙ ap (λ s. s ∷ ps) (append-nil p)

split_from-join :
    (p : Text) (ps : List Text)
    → NoComma p
    → All IsPart ps
    → split_from (join_commas p ps) false ≡ p ∷ ps
split_from-join p [] h _ =
    ap (λ s. split_from s false) (sym (append-nil p)) ∙ split_from-append p [] h ∙ onto-nil p
split_from-join p (q ∷ qs) h ((plain, tight), rest) =
    split_from-append p (codes ", " ++ join_commas q qs) h
    ∙ ap (onto p) (split_from-separator (join_commas q qs))
    ∙ ap (λ parts. onto p ([] ∷ parts))
        (split_from-tight (join_commas q qs) (join-IsTight q qs tight)
          ∙ split_from-join q qs plain rest)
    ∙ onto-part p (q ∷ qs)

-- Splitting a joined list gives the list back, if no part but the first starts with white space,
-- and none has a comma.
pub split-join :
    (p : Text) (ps : List Text)
    → NoComma p
    → All IsPart ps
    → split_commas (join_commas p ps) ≡ p ∷ ps
unfolding split_commas
split-join p ps h rest = split_from-join p ps h rest
