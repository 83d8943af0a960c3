-- ===== src/Strings.antt =====
-- The methods of strings that the client's code calls, on texts as lists of code units.
pub mod Equality
pub mod Splitting
pub mod Trimming
use signet_clients.Prelude.{
  ℕ, Bool, true, false, ◌&&◌, ◌||◌, Option, none, some, List, [], ◌∷◌, ◌++◌, ◌==◌, leb,
  if◌then◌else◌,
}
use signet_clients.Runtime.{Text}

-- `s === t`.
unfoldable pub same_text : Text → Text → Bool
same_text [] [] = true
same_text [] (d ∷ t) = false
same_text (c ∷ s) [] = false
same_text (c ∷ s) (d ∷ t) = (c == d) && same_text s t

-- `s.startsWith(prefix)`; the prefix comes first.
unfoldable pub starts_with : Text → Text → Bool
starts_with [] s = true
starts_with (c ∷ prefix) [] = false
starts_with (c ∷ prefix) (d ∷ s) = (c == d) && starts_with prefix s

-- `s.includes(c)` for one code unit.
unfoldable pub includes : ℕ → Text → Bool
includes c [] = false
includes c (d ∷ s) = (c == d) || includes c s

-- `s.slice(0, i)` for the index `i` of the first `c`, or `s` if there is none.
unfoldable pub before_first : ℕ → Text → Text
before_first c [] = []
before_first c (d ∷ s) = let rest = before_first c s in if c == d then [] else d ∷ rest

abbrev pub comma : ℕ
comma = 44

abbrev pub slash : ℕ
slash = 47

-- The code units that `\s` matches and `trim` removes.
unfoldable pub is_white_space : ℕ → Bool
is_white_space c =
    (leb 9 c && leb c 13)
    || (c == 32)
    || (c == 160)
    || (c == 5760)
    || (leb 8192 c && leb c 8202)
    || (c == 8232)
    || (c == 8233)
    || (c == 8239)
    || (c == 8287)
    || (c == 12288)
    || (c == 65279)

unfoldable pub trim_start : Text → Text
unfolding is_white_space
trim_start [] = []
trim_start (c ∷ s) = let rest = trim_start s in if is_white_space c then rest else c ∷ s

-- White space goes if nothing but white space follows.
trim_before : ℕ → Text → Text
unfolding is_white_space
trim_before c [] = if is_white_space c then [] else c ∷ []
trim_before c (d ∷ s) = c ∷ d ∷ s

unfoldable pub trim_end : Text → Text
unfolding trim_before
trim_end [] = []
trim_end (c ∷ s) = trim_before c (trim_end s)

-- `s.trim()`.
unfoldable pub trim : Text → Text
unfolding trim_start trim_end
trim s = trim_end (trim_start s)

-- The code unit is put before the first part.
unfoldable pub onto_first : ℕ → List Text → List Text
onto_first c [] = (c ∷ []) ∷ []
onto_first c (part ∷ parts) = (c ∷ part) ∷ parts

-- `s.split(/,\s*/)`, and the same behind a comma, where white space is still the separator's.
unfoldable pub split_from : Text → Bool → List Text
unfolding onto_first is_white_space
split_from [] skip = [] ∷ []
split_from (c ∷ s) skip =
    let rest = split_from s in
    if c == comma
    then [] ∷ rest true
    else if skip && is_white_space c
    then rest true
    else onto_first c (rest false)

unfoldable pub split_commas : Text → List Text
unfolding split_from
split_commas s = split_from s false
