-- ===== src/Strings/Equality.antt =====
-- Comparing texts.
use signet_clients.Prelude.{ℕ, ◌≡◌, refl, true, false, [], ◌∷◌, ◌++◌, drop, length, All, ◌≢◌, arith}
use signet_clients.Runtime.{Text}
use signet_clients.Strings.{same_text, starts_with, includes, before_first}

pub same_text_refl : (s : Text) → same_text s s ≡ true
unfolding same_text
same_text_refl [] = refl
same_text_refl (c ∷ s) = ground (arith, same_text_refl s)

pub same_text-eq : (s t : Text) → same_text s t ≡ true → s ≡ t
unfolding same_text
same_text-eq [] [] h = refl
same_text-eq [] (d ∷ t) h = absurd (cc)
same_text-eq (c ∷ s) [] h = absurd (cc)
same_text-eq (c ∷ s) (d ∷ t) h = ground (arith, same_text-eq s t)

pub starts_with-append : (prefix s : Text) → starts_with prefix (prefix ++ s) ≡ true
unfolding starts_with
starts_with-append [] s = refl
starts_with-append (c ∷ prefix) s = ground (arith, starts_with-append prefix s)

-- What starts with a prefix is the prefix with a rest.
pub starts_with-split :
    (prefix s : Text) → starts_with prefix s ≡ true → s ≡ prefix ++ drop (length prefix) s
unfolding starts_with
starts_with-split [] s h = refl
starts_with-split (c ∷ prefix) [] h = absurd (cc)
starts_with-split (c ∷ prefix) (d ∷ s) h = ground (arith, starts_with-split prefix s)

pub includes-none : (c : ℕ) (s : Text) → includes c s ≡ false → All (λ d. d ≢ c) s
unfolding includes
includes-none c [] h = tt
includes-none c (d ∷ s) h = (ground arith, includes-none c s (ground arith))

pub none-includes : (c : ℕ) (s : Text) → All (λ d. d ≢ c) s → includes c s ≡ false
unfolding includes
none-includes c [] h = refl
none-includes c (d ∷ s) (other, h) = ground (arith, none-includes c s h)

pub before_first-none : (c : ℕ) (s : Text) → All (λ d. d ≢ c) s → before_first c s ≡ s
unfolding before_first
before_first-none c [] h = refl
before_first-none c (d ∷ s) (other, h) = ground (arith, before_first-none c s h)

-- What stands before the first `c`.
pub before_first-append :
    (c : ℕ) (s t : Text) → All (λ d. d ≢ c) s → before_first c (s ++ c ∷ t) ≡ s
unfolding before_first
before_first-append c [] t h = ground arith
before_first-append c (d ∷ s) t (other, h) = ground (arith, before_first-append c s t h)
