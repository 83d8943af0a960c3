-- ===== src/Workload/Domains.antt =====
-- Which trust domains the client accepts as an option, and what it makes of them.
use signet_clients.Prelude.{
  ◌≡◌, ◌≢◌, ◌⊎◌, refl, sym, ap, ◌∙◌, subst, false, [], ◌∷◌, ◌++◌, All-append, if_cases, else_branch,
  Bool-cases, inl, inr,
}
use signet_clients.Runtime.{Text, codes, resolved}
use signet_clients.Strings.{starts_with, includes, slash, trim, is_white_space}
use signet_clients.Strings.Equality.{includes-none, none-includes, starts_with-split}
use signet_clients.Strings.Trimming.{IsBlank, IsSolid, trim-blanks}
use signet_clients.Workload.Trust.{NoSlash}
use signet_clients.Workload.{
  spiffe_scheme, without_scheme, pathless, nonempty_domain, normalize_trust_domain,
}

pathless-resolved : (given t d : Text) → pathless given t ≡ resolved d → (t ≡ d) × NoSlash d
unfolding pathless
pathless-resolved given t d =
    if_cases (λ r. r ≡ resolved d → (t ≡ d) × NoSlash d) (includes slash t) (λ _ e. absurd (cc (e)))
      (λ plain e.
        let same : t ≡ d = cc (e) in
        (same, includes-none slash d (ap (includes slash) (sym same) ∙ plain)))

nonempty-NoSlash : (t s d : Text) → nonempty_domain t s ≡ resolved d → NoSlash d
unfolding nonempty_domain
nonempty-NoSlash t [] d e = absurd (cc (e))
nonempty-NoSlash t (c ∷ s) d e = (pathless-resolved t (without_scheme (c ∷ s)) d e).1

-- What the client takes for a trust domain has no path.
pub normalize-NoSlash : (t d : Text) → normalize_trust_domain t ≡ resolved d → NoSlash d
unfolding normalize_trust_domain
normalize-NoSlash t d = nonempty-NoSlash t (trim t) d

without_scheme-forms :
    (t : Text) → (t ≡ without_scheme t) ⊎ (t ≡ codes "spiffe://" ++ without_scheme t)
unfolding without_scheme spiffe_scheme
without_scheme-forms t =
    if_cases (λ d. (t ≡ d) ⊎ (t ≡ codes "spiffe://" ++ d)) (starts_with spiffe_scheme t)
      (λ prefixed. inr (starts_with-split spiffe_scheme t prefixed)) (λ _. inl refl)

-- What is taken for a trust domain: a text that is not empty, with or without the scheme.
abbrev pub IsFormOf : Text → Text → Type 0
IsFormOf t d = (t ≢ []) × ((t ≡ d) ⊎ (t ≡ codes "spiffe://" ++ d))

nonempty-IsFormOf : (given t d : Text) → nonempty_domain given t ≡ resolved d → IsFormOf t d
unfolding nonempty_domain
nonempty-IsFormOf given [] d e = absurd (cc (e))
nonempty-IsFormOf given (c ∷ t) d e =
    let (same, plain) = pathless-resolved given (without_scheme (c ∷ t)) d e in
    (
      λ empty. absurd (cc (empty)),
      subst (λ r. (c ∷ t ≡ r) ⊎ (c ∷ t ≡ codes "spiffe://" ++ r)) same
          (without_scheme-forms (c ∷ t)),
    )

-- The trust domain that the client expects is the text that it is given, trimmed and without a
-- scheme.
pub normalize-IsFormOf : (t d : Text) → normalize_trust_domain t ≡ resolved d → IsFormOf (trim t) d
unfolding normalize_trust_domain
normalize-IsFormOf t d = nonempty-IsFormOf t (trim t) d

pathless-plain : (given t : Text) → NoSlash t → pathless given t ≡ resolved t
unfolding pathless
pathless-plain given t plain = else_branch (includes slash t) _ _ (none-includes slash t plain)

scheme-slash : (rest : Text) → NoSlash (spiffe_scheme ++ rest) → ⊥
unfolding spiffe_scheme
scheme-slash rest (_, (_, (_, (_, (_, (_, (_, (no_slash, _)))))))) = no_slash refl

plain-unprefixed : (d : Text) → NoSlash d → starts_with spiffe_scheme d ≡ false
plain-unprefixed d plain = elim (Bool-cases (starts_with spiffe_scheme d)) [
  | inl prefixed ↦
      absurd (scheme-slash _ (subst NoSlash (starts_with-split spiffe_scheme d prefixed) plain))
  | inr other ↦ other
]

bare-resolved : (given d : Text) → NoSlash d → d ≢ [] → nonempty_domain given d ≡ resolved d
unfolding nonempty_domain without_scheme
bare-resolved given [] plain some_text = absurd (some_text refl)
bare-resolved given (c ∷ d) plain some_text =
    ap (pathless given) (else_branch _ _ _ (plain-unprefixed (c ∷ d) plain))
    ∙ pathless-plain given (c ∷ d) plain

prefixed-resolved :
    (given d : Text) → NoSlash d → nonempty_domain given (codes "spiffe://" ++ d) ≡ resolved d
unfolding nonempty_domain without_scheme spiffe_scheme starts_with
prefixed-resolved given d plain = pathless-plain given d plain

scheme-IsSolid : IsSolid (codes "spiffe://")
unfolding is_white_space
scheme-IsSolid = (refl, (refl, (refl, (refl, (refl, (refl, (refl, (refl, (refl, tt)))))))))

-- A trust domain may be given with or without the scheme, and with white space around it: a
-- non-empty one without slashes or white space is taken as it is.
pub normalize-domain :
    (before d after : Text)
    → IsBlank before
    → IsBlank after
    → IsSolid d
    → NoSlash d
    → d ≢ []
    → (normalize_trust_domain (before ++ (d ++ after)) ≡ resolved d)
      × (normalize_trust_domain (before ++ ((codes "spiffe://" ++ d) ++ after)) ≡ resolved d)
unfolding normalize_trust_domain
normalize-domain before d after b a solid plain some_text = (
  ap (nonempty_domain _) (trim-blanks before d after b solid a) ∙ bare-resolved _ d plain some_text,
  ap (nonempty_domain (before ++ ((codes "spiffe://" ++ d) ++ after))) (
        trim-blanks before (codes "spiffe://" ++ d) after b
          (All-append _ (codes "spiffe://") d scheme-IsSolid solid) a)
      ∙ prefixed-resolved _ d plain,
)
