-- ===== src/Workload/Trust.antt =====
-- Which certificates the check of the server's identity accepts.
use signet_clients.Prelude.{
  ◌≡◌, ◌≢◌, ◌↔◌, ◌⊎◌, inl, inr, refl, ap, ◌∙◌, Bool, true, false, none, some, List, [], ◌∷◌, ◌++◌,
  All, if◌then◌else◌, else_branch, append-nil,
}
use signet_clients.Runtime.{Text, codes, JsError}
use signet_clients.Strings.{same_text, starts_with, before_first, slash}
use signet_clients.Strings.Equality.{
  same_text_refl, same_text-eq, before_first-none, before_first-append,
}
use signet_clients.Strings.Splitting.{join_commas, NoComma, IsPart, split-join}
use signet_clients.Workload.{
  trust_domain_of, first_spiffe_id, extract_spiffe_id, check_id, check_server_identity,
}

-- A part that names no SPIFFE ID.
abbrev pub IsOtherName : Text → Type 0
IsOtherName part = starts_with (codes "URI:spiffe://") part ≡ false

abbrev pub NoSlash : Text → Type 0
NoSlash = All (λ c. c ≢ slash)

-- The subject alternative name of a SPIFFE certificate: `URI:` and the ID, whose trust domain
-- ends at a slash or at the ID's end.
abbrev pub IsPath : Text → Type 0
IsPath [] = Unit {0}
IsPath (c ∷ s) = c ≡ slash

abbrev pub spiffe_name : Text → Text → Text
spiffe_name domain path = codes "URI:spiffe://" ++ (domain ++ path)

-- The parts of a subject alternative name, in their order, as Node joins them.
abbrev pub join_parts : List Text → Text
join_parts [] = []
join_parts (p ∷ ps) = join_commas p ps

domain-before_path :
    (domain path : Text)
    → NoSlash domain
    → IsPath path
    → before_first slash (domain ++ path) ≡ domain
domain-before_path domain [] plain _ =
    ap (before_first slash) (append-nil domain) ∙ before_first-none slash domain plain
domain-before_path domain (c ∷ path) plain at =
    ap (λ d. before_first slash (domain ++ d ∷ path)) at
    ∙ before_first-append slash domain path plain

first-skips :
    (others rest : List Text)
    → All IsOtherName others
    → first_spiffe_id (others ++ rest) ≡ first_spiffe_id rest
unfolding first_spiffe_id
first-skips [] rest h = refl
first-skips (p ∷ others) rest (other, h) =
    else_branch (starts_with (codes "URI:spiffe://") p) _ _ other ∙ first-skips others rest h

first-found :
    (domain path : Text) (after : List Text)
    → first_spiffe_id (spiffe_name domain path ∷ after)
      ≡ some (codes "spiffe://" ++ (domain ++ path))
unfolding first_spiffe_id starts_with
first-found domain path after = refl

extract-parts :
    (p : Text) (ps : List Text)
    → NoComma p
    → All IsPart ps
    → (p ≢ []) ⊎ (ps ≢ [])
    → extract_spiffe_id (some (join_commas p ps)) ≡ first_spiffe_id (p ∷ ps)
unfolding extract_spiffe_id
extract-parts [] [] plain parts (inl named) = absurd (named refl)
extract-parts [] [] plain parts (inr more) = absurd (more refl)
extract-parts [] (q ∷ qs) plain parts named =
    ap first_spiffe_id (split-join [] (q ∷ qs) plain parts)
extract-parts (c ∷ p) [] plain parts named = ap first_spiffe_id (split-join (c ∷ p) [] plain parts)
extract-parts (c ∷ p) (q ∷ qs) plain parts named =
    ap first_spiffe_id (split-join (c ∷ p) (q ∷ qs) plain parts)

append-more : (ps : List Text) (q : Text) (qs : List Text) → ps ++ q ∷ qs ≢ []
append-more [] q qs e = absurd (cc (e))
append-more (p ∷ ps) q qs e = absurd (cc (e))

-- The whole name, as the callback sees it.
extract-joined :
    (others after : List Text) (domain path : Text)
    → All IsPart (others ++ spiffe_name domain path ∷ after)
    → All IsOtherName others
    → extract_spiffe_id (some (join_parts (others ++ spiffe_name domain path ∷ after)))
      ≡ some (codes "spiffe://" ++ (domain ++ path))
extract-joined [] after domain path ((plain, tight), parts) h =
    extract-parts (spiffe_name domain path) after plain parts (inl (λ e. absurd (cc (e))))
    ∙ first-found domain path after
extract-joined (p ∷ others) after domain path ((plain, tight), parts) h =
    extract-parts p (others ++ spiffe_name domain path ∷ after) plain parts
      (inr (append-more others (spiffe_name domain path) after))
    ∙ first-skips (p ∷ others) (spiffe_name domain path ∷ after) h
    ∙ first-found domain path after

if_accepts : (b : Bool) (e : JsError) → (if b then none else some e) ≡ none → b ≡ true
if_accepts true e h = refl
if_accepts false e h = absurd (cc (h))

check-domain :
    (expected domain path : Text)
    → NoSlash domain
    → IsPath path
    → (check_id expected (some (codes "spiffe://" ++ (domain ++ path))) ≡ none)
      ↔ (domain ≡ expected)
unfolding check_id trust_domain_of
check-domain expected domain path plain p = rw (domain-before_path domain path plain p) (
  (λ h. same_text-eq domain expected (if_accepts (same_text domain expected) _ h)),
  (λ e. rw (e, same_text_refl expected) refl),
)

-- The first part of a certificate's subject alternative name that names a SPIFFE ID decides, if no
-- part has a comma or starts with white space: the check accepts the certificate exactly if the
-- ID's trust domain is the expected one.
pub check-accepts :
    (expected : Text) (others after : List Text) (domain path : Text)
    → All IsPart (others ++ spiffe_name domain path ∷ after)
    → All IsOtherName others
    → NoSlash domain
    → IsPath path
    → (check_server_identity expected
          (some (join_parts (others ++ spiffe_name domain path ∷ after)))
        ≡ none)
      ↔ (domain ≡ expected)
unfolding check_server_identity
check-accepts expected others after domain path parts h plain p =
    rw (extract-joined others after domain path parts h) (check-domain expected domain path plain p)

first-nothing : (parts : List Text) → All IsOtherName parts → first_spiffe_id parts ≡ none
unfolding first_spiffe_id
first-nothing [] h = refl
first-nothing (p ∷ ps) (other, h) =
    else_branch (starts_with (codes "URI:spiffe://") p) _ _ other ∙ first-nothing ps h

extract-nothing :
    (parts : List Text)
    → All IsPart parts
    → All IsOtherName parts
    → extract_spiffe_id (some (join_parts parts)) ≡ none
unfolding extract_spiffe_id
extract-nothing [] parts h = refl
extract-nothing ([] ∷ []) parts h = refl
extract-nothing ([] ∷ q ∷ qs) ((plain, _), parts) h =
    extract-parts [] (q ∷ qs) plain parts (inr (λ e. absurd (cc (e))))
    ∙ first-nothing ([] ∷ q ∷ qs) h
extract-nothing ((c ∷ p) ∷ ps) ((plain, _), parts) h =
    extract-parts (c ∷ p) ps plain parts (inl (λ e. absurd (cc (e))))
    ∙ first-nothing ((c ∷ p) ∷ ps) h

-- A certificate none of whose names is a SPIFFE ID is refused, whatever trust domain is expected, if
-- no name has a comma or starts with white space.
pub check-refuses_unnamed :
    (expected : Text) (parts : List Text)
    → All IsPart parts
    → All IsOtherName parts
    → (e : JsError) × (check_server_identity expected (some (join_parts parts)) ≡ some e)
unfolding check_server_identity check_id
check-refuses_unnamed expected parts plain h =
    (_, ap (check_id expected) (extract-nothing parts plain h))
