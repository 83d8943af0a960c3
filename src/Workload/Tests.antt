-- ===== src/Workload/Tests.antt =====
-- A dial that loses the race for its identity twice, and certificates of an example trust domain.
use signet_clients.Prelude.{
  true, ℕ, zero, suc, ◌≡◌, ◌↔◌, refl, [], ◌∷◌, ◌++◌, none, some, ◌<◌, arith,
}
use signet_clients.Runtime.{
  Text, codes, JsError, JsValue, error, text_code, foreign, Outcome, resolved, rejected,
}
use signet_clients.Strings.{
  is_white_space, starts_with, slash, comma, includes, same_text, trim, trim_start, trim_end,
}
use signet_clients.Strings.Equality.{includes-none}
use signet_clients.Strings.Splitting.{IsPart}
use signet_clients.Strings.Trimming.{IsSolid, IsBlank}
use signet_clients.Workload.{
  retry_until_identity_issued, is_no_identity_issued_err, normalize_trust_domain,
  check_server_identity, code_of, is_permission_denied, nonempty_domain, without_scheme, pathless,
  spiffe_scheme,
}
use signet_clients.Workload.Retry.{IsUnissued, exhausted, retry-decides, retry-exhausts}
use signet_clients.Workload.Trust.{
  IsOtherName, NoSlash, spiffe_name, join_parts, check-accepts, check-refuses_unnamed,
}
use signet_clients.Workload.Domains.{normalize-domain}

abbrev denied : JsValue
denied = error (record {
  class = foreign;
  code = text_code (codes "PERMISSION_DENIED");
  message = codes "no identity issued";
})

abbrev slow_registration : ℕ → Outcome ℕ
slow_registration zero = rejected denied
slow_registration (suc zero) = rejected denied
slow_registration (suc (suc n)) = resolved 7

denied-IsUnissued : is_no_identity_issued_err denied ≡ true
unfolding is_no_identity_issued_err code_of is_permission_denied same_text
denied-IsUnissued = refl

slow-IsUnissued : (i : ℕ) → i < 2 → IsUnissued (slow_registration i)
slow-IsUnissued zero h = denied-IsUnissued
slow-IsUnissued (suc zero) h = denied-IsUnissued
slow-IsUnissued (suc (suc i)) h = absurd (omega arith)

retry-decides_example :
    retry_until_identity_issued slow_registration
    ≡ record { outcome = resolved 7; probes = 3; slept = 1000 ∷ 2000 ∷ [] }
retry-decides_example = retry-decides slow_registration 2 (omega arith) slow-IsUnissued tt

retry-exhausts_example : retry_until_identity_issued {T = ℕ} (λ i. rejected denied) ≡ record {
  outcome = exhausted (rejected denied);
  probes = 5;
  slept = 1000 ∷ 2000 ∷ 4000 ∷ 8000 ∷ [];
}
retry-exhausts_example = retry-exhausts (λ i. rejected denied) (λ i h. denied-IsUnissued)

abbrev dns : Text
dns = codes "DNS:signet"

abbrev address : Text
address = codes "IP Address:10.0.0.1"

abbrev example_org : Text
example_org = codes "example.org"

abbrev workload_path : Text
workload_path = codes "/ns/signet"

dns-IsPart : IsPart dns
unfolding includes is_white_space
dns-IsPart = (includes-none comma dns refl, refl)

address-IsPart : IsPart address
unfolding includes is_white_space
address-IsPart = (includes-none comma address refl, refl)

spiffe-IsPart : IsPart (spiffe_name example_org workload_path)
unfolding includes is_white_space
spiffe-IsPart = (includes-none comma (spiffe_name example_org workload_path) refl, refl)

dns-IsOtherName : IsOtherName dns
unfolding starts_with
dns-IsOtherName = refl

address-IsOtherName : IsOtherName address
unfolding starts_with
address-IsOtherName = refl

example_org-NoSlash : NoSlash example_org
unfolding includes
example_org-NoSlash = includes-none slash example_org refl

check-accepts_example :
    (check_server_identity example_org
        (some (join_parts (dns ∷ spiffe_name example_org workload_path ∷ address ∷ [])))
      ≡ none)
    ↔ (example_org ≡ example_org)
check-accepts_example =
    check-accepts example_org (dns ∷ []) (address ∷ []) example_org workload_path
      (dns-IsPart, (spiffe-IsPart, (address-IsPart, tt))) (dns-IsOtherName, tt) example_org-NoSlash
      refl

check-refuses_unnamed_run :
    (e : JsError) × (check_server_identity example_org (some (join_parts (dns ∷ address ∷ [])))
      ≡ some e)
check-refuses_unnamed_run =
    check-refuses_unnamed example_org (dns ∷ address ∷ []) (dns-IsPart, (address-IsPart, tt))
      (dns-IsOtherName, (address-IsOtherName, tt))

example_org-IsSolid : IsSolid example_org
unfolding is_white_space
example_org-IsSolid =
    (refl, (refl, (refl, (refl, (refl, (refl, (refl, (refl, (refl, (refl, (refl, tt)))))))))))

newline-IsBlank : IsBlank (codes "\n")
unfolding is_white_space
newline-IsBlank = (refl, tt)

normalize-domain_run :
    (normalize_trust_domain (codes "\n" ++ (example_org ++ [])) ≡ resolved example_org)
    × (normalize_trust_domain (codes "\n" ++ ((codes "spiffe://" ++ example_org) ++ []))
        ≡ resolved example_org)
normalize-domain_run =
    normalize-domain (codes "\n") example_org [] newline-IsBlank tt example_org-IsSolid
      example_org-NoSlash (λ e. absurd (cc (e)))

-- A scheme with no trust domain behind it is taken for the empty trust domain.
scheme_alone : normalize_trust_domain (codes "spiffe://") ≡ resolved []
unfolding normalize_trust_domain nonempty_domain without_scheme pathless trim trim_start trim_end
    starts_with includes spiffe_scheme is_white_space
scheme_alone = refl
