-- ===== src/Workload/Credentials/Tests.antt =====
-- Credentials whose identity is issued late.
use signet_clients.Prelude.{ℕ, zero, suc, ◌≡◌, refl, [], ◌∷◌, ◌++◌, none}
use signet_clients.Runtime.{Text, codes, JsValue, error, text_code, foreign, resolved}
use signet_clients.Strings.{
  is_white_space, starts_with, includes, same_text, trim, trim_start, trim_end,
}
use signet_clients.Workload.{
  retry_until_identity_issued, is_no_identity_issued_err, normalize_trust_domain,
  check_server_identity, code_of, is_permission_denied, nonempty_domain, without_scheme, pathless,
  spiffe_scheme, checker, authorize_trust_domain_member, retry_from, after_probe, after_failure,
  slept_first,
}
use signet_clients.Workload.Credentials.{
  Svid, FirstResponse, message, broke, WorkloadLibrary, fetch_first_x509_svid, and_then, named,
  ssl_with, credentials_from_svid, fetched_by, with_client, with_verify,
  workload_channel_credentials, credentials-parts,
}
use signet_clients.Pem.{der_to_pem}
use signet_clients.Workload.Trust.{spiffe_name}

abbrev denied : JsValue
denied = error (record {
  class = foreign;
  code = text_code (codes "PERMISSION_DENIED");
  message = codes "no identity issued";
})

abbrev example_org : Text
example_org = codes "example.org"

abbrev example_svid : Svid
example_svid = record { x509_svid = 3 ∷ []; bundle = 1 ∷ []; x509_svid_key = 2 ∷ [] }

-- The second fetch gives an identity.
abbrev late_response : ℕ → FirstResponse
late_response zero = broke denied
late_response (suc n) = message (example_svid ∷ [])

-- A library whose credentials are the trusted and the presented certificates, one after the other.
abbrev example_library : WorkloadLibrary (Unit {0}) Text
example_library = record {
  create_client = λ socket. resolved tt;
  first_response = λ c i. late_response i;
  pem_chain = λ bytes. resolved bytes;
  create_ssl = λ trusted key chain verify. resolved (trusted ++ chain);
}

credentials-parts_run :
    (d : Text) × (c : Unit {0}) × (svid : Svid) × (chain : Text) × (trusted : Text)
    × (normalize_trust_domain example_org ≡ resolved d)
    × (example_library.create_client none ≡ resolved c)
    × ((retry_until_identity_issued
          (λ i. fetch_first_x509_svid (example_library.first_response c i))).outcome
        ≡ resolved svid)
    × (example_library.pem_chain svid.x509_svid ≡ resolved chain)
    × (example_library.pem_chain svid.bundle ≡ resolved trusted)
    × (example_library.create_ssl trusted
          (der_to_pem svid.x509_svid_key (codes "PRIVATE KEY"))
          chain
          (check_server_identity d)
        ≡ resolved (1 ∷ 3 ∷ []))
unfolding workload_channel_credentials authorize_trust_domain_member checker normalize_trust_domain
    nonempty_domain without_scheme pathless trim trim_start trim_end starts_with includes
    spiffe_scheme is_white_space and_then with_verify with_client named fetched_by
    retry_until_identity_issued retry_from after_probe after_failure is_no_identity_issued_err
    code_of is_permission_denied same_text slept_first fetch_first_x509_svid credentials_from_svid
    ssl_with
credentials-parts_run = credentials-parts example_library none example_org (1 ∷ 3 ∷ []) refl

abbrev server_name : Text
server_name = spiffe_name example_org (codes "/signet")
