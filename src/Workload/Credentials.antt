-- ===== src/Workload/Credentials.antt =====
-- typescript/src/workload.ts: fetchFirstX509SVID, credentialsFromSVID, workloadChannelCredentials
-- and the dials that use them. The Workload API client, the certificate parser and gRPC's
-- credentials and clients are not part of the repository.
pub mod Authorizing
pub mod Tests
use signet_clients.Prelude.{ℕ, ◌≡◌, refl, sym, ap, ◌∙◌, Option, none, some, List, [], ◌∷◌, ◌++◌}
use signet_clients.Runtime.{
  Text, codes, JsError, JsValue, error, new_error, Outcome, resolved, rejected,
}
use signet_clients.Errors.{err_message}
use signet_clients.Pem.{der_to_pem}
use signet_clients.Workload.{
  Retried, retry_until_identity_issued, normalize_trust_domain, check_server_identity, checker,
  authorize_trust_domain_member,
}

pub record Svid : Type 0 where
  pub x509_svid : List ℕ
  pub bundle : List ℕ
  pub x509_svid_key : List ℕ

-- What the stream of responses gives first: a message, its end, or an error.
pub data FirstResponse : Type 0 where
  message : List Svid → FirstResponse
  ended : FirstResponse
  broke : JsValue → FirstResponse

-- The callback that decides about a server's certificate.
abbrev pub Verify : Type 0
Verify = Option Text → Option JsError

-- `first_response c i` is the stream of call number `i`; `pem_chain` is what a parsed bundle prints
-- as "pem-chain".
pub record WorkloadLibrary (C K : Type 0) : Type 0 where
  pub create_client : Option Text → Outcome C
  pub first_response : C → ℕ → FirstResponse
  pub pem_chain : List ℕ → Outcome Text
  pub create_ssl : Text → Text → Text → Verify → Outcome K

pub fetch_first_x509_svid : FirstResponse → Outcome Svid
fetch_first_x509_svid (message []) =
    rejected (error (new_error (codes "workload API response contained no SVIDs")))
fetch_first_x509_svid (message (svid ∷ svids)) = resolved svid
fetch_first_x509_svid ended =
    rejected (error (new_error (codes "workload API closed the stream without returning an SVID")))
fetch_first_x509_svid (broke e) = rejected e

module _ {A B : Type 0} where
  -- A statement that may throw, and what follows it.
  and_then : Outcome A → (A → Outcome B) → Outcome B
  and_then (resolved a) k = k a
  and_then (rejected e) k = rejected e

-- `catch (err) { throw new Error(prefix + errMessage(err)) }`.
named : {A : Type 0} → Text → Outcome A → Outcome A
named prefix (resolved a) = resolved a
named prefix (rejected e) = rejected (error (new_error (prefix ++ err_message e)))

abbrev connect_failure : Text
connect_failure = codes "signet: connect to SPIFFE workload API: "

abbrev fetch_failure : Text
fetch_failure = codes "signet: fetch X.509 SVID from workload API: "

module _ {C K : Type 0} (lib : WorkloadLibrary C K) where
  open lib use {create_client, first_response, pem_chain, create_ssl}

  -- The last statement of `credentialsFromSVID`.
  ssl_with : Svid → Verify → Text → Text → Outcome K
  ssl_with svid verify cert_chain trust_bundle =
      create_ssl trust_bundle (der_to_pem svid.x509_svid_key (codes "PRIVATE KEY")) cert_chain
        verify

  pub credentials_from_svid : Svid → Verify → Outcome K
  unfolding and_then ssl_with
  credentials_from_svid svid verify =
      and_then (pem_chain svid.x509_svid)
        (λ cert_chain. and_then (pem_chain svid.bundle) (ssl_with svid verify cert_chain))

  fetched_by : C → Outcome Svid
  fetched_by workload_client =
      (retry_until_identity_issued
        (λ i. fetch_first_x509_svid (first_response workload_client i))).outcome

  with_client : Verify → C → Outcome K
  unfolding and_then named fetched_by
  with_client verify workload_client =
      and_then (named fetch_failure (fetched_by workload_client))
        (λ svid. credentials_from_svid svid verify)

  with_verify : Option Text → Verify → Outcome K
  unfolding and_then named with_client
  with_verify workload_socket verify =
      and_then (named connect_failure (create_client workload_socket)) (with_client verify)

  pub workload_channel_credentials : Option Text → Text → Outcome K
  unfolding and_then with_verify
  workload_channel_credentials workload_socket trust_domain =
      and_then (authorize_trust_domain_member trust_domain) (with_verify workload_socket)

module _ {A B : Type 0} where
  and_then-resolved :
      (o : Outcome A) (k : A → Outcome B) (b : B)
      → and_then o k ≡ resolved b
      → (a : A) × (o ≡ resolved a) × (k a ≡ resolved b)
  unfolding and_then
  and_then-resolved (resolved a) k b e = (a, refl, e)
  and_then-resolved (rejected x) k b e = absurd (cc (e))

named-resolved :
    {A : Type 0} (prefix : Text) (o : Outcome A) (a : A)
    → named prefix o ≡ resolved a
    → o ≡ resolved a
unfolding named
named-resolved prefix (resolved a') a e = e
named-resolved prefix (rejected x) a e = absurd (cc (e))

checker-resolved :
    (o : Outcome Text) (verify : Verify)
    → checker o ≡ resolved verify
    → (d : Text) × (o ≡ resolved d) × (verify ≡ check_server_identity d)
unfolding checker
checker-resolved (resolved d) verify e = (d, refl, sym (cc (e)))
checker-resolved (rejected x) verify e = absurd (cc (e))

-- Credentials are given only for a valid trust domain, and are then those of TLS with the SVID that
-- the retried fetch gave: its bundle is what is trusted, its key and certificate chain are what is
-- presented, and a server's certificate is checked against that trust domain.
pub credentials-parts :
    {C K : Type 0} (lib : WorkloadLibrary C K) (socket : Option Text) (trust_domain : Text) (k : K)
    → workload_channel_credentials lib socket trust_domain ≡ resolved k
    → (d : Text) × (c : C) × (svid : Svid) × (chain : Text) × (trusted : Text)
      × (normalize_trust_domain trust_domain ≡ resolved d)
      × (lib.create_client socket ≡ resolved c)
      × ((retry_until_identity_issued (λ i. fetch_first_x509_svid (lib.first_response c i))).outcome
          ≡ resolved svid)
      × (lib.pem_chain svid.x509_svid ≡ resolved chain)
      × (lib.pem_chain svid.bundle ≡ resolved trusted)
      × (lib.create_ssl trusted
            (der_to_pem svid.x509_svid_key (codes "PRIVATE KEY"))
            chain
            (check_server_identity d)
          ≡ resolved k)
unfolding workload_channel_credentials authorize_trust_domain_member with_verify with_client
    credentials_from_svid ssl_with fetched_by
credentials-parts {C} {K} lib socket trust_domain k e =
    let (verify, valid, e1) = and_then-resolved _ (with_verify lib socket) k e in
    let (d, normal, same) = checker-resolved _ verify valid in
    let (c, connected, e2) =
      and_then-resolved (named connect_failure (lib.create_client socket)) (with_client lib verify)
        k e1 in
    let (svid, fetched, e3) =
      and_then-resolved (named fetch_failure (fetched_by lib c))
        (λ svid. credentials_from_svid lib svid verify) k e2 in
    let (chain, chained, e4) =
      and_then-resolved (lib.pem_chain svid.x509_svid)
        (λ chain. and_then (lib.pem_chain svid.bundle) (ssl_with lib svid verify chain)) k e3 in
    let (trusted, bundled, e5) =
      and_then-resolved (lib.pem_chain svid.bundle) (ssl_with lib svid verify chain) k e4 in
    (
      d,
      c,
      svid,
      chain,
      trusted,
      normal,
      named-resolved connect_failure _ c connected,
      named-resolved fetch_failure _ svid fetched,
      chained,
      bundled,
      ap (λ v. ssl_with lib svid v chain trusted) (sym same) ∙ e5,
    )
