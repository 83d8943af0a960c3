-- ===== src/Client/Dial/Safety.antt =====
-- With which credentials, CA bundle and token the admin listener is dialled.
use signet_clients.Prelude.{
  ◌≡◌, ◌≢◌, ◌⊎◌, inl, inr, refl, sym, ◌∙◌, Bool, true, false, Option, none, some, List, [], ◌∷◌,
  ◌++◌, All,
}
use signet_clients.Runtime.{Text, codes, JsValue, Outcome, resolved, rejected}
use signet_clients.Strings.{trim}
use signet_clients.Client.{CaPem, absent, text, buffer, has_ca_pem, host_of, admin_transport_mode}
use signet_clients.Client.Transport.{IsLoopback, plaintext-allowed}
use signet_clients.Client.Dial.{
  certificate_blocks, AdminLibrary, DialAdminOptions, or_false, check_block, check_blocks,
  some_blocks, checked_buffer, normalize_ca_pem, ssl_with_ca, by_mode, for_token,
  admin_channel_credentials, Interceptor, sets_metadata, auth_interceptor, merge_auth_interceptor,
  dialled, dial_admin,
}

module _ {K : Type 0} (lib : AdminLibrary K) where
  open lib use {utf8_decode, parse_certificate, create_insecure, create_ssl}

  -- A block that the certificate parser accepts.
  abbrev pub IsCertificate : Text → Type 0
  IsCertificate block = parse_certificate block ≡ none

  check_block-resolved :
      (thrown : Option JsValue) (rest : Outcome (Option Text)) (ca : Option Text)
      → check_block lib thrown rest ≡ resolved ca
      → (thrown ≡ none) × (rest ≡ resolved ca)
  unfolding check_block
  check_block-resolved none rest ca e = (refl, e)
  check_block-resolved (some x) rest ca e = absurd (cc (e))

  check_blocks-resolved :
      (blocks : List Text) (buf : Text) (ca : Option Text)
      → check_blocks lib blocks buf ≡ resolved ca
      → (ca ≡ some buf) × All IsCertificate blocks
  unfolding check_blocks
  check_blocks-resolved [] buf ca e = (sym (cc (e)), tt)
  check_blocks-resolved (block ∷ blocks) buf ca e =
      let (accepted, rest) = check_block-resolved (parse_certificate block) _ ca e in
      let (same, others) = check_blocks-resolved blocks buf ca rest in (same, (accepted, others))

  -- A CA bundle that has been checked: certificates, at least one, and nothing that fails to parse.
  abbrev pub IsChecked : Option Text → Type 0
  IsChecked none = Unit {0}
  IsChecked (some buf) =
      (certificate_blocks (utf8_decode buf) ≢ [])
      × All IsCertificate (certificate_blocks (utf8_decode buf))

  some_blocks-resolved :
      (blocks : List Text) (buf : Text) (ca : Option Text)
      → some_blocks lib blocks buf ≡ resolved ca
      → (ca ≡ some buf) × (blocks ≢ []) × All IsCertificate blocks
  unfolding some_blocks
  some_blocks-resolved [] buf ca e = absurd (cc (e))
  some_blocks-resolved (block ∷ blocks) buf ca e =
      let (same, valid) = check_blocks-resolved (block ∷ blocks) buf ca e in
      (same, (λ none_left. absurd (cc (none_left))), valid)

  checked_buffer-IsChecked :
      (buf : Text) (ca : Option Text)
      → checked_buffer lib buf ≡ resolved ca
      → IsChecked ca × (ca ≢ none)
  unfolding checked_buffer
  checked_buffer-IsChecked buf ca e =
      let (same, filled, valid) =
        some_blocks-resolved (certificate_blocks (utf8_decode buf)) buf ca e in
      rw same ((filled, valid), (λ n. absurd (cc (n))))

  -- The bundle that TLS trusts is checked, and the system's trust store is used only if no bundle
  -- was given.
  normalize_ca_pem-IsChecked :
      (given : CaPem) (ca : Option Text)
      → normalize_ca_pem lib given ≡ resolved ca
      → IsChecked ca × ((ca ≡ none) → has_ca_pem given ≡ false)
  unfolding normalize_ca_pem has_ca_pem
  normalize_ca_pem-IsChecked absent ca e =
      let same : none ≡ ca = cc (e) in rw (sym same) (tt, (λ _. refl))
  normalize_ca_pem-IsChecked (text []) ca e =
      let same : none ≡ ca = cc (e) in rw (sym same) (tt, (λ _. refl))
  normalize_ca_pem-IsChecked (text (c ∷ s)) ca e =
      let (valid, filled) = checked_buffer-IsChecked (lib.utf8_encode (c ∷ s)) ca e in
      (valid, (λ n. absurd (filled n)))
  normalize_ca_pem-IsChecked (buffer bytes) ca e =
      let (valid, filled) = checked_buffer-IsChecked bytes ca e in (valid, (λ n. absurd (filled n)))

  -- In the clear, or over TLS with a checked bundle.
  abbrev pub IsAllowed : {I : Type 0} → DialAdminOptions I → K → Type 0
  IsAllowed opts k =
      ((k ≡ create_insecure)
        × ((or_false opts.plaintext ≡ true)
            ⊎ (IsLoopback (host_of opts.address)
                × (or_false opts.force_tls ≡ false)
                × (has_ca_pem opts.ca_pem ≡ false))))
      ⊎ ((ca : Option Text) × (create_ssl ca ≡ resolved k)
          × IsChecked ca
          × ((ca ≡ none) → has_ca_pem opts.ca_pem ≡ false))

  ssl_with_ca-resolved :
      (o : Outcome (Option Text)) (k : K)
      → ssl_with_ca lib o ≡ resolved k
      → (ca : Option Text) × (o ≡ resolved ca) × (create_ssl ca ≡ resolved k)
  unfolding ssl_with_ca
  ssl_with_ca-resolved (resolved ca) k e = (ca, refl, e)
  ssl_with_ca-resolved (rejected x) k e = absurd (cc (e))

  by_mode-resolved :
      (mode : Outcome Bool) (given : CaPem) (k : K)
      → by_mode lib mode given ≡ resolved k
      → ((mode ≡ resolved false) × (k ≡ create_insecure))
        ⊎ ((ca : Option Text) × (normalize_ca_pem lib given ≡ resolved ca)
            × (create_ssl ca ≡ resolved k))
  unfolding by_mode
  by_mode-resolved (rejected x) given k e = absurd (cc (e))
  by_mode-resolved (resolved false) given k e = inl (refl, sym (cc (e)))
  by_mode-resolved (resolved true) given k e =
      inr (ssl_with_ca-resolved (normalize_ca_pem lib given) k e)

  for_token-resolved :
      {I : Type 0} (token : Text) (opts : DialAdminOptions I) (k : K)
      → for_token lib token opts ≡ resolved k
      → (token ≢ []) × IsAllowed opts k
  unfolding for_token
  for_token-resolved [] opts k e = absurd (cc (e))
  for_token-resolved (c ∷ token) opts k e = (
    (λ empty. absurd (cc (empty))),
    elim (by_mode-resolved
        (admin_transport_mode opts.address opts.ca_pem (or_false opts.force_tls)
          (or_false opts.plaintext))
        opts.ca_pem k e) [
          | inl (clear, same) ↦ inl (same, plaintext-allowed opts.address opts.ca_pem _ _ clear)
          | inr (ca, normal, made) ↦
              let (valid, bundled) = normalize_ca_pem-IsChecked opts.ca_pem ca normal in
              inr (ca, made, valid, bundled)
        ],
  )

  dialled-resolved :
      {I : Type 0} (o : Outcome K) (opts : DialAdminOptions I) (address : Text) (k : K)
      (interceptors : List (Interceptor I))
      → dialled o opts ≡ resolved (address, k, interceptors)
      → (o ≡ resolved k) × (address ≡ opts.address) × (interceptors ≡ merge_auth_interceptor opts)
  unfolding dialled
  dialled-resolved (resolved k') opts address k interceptors e = (cc (e), cc (e), cc (e))
  dialled-resolved (rejected x) opts address k interceptors e = absurd (cc (e))

first_interceptor :
    {I : Type 0} (opts : DialAdminOptions I)
    → (rest : List (Interceptor I)) × (merge_auth_interceptor opts
        ≡ sets_metadata (codes "authorization") (codes "Bearer " ++ trim opts.token) ∷ rest)
unfolding merge_auth_interceptor auth_interceptor
first_interceptor opts = (_, refl)

-- A client is dialled at the given address, and only with a token that is not blank, which its first
-- interceptor puts, trimmed, into the metadata of every call. Its credentials are insecure only if
-- plaintext was asked for, or for a loopback host with neither TLS forced nor a CA bundle given;
-- otherwise they are TLS with a bundle that holds certificates and no invalid one, or with the
-- system's trust store, if no bundle was given.
pub dial_admin-safe :
    {K I : Type 0} (lib : AdminLibrary K) (opts : DialAdminOptions I) (address : Text) (k : K)
    (interceptors : List (Interceptor I))
    → dial_admin lib opts ≡ resolved (address, k, interceptors)
    → (address ≡ opts.address)
      × (trim opts.token ≢ [])
      × ((rest : List (Interceptor I)) × (interceptors
            ≡ sets_metadata (codes "authorization") (codes "Bearer " ++ trim opts.token) ∷ rest))
      × IsAllowed lib opts k
unfolding dial_admin admin_channel_credentials
dial_admin-safe lib opts address k interceptors e =
    let (made, same, merged) = dialled-resolved lib _ opts address k interceptors e in
    let (token, allowed) = for_token-resolved lib (trim opts.token) opts k made in
    let (rest, first) = first_interceptor opts in (same, token, (rest, merged ∙ first), allowed)
