-- ===== src/Client/Dial.antt =====
-- typescript/src/client.ts: normalizeCAPem, adminChannelCredentials, authInterceptor,
-- mergeAuthInterceptor, dialAdmin and gitOpsClient. The coding of texts as UTF-8, the certificate
-- parser and gRPC's credentials and clients are not part of the repository.
pub mod Safety
pub mod Tests
use signet_clients.Prelude.{
  ℕ, suc, zero, ◌≡◌, ◌≢◌, ◌⊎◌, inl, inr, refl, sym, ap, ◌∙◌, Bool, true, false, not, Option, none,
  some, List, [], ◌∷◌, ◌++◌, ◌==◌, length, drop, All, map, if◌then◌else◌, if_cases,
}
use signet_clients.Runtime.{Text, codes, JsValue, error, new_error, Outcome, resolved, rejected}
use signet_clients.Errors.{err_message}
use signet_clients.Strings.{starts_with, trim}
use signet_clients.Client.{CaPem, absent, text, buffer, has_ca_pem, host_of, admin_transport_mode}
use signet_clients.Client.Transport.{IsLoopback, plaintext-allowed}

abbrev begin_marker : Text
begin_marker = codes "-----BEGIN CERTIFICATE-----"

abbrev end_marker : Text
end_marker = codes "-----END CERTIFICATE-----"

before_too : ℕ → Option (Text × Text) → Option (Text × Text)
before_too c none = none
before_too c (some (before, after)) = some (c ∷ before, after)

-- What stands before the first occurrence of a text, and behind it.
find_marker : Text → Text → Option (Text × Text)
unfolding before_too
find_marker marker [] = none
find_marker marker (c ∷ s) =
    let later = before_too c (find_marker marker s) in
    if starts_with marker (c ∷ s) then some ([], drop (length marker) (c ∷ s)) else later

-- Behind a begin marker: at least one code unit, as few as possible, and the end marker.
block_after : Text → Option (Text × Text)
unfolding before_too find_marker
block_after [] = none
block_after (c ∷ s) = before_too c (find_marker end_marker s)

-- The matches of the pattern of normalizeCAPem, one after the other; each takes a unit of fuel.
blocks_from : ℕ → Text → List Text
unfolding find_marker block_after
blocks_from zero s = []
blocks_from (suc fuel) s = elim (find_marker begin_marker s) [
  | none ↦ []
  | some found ↦ elim (block_after found.1) [
    | none ↦ []
    | some block ↦ (begin_marker ++ block.0 ++ end_marker) ∷ blocks_from fuel block.1
  ]
]

pub certificate_blocks : Text → List Text
unfolding blocks_from
certificate_blocks s = blocks_from (length s) s

pub record AdminLibrary (K : Type 0) : Type 0 where
  pub utf8_encode : Text → Text
  pub utf8_decode : Text → Text
  -- What `new X509Certificate(block)` throws, if it does.
  pub parse_certificate : Text → Option JsValue
  pub create_insecure : K
  pub create_ssl : Option Text → Outcome K

pub record DialAdminOptions (I : Type 0) : Type 0 where
  pub address : Text
  pub token : Text
  pub ca_pem : CaPem
  pub force_tls : Option Bool
  pub plaintext : Option Bool
  pub interceptors : Option (List I)

-- `flag ?? false`.
abbrev pub or_false : Option Bool → Bool
or_false none = false
or_false (some b) = b

module _ {K : Type 0} (lib : AdminLibrary K) where
  open lib use {utf8_encode, utf8_decode, parse_certificate, create_insecure, create_ssl}

  check_block : Option JsValue → Outcome (Option Text) → Outcome (Option Text)
  check_block none rest = rest
  check_block (some e) rest =
      rejected (error (new_error (codes "signet: invalid CA PEM: " ++ err_message e)))

  -- The loop over the blocks; `buf` is what the function returns behind it.
  check_blocks : List Text → Text → Outcome (Option Text)
  unfolding check_block
  check_blocks [] buf = resolved (some buf)
  check_blocks (block ∷ blocks) buf =
      check_block (parse_certificate block) (check_blocks blocks buf)

  some_blocks : List Text → Text → Outcome (Option Text)
  unfolding check_blocks
  some_blocks [] buf = rejected (
      error (
        new_error
          (codes "signet: invalid CA PEM: no PEM certificates found in provided CA bundle")))
  some_blocks (block ∷ blocks) buf = check_blocks (block ∷ blocks) buf

  checked_buffer : Text → Outcome (Option Text)
  unfolding some_blocks
  checked_buffer buf = some_blocks (certificate_blocks (utf8_decode buf)) buf

  pub normalize_ca_pem : CaPem → Outcome (Option Text)
  unfolding checked_buffer
  normalize_ca_pem absent = resolved none
  normalize_ca_pem (text []) = resolved none
  normalize_ca_pem (text (c ∷ s)) = checked_buffer (utf8_encode (c ∷ s))
  normalize_ca_pem (buffer bytes) = checked_buffer bytes

  ssl_with_ca : Outcome (Option Text) → Outcome K
  ssl_with_ca (resolved ca) = create_ssl ca
  ssl_with_ca (rejected e) = rejected e

  by_mode : Outcome Bool → CaPem → Outcome K
  unfolding ssl_with_ca normalize_ca_pem
  by_mode (rejected e) ca_pem = rejected e
  by_mode (resolved false) ca_pem = resolved create_insecure
  by_mode (resolved true) ca_pem = ssl_with_ca (normalize_ca_pem ca_pem)

  for_token : {I : Type 0} → Text → DialAdminOptions I → Outcome K
  unfolding by_mode
  for_token [] opts = rejected (error (new_error (codes "signet: token must not be empty")))
  for_token (c ∷ token) opts =
      by_mode
        (admin_transport_mode opts.address opts.ca_pem (or_false opts.force_tls)
          (or_false opts.plaintext))
        opts.ca_pem

  pub admin_channel_credentials : {I : Type 0} → DialAdminOptions I → Outcome K
  unfolding for_token
  admin_channel_credentials opts = for_token (trim opts.token) opts

-- An interceptor: the one of authInterceptor, with the metadata that it sets on every call, or one
-- that was given.
pub data Interceptor (I : Type 0) : Type 0 where
  sets_metadata : Text → Text → Interceptor I
  given : I → Interceptor I

module _ {I : Type 0} where
  pub auth_interceptor : Text → Interceptor I
  auth_interceptor token = sets_metadata (codes "authorization") (codes "Bearer " ++ token)

  all_given : Option (List I) → List (Interceptor I)
  all_given none = []
  all_given (some is) = map given is

  -- The interceptors of the client's options.
  pub merge_auth_interceptor : DialAdminOptions I → List (Interceptor I)
  unfolding auth_interceptor all_given
  merge_auth_interceptor opts = auth_interceptor (trim opts.token) ∷ all_given opts.interceptors

  -- `dialAdmin` and `gitOpsClient`: the address, the credentials and the interceptors of the client.
  dialled :
      {K : Type 0} → Outcome K → DialAdminOptions I → Outcome (Text × K × List (Interceptor I))
  unfolding merge_auth_interceptor
  dialled (resolved k) opts = resolved (opts.address, k, merge_auth_interceptor opts)
  dialled (rejected e) opts = rejected e

  pub dial_admin :
      {K : Type 0} → AdminLibrary K → DialAdminOptions I → Outcome (Text × K × List (Interceptor I))
  unfolding dialled admin_channel_credentials
  dial_admin lib opts = dialled (admin_channel_credentials lib opts) opts
