-- ===== src/Client/Dial/Tests.antt =====
-- A forwarded admin listener, dialled with a token from a file.
use signet_clients.Prelude.{ℕ, ◌≡◌, ◌≢◌, refl, none, List, [], ◌∷◌, ◌++◌}
use signet_clients.Runtime.{codes, resolved}
use signet_clients.Strings.{
  same_text, starts_with, includes, trim, trim_start, trim_end, is_white_space,
}
use signet_clients.Client.{
  absent, host_of, admin_transport_mode, has_ca_pem, is_loopback_host, is_ipv4, split_dots,
  four_segments, is_v4_segment, is_digit, bracketed, or_unbracketed, unbracketed, split_last,
}
use signet_clients.Client.Dial.{
  AdminLibrary, DialAdminOptions, by_mode, for_token, admin_channel_credentials, Interceptor,
  sets_metadata, auth_interceptor, all_given, merge_auth_interceptor, dialled, dial_admin,
  certificate_blocks, blocks_from, find_marker, before_too, block_after,
}
use signet_clients.Client.Dial.Safety.{IsAllowed, dial_admin-safe}

abbrev example_library : AdminLibrary ℕ
example_library = record {
  utf8_encode = λ t. t;
  utf8_decode = λ t. t;
  parse_certificate = λ block. none;
  create_insecure = 0;
  create_ssl = λ ca. resolved 1;
}

abbrev forwarded : DialAdminOptions (Unit {0})
forwarded = record {
  address = codes "localhost:8444";
  token = codes "secret\n";
  ca_pem = absent;
  force_tls = none;
  plaintext = none;
  interceptors = none;
}

-- Two certificates, with a comment in between.
two_blocks :
    certificate_blocks (
      codes
        "-----BEGIN CERTIFICATE-----A-----END CERTIFICATE-----x-----BEGIN CERTIFICATE-----B-----END CERTIFICATE-----")
    ≡ codes "-----BEGIN CERTIFICATE-----A-----END CERTIFICATE-----"
      ∷ codes "-----BEGIN CERTIFICATE-----B-----END CERTIFICATE-----"
      ∷ []
unfolding certificate_blocks blocks_from find_marker before_too block_after starts_with
two_blocks = refl

dial_admin-safe_example :
    (codes "localhost:8444" ≡ forwarded.address)
    × (trim forwarded.token ≢ [])
    × ((rest : List (Interceptor (Unit {0}))) × ((sets_metadata
              (codes "authorization")
              (codes "Bearer secret")
            ∷ [])
          ≡ sets_metadata (codes "authorization") (codes "Bearer " ++ trim forwarded.token) ∷ rest))
    × IsAllowed example_library forwarded 0
unfolding dial_admin dialled admin_channel_credentials for_token by_mode admin_transport_mode
    has_ca_pem is_loopback_host is_ipv4 split_dots four_segments is_v4_segment is_digit host_of
    bracketed or_unbracketed unbracketed split_last starts_with same_text includes trim trim_start
    trim_end is_white_space merge_auth_interceptor auth_interceptor all_given
dial_admin-safe_example =
    dial_admin-safe example_library forwarded (codes "localhost:8444") 0
      (sets_metadata (codes "authorization") (codes "Bearer secret") ∷ []) refl
