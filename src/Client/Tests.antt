-- ===== src/Client/Tests.antt =====
-- Addresses of an admin listener, forwarded to the local machine or in a cluster.
use signet_clients.Prelude.{◌≡◌, ◌↔◌, ◌⊎◌, refl, true, false, ◌∷◌, ◌++◌, if◌then◌else◌, arith}
use signet_clients.Runtime.{Text, codes, JsValue, resolved, rejected}
use signet_clients.Strings.{includes, same_text, starts_with}
use signet_clients.Strings.Equality.{includes-none}
use signet_clients.Client.{
  colon, is_digit, all_digits, is_v4_segment, split_dots, four_segments, is_ipv4, is_loopback_host,
  split_last, is_line_terminator, one_line, nonempty, bracketed, unbracketed, or_unbracketed,
  host_of, absent, text, has_ca_pem, admin_transport_mode,
}
use signet_clients.Client.Hosts.{NoColon, host_of-last_colon, host_of-bracketed}
use signet_clients.Client.Transport.{IsLoopback, plaintext-allowed, options-exclude}

abbrev forwarded : Text
forwarded = codes "127.0.0.1:8444"

abbrev cluster : Text
cluster = codes "signet-admin.signet.svc:8444"

forwarded_in_clear : admin_transport_mode forwarded absent false false ≡ resolved false
unfolding admin_transport_mode has_ca_pem is_loopback_host is_ipv4 split_dots four_segments
    is_v4_segment is_digit host_of bracketed or_unbracketed unbracketed split_last starts_with
    same_text includes
forwarded_in_clear = refl

cluster_over_tls : admin_transport_mode cluster absent false false ≡ resolved true
unfolding admin_transport_mode has_ca_pem is_loopback_host is_ipv4 split_dots four_segments
    is_v4_segment is_digit host_of bracketed or_unbracketed unbracketed split_last starts_with
    same_text includes
cluster_over_tls = refl

-- 256 is no byte, so that this is no IPv4 address.
no_address : is_loopback_host (codes "127.0.0.256") ≡ false
unfolding is_loopback_host is_ipv4 split_dots four_segments is_v4_segment is_digit starts_with
    same_text
no_address = refl

plaintext-allowed_run :
    (false ≡ true)
    ⊎ (IsLoopback (host_of forwarded) × (false ≡ false) × (has_ca_pem absent ≡ false))
plaintext-allowed_run = plaintext-allowed forwarded absent false false forwarded_in_clear

options-exclude_run :
    ((x : JsValue) × (admin_transport_mode cluster (text (codes "ca")) false true ≡ rejected x))
    ↔ ((true ≡ true) × ((false ≡ true) ⊎ (has_ca_pem (text (codes "ca")) ≡ true)))
options-exclude_run = options-exclude cluster (text (codes "ca")) false true

port_digits : all_digits (codes "8444") ≡ true
unfolding all_digits is_digit
port_digits = refl

port-NoColon : NoColon (codes "8444")
unfolding includes
port-NoColon = includes-none colon (codes "8444") refl

host_of-last_colon_run : host_of (codes "fe80::1" ++ colon ∷ codes "8444") ≡ (
    if includes colon (codes "fe80::1")
    then codes "fe80::1" ++ colon ∷ codes "8444"
    else codes "fe80::1")
host_of-last_colon_run =
    host_of-last_colon (codes "fe80::1") (codes "8444") (λ e. absurd (omega (arith, e)))
      port-NoColon

host_of-bracketed_run :
    host_of (codes "[" ++ ((codes "::1" ++ codes "]") ++ codes ":" ++ codes "8444")) ≡ codes "::1"
unfolding nonempty one_line is_line_terminator
host_of-bracketed_run = host_of-bracketed (codes "::1") (codes "8444") refl refl refl port_digits
