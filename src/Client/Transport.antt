-- ===== src/Client/Transport.antt =====
-- When the admin listener is dialled without TLS, and which options exclude each other.
use signet_clients.Prelude.{
  ◌≡◌, ◌↔◌, ◌⊎◌, inl, inr, refl, Bool, true, false, not, ◌&&◌, ◌||◌, if◌then◌else◌, if_cases,
}
use signet_clients.Runtime.{Text, codes, JsValue, Outcome, resolved, rejected}
use signet_clients.Strings.{same_text, starts_with}
use signet_clients.Strings.Equality.{same_text-eq}
use signet_clients.Client.{
  is_ipv4, is_loopback_host, host_of, CaPem, has_ca_pem, admin_transport_mode,
}

-- The hosts that are dialled in the clear by default.
abbrev pub IsLoopback : Text → Type 0
IsLoopback host =
    (host ≡ codes "localhost")
    ⊎ ((host ≡ codes "::1") ⊎ ((is_ipv4 host ≡ true) × (starts_with (codes "127.") host ≡ true)))

is_loopback_host-IsLoopback : (host : Text) → is_loopback_host host ≡ true → IsLoopback host
unfolding is_loopback_host
is_loopback_host-IsLoopback host =
    if_cases (λ r. r ≡ true → IsLoopback host) (same_text host (codes "localhost"))
      (λ same _. inl (same_text-eq host (codes "localhost") same))
      (λ _.
        if_cases (λ r. r ≡ true → IsLoopback host) (is_ipv4 host) (λ v4 loop. inr (inr (v4, loop)))
          (λ _ same. inr (inl (same_text-eq host (codes "::1") same))))

mode-cases :
    (force_tls ca plaintext loopback : Bool) (e e' : JsValue)
    → (if plaintext && force_tls
        then rejected e
        else if plaintext && ca
        then rejected e'
        else if plaintext
        then resolved false
        else resolved (force_tls || ca || not loopback))
      ≡ resolved false
    → (plaintext ≡ true) ⊎ ((loopback ≡ true) × (force_tls ≡ false) × (ca ≡ false))
mode-cases force_tls ca true loopback e e' h = inl refl
mode-cases true ca false loopback e e' h = absurd (cc (h))
mode-cases false true false loopback e e' h = absurd (cc (h))
mode-cases false false false true e e' h = inr (refl, refl, refl)
mode-cases false false false false e e' h = absurd (cc (h))

-- Without TLS, and so with the bearer token in the clear, the listener is dialled only if plaintext
-- was asked for, or if the host of the address is localhost, ::1 or an IPv4 address in 127.0.0.0/8
-- and neither TLS was forced nor a CA bundle given.
pub plaintext-allowed :
    (address : Text) (ca_pem : CaPem) (force_tls plaintext : Bool)
    → admin_transport_mode address ca_pem force_tls plaintext ≡ resolved false
    → (plaintext ≡ true)
      ⊎ (IsLoopback (host_of address) × (force_tls ≡ false) × (has_ca_pem ca_pem ≡ false))
unfolding admin_transport_mode
plaintext-allowed address ca_pem force_tls plaintext h =
    elim (mode-cases force_tls (has_ca_pem ca_pem) plaintext (is_loopback_host (host_of address)) _
      _ h) [
        | inl asked ↦ inl asked
        | inr (loop, unforced, bare) ↦
            inr (is_loopback_host-IsLoopback (host_of address) loop, unforced, bare)
      ]

refused-cases :
    (force_tls ca plaintext : Bool) (e e' : JsValue) (o : Outcome Bool)
    → ((b : Bool) × (o ≡ resolved b))
    → ((x : JsValue) × ((if plaintext && force_tls
            then rejected e
            else if plaintext && ca
            then rejected e'
            else o)
          ≡ rejected x))
      ↔ ((plaintext ≡ true) × ((force_tls ≡ true) ⊎ (ca ≡ true)))
refused-cases true ca true e e' o (b, r) = ((λ _. (refl, inl refl)), (λ _. (e, refl)))
refused-cases false true true e e' o (b, r) = ((λ _. (refl, inr refl)), (λ _. (e', refl)))
refused-cases false false true e e' o (b, r) = (
  (λ (x, h). absurd (cc (r, h))),
  (λ (_, h). elim h [ inl a ↦ absurd (cc (a)) | inr a ↦ absurd (cc (a)) ]),
)
refused-cases true ca false e e' o (b, r) =
    ((λ (x, h). absurd (cc (r, h))), (λ (a, h). absurd (cc (a))))
refused-cases false ca false e e' o (b, r) =
    ((λ (x, h). absurd (cc (r, h))), (λ (a, h). absurd (cc (a))))

chosen :
    (plaintext other : Bool)
    → (b : Bool) × ((if plaintext then resolved false else resolved other) ≡ resolved b)
chosen true other = (false, refl)
chosen false other = (other, refl)

-- The options are refused exactly if plaintext was asked for together with forced TLS or with a CA
-- bundle.
pub options-exclude :
    (address : Text) (ca_pem : CaPem) (force_tls plaintext : Bool)
    → ((x : JsValue) × (admin_transport_mode address ca_pem force_tls plaintext ≡ rejected x))
      ↔ ((plaintext ≡ true) × ((force_tls ≡ true) ⊎ (has_ca_pem ca_pem ≡ true)))
unfolding admin_transport_mode
options-exclude address ca_pem force_tls plaintext =
    refused-cases force_tls (has_ca_pem ca_pem) plaintext _ _ _ (chosen plaintext _)
