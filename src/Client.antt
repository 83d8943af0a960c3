-- ===== src/Client.antt =====
-- typescript/src/client.ts: whether the admin listener is dialled with TLS, and the address, the CA
-- bundle and the token that this takes.
pub mod Hosts
pub mod Transport
pub mod Dial
pub mod Tests
use signet_clients.Prelude.{
  ℕ, suc, zero, Bool, true, false, not, ◌&&◌, ◌||◌, Option, none, some, List, [], ◌∷◌, ◌++◌, ◌==◌,
  leb, if◌then◌else◌,
}
use signet_clients.Runtime.{Text, codes, JsValue, error, new_error, Outcome, resolved, rejected}
use signet_clients.Errors.{err_message}
use signet_clients.Strings.{same_text, starts_with, includes, trim}

abbrev pub colon : ℕ
colon = 58

abbrev pub dot : ℕ
dot = 46

pub is_digit : ℕ → Bool
is_digit c = leb 48 c && leb c 57

pub all_digits : Text → Bool
unfolding is_digit
all_digits [] = true
all_digits (c ∷ s) = is_digit c && all_digits s

-- A decimal byte as `net.isIPv4` reads one: no leading zero, at most 255.
is_v4_segment : Text → Bool
unfolding is_digit
is_v4_segment [] = false
is_v4_segment (a ∷ []) = is_digit a
is_v4_segment (a ∷ b ∷ []) = (leb 49 a && leb a 57) && is_digit b
is_v4_segment (a ∷ b ∷ c ∷ []) =
    ((a == 49) && is_digit b && is_digit c)
    || ((a == 50) && leb 48 b && leb b 52 && is_digit c)
    || ((a == 50) && (b == 53) && leb 48 c && leb c 53)
is_v4_segment (a ∷ b ∷ c ∷ d ∷ s) = false

-- `s.split(".")`: the first part, and the others.
split_dots : Text → Text × List Text
split_dots [] = ([], [])
split_dots (c ∷ s) =
    let (part, parts) = split_dots s in if c == dot then ([], part ∷ parts) else (c ∷ part, parts)

four_segments : Text × List Text → Bool
unfolding is_v4_segment
four_segments (a, b ∷ c ∷ d ∷ []) =
    is_v4_segment a && is_v4_segment b && is_v4_segment c && is_v4_segment d
four_segments (a, parts) = false

-- `net.isIPv4`.
pub is_ipv4 : Text → Bool
unfolding split_dots four_segments
is_ipv4 host = four_segments (split_dots host)

pub is_loopback_host : Text → Bool
unfolding is_ipv4
is_loopback_host host =
    if same_text host (codes "localhost")
    then true
    else if is_ipv4 host
    then starts_with (codes "127.") host
    else same_text host (codes "::1")

-- The text before the last `c` and the text behind it, if there is one.
pub split_last : ℕ → Text → Option (Text × Text)
split_last c [] = none
split_last c (d ∷ s) = elim (split_last c s) [
  | some r ↦ some (d ∷ r.0, r.1)
  | none ↦ if c == d then some ([], s) else none
]

-- What `.` of a pattern does not match.
is_line_terminator : ℕ → Bool
is_line_terminator c = (c == 10) || (c == 13) || (c == 8232) || (c == 8233)

pub one_line : Text → Bool
unfolding is_line_terminator
one_line [] = true
one_line (c ∷ s) = not (is_line_terminator c) && one_line s

pub nonempty : Text → Bool
nonempty [] = false
nonempty (c ∷ s) = true

-- The host of `[host]:digits`, from what stands between the first bracket and the last colon: its
-- last code unit must be the other bracket.
closed_by_bracket : Option (Text × Text) → Option Text
unfolding one_line nonempty
closed_by_bracket none = none
closed_by_bracket (some (host, [])) = if nonempty host && one_line host then some host else none
closed_by_bracket (some (host, c ∷ s)) = none

bracketed_before : Option (Text × Text) → Option Text
unfolding closed_by_bracket split_last all_digits nonempty
bracketed_before none = none
bracketed_before (some (before, port)) =
    if nonempty port && all_digits port then closed_by_bracket (split_last 93 before) else none

-- The match of /^\[(.+)\]:\d+$/. Digits hold no colon, so the last colon is the pattern's.
bracketed : Text → Option Text
unfolding bracketed_before split_last
bracketed [] = none
bracketed (c ∷ s) = if c == 91 then bracketed_before (split_last colon s) else none

-- Without brackets: what stands before the only colon, or the whole address.
unbracketed : Text → Option (Text × Text) → Text
unbracketed address none = address
unbracketed address (some (candidate, port)) =
    if includes colon candidate then address else candidate

or_unbracketed : Text → Option Text → Text
unfolding unbracketed split_last
or_unbracketed address (some host) = host
or_unbracketed address none = unbracketed address (split_last colon address)

pub host_of : Text → Text
unfolding bracketed or_unbracketed
host_of address = or_unbracketed address (bracketed address)

-- The option `caPem`.
pub data CaPem : Type 0 where
  absent : CaPem
  text buffer : Text → CaPem

-- An empty text counts as no bundle; an empty buffer does not.
pub has_ca_pem : CaPem → Bool
has_ca_pem absent = false
has_ca_pem (text []) = false
has_ca_pem (text (c ∷ s)) = true
has_ca_pem (buffer bytes) = true

-- The outcome is `useTLS`.
pub admin_transport_mode : Text → CaPem → Bool → Bool → Outcome Bool
unfolding has_ca_pem is_loopback_host host_of
admin_transport_mode address ca_pem force_tls plaintext =
    if plaintext && force_tls
    then rejected
        (error (new_error (codes "signet: forceTLS and plaintext are mutually exclusive")))
    else if plaintext && has_ca_pem ca_pem
    then rejected (error (new_error (codes "signet: plaintext and caPem are mutually exclusive")))
    else if plaintext
    then resolved false
    else resolved (force_tls || has_ca_pem ca_pem || not (is_loopback_host (host_of address)))
