-- ===== src/Client/Hosts.antt =====
-- The host that the client reads off an address.
use signet_clients.Prelude.{
  ℕ, ◌≡◌, ◌≢◌, refl, ap, ◌∙◌, true, none, some, [], ◌∷◌, ◌++◌, ◌==◌, All, if◌then◌else◌,
  else_branch, append_assoc, arith,
}
use signet_clients.Runtime.{Text, codes}
use signet_clients.Strings.{includes}
use signet_clients.Client.{
  colon, is_digit, all_digits, split_last, one_line, nonempty, closed_by_bracket, bracketed_before,
  bracketed, unbracketed, or_unbracketed, host_of,
}

split_last-none : (c : ℕ) (t : Text) → All (λ d. d ≢ c) t → split_last c t ≡ none
unfolding split_last
split_last-none c [] h = refl
split_last-none c (d ∷ t) (other, h) =
    rw (split_last-none c t h) (else_branch (c == d) _ _ (ground arith))

split_last-append :
    (c : ℕ) (s t : Text) → All (λ d. d ≢ c) t → split_last c (s ++ c ∷ t) ≡ some (s, t)
unfolding split_last
split_last-append c [] t h = rw (split_last-none c t h) (ground arith)
split_last-append c (d ∷ s) t h = rw (split_last-append c s t h) refl

abbrev pub NoColon : Text → Type 0
NoColon = All (λ c. c ≢ colon)

abbrev pub IsUnbracketed : Text → Type 0
IsUnbracketed [] = Unit {0}
IsUnbracketed (c ∷ s) = c ≢ 91

digits-NoColon : (s : Text) → all_digits s ≡ true → NoColon s
unfolding all_digits is_digit
digits-NoColon [] h = tt
digits-NoColon (c ∷ s) h = (ground arith, digits-NoColon s (ground arith))

not_bracketed : (host s : Text) → IsUnbracketed host → bracketed (host ++ colon ∷ s) ≡ none
unfolding bracketed
not_bracketed [] s h = refl
not_bracketed (c ∷ host) s h = else_branch (c == 91) _ _ (ground arith)

-- If an address does not start with a bracket, its host is what stands before the last colon; but if
-- that has a colon itself, as a bare IPv6 address does, the whole address is the host.
pub host_of-last_colon :
    (host port : Text)
    → IsUnbracketed host
    → NoColon port
    → host_of (host ++ colon ∷ port) ≡ (if includes colon host then host ++ colon ∷ port else host)
unfolding host_of or_unbracketed unbracketed
host_of-last_colon host port h p =
    ap (or_unbracketed (host ++ colon ∷ port)) (not_bracketed host port h)
    ∙ ap (unbracketed (host ++ colon ∷ port)) (split_last-append colon host port p)

closing_bracket :
    (host : Text)
    → nonempty host ≡ true
    → one_line host ≡ true
    → closed_by_bracket (some (host, [])) ≡ some host
unfolding closed_by_bracket
closing_bracket host some_text line = rw (some_text, line) refl

before_port :
    (host port : Text)
    → nonempty host ≡ true
    → one_line host ≡ true
    → nonempty port ≡ true
    → all_digits port ≡ true
    → bracketed_before (some (host ++ 93 ∷ [], port)) ≡ some host
unfolding bracketed_before
before_port host port some_text line some_port digits =
    rw (some_port, digits)
      (ap closed_by_bracket (split_last-append 93 host [] tt) ∙ closing_bracket host some_text line)

-- The host of an address in brackets with a port is what the brackets hold, colons included.
pub host_of-bracketed :
    (host port : Text)
    → nonempty host ≡ true
    → one_line host ≡ true
    → nonempty port ≡ true
    → all_digits port ≡ true
    → host_of (codes "[" ++ ((host ++ codes "]") ++ codes ":" ++ port)) ≡ host
unfolding host_of bracketed or_unbracketed
host_of-bracketed host port some_text line some_port digits =
    ap (or_unbracketed (codes "[" ++ ((host ++ codes "]") ++ codes ":" ++ port))) (
      ap bracketed_before (
        ap (split_last colon) (append_assoc (host ++ codes "]") (codes ":") port)
        ∙ split_last-append colon (host ++ codes "]") port (digits-NoColon port digits))
      ∙ before_port host port some_text line some_port digits)
