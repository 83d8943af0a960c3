-- ===== src/Workload.antt =====
-- typescript/src/workload.ts: the retries of the first dial, the check of the server's SPIFFE
-- identity and the credentials that are built from them.
pub mod Trust
pub mod Domains
pub mod Retry
pub mod Credentials
pub mod Tests
use signet_clients.Prelude.{
  ℕ, suc, zero, ◌+◌, ◌-◌, ◌*◌, ◌/◌, ◌%◌, Bool, true, false, Option, none, some, List, [], ◌∷◌, ◌++◌,
  ◌==◌, ltb, drop, take, length, get_elem?, if◌then◌else◌,
}
use signet_clients.Runtime.{
  Text, codes, JsError, JsValue, error, other, object, NonError, CodeProperty, text_code, new_error,
  Outcome, resolved, rejected,
}
use signet_clients.Errors.{err_message}
use signet_clients.Strings.{
  same_text, starts_with, includes, before_first, slash, trim, split_commas,
}

-- The default schedule, in milliseconds.
abbrev pub workload_dial_backoff_ms : List ℕ
workload_dial_backoff_ms = 1000 ∷ 2000 ∷ 4000 ∷ 8000 ∷ []

abbrev pub workload_dial_max_attempts : ℕ
workload_dial_max_attempts = length workload_dial_backoff_ms + 1

code_of : JsValue → CodeProperty
code_of (error e) = e.code
code_of (other (object code t)) = code
code_of (other v) = CodeProperty.absent

is_permission_denied : CodeProperty → Bool
is_permission_denied (text_code t) = same_text t (codes "PERMISSION_DENIED")
is_permission_denied CodeProperty.absent = false
is_permission_denied CodeProperty.other_code = false

-- A value that is no object, or has no `code`, has no such code either.
pub is_no_identity_issued_err : JsValue → Bool
unfolding code_of is_permission_denied
is_no_identity_issued_err err = is_permission_denied (code_of err)

-- A call of `retryUntilIdentityIssued`: how it ended, how often it called `probe`, and the
-- milliseconds that it slept in between.
pub record Retried (T : Type 0) : Type 0 where
  pub outcome : Outcome T
  pub probes : ℕ
  pub slept : List ℕ

-- `setTimeout` reads an undefined delay as 1 ms.
delay_ms : Option ℕ → ℕ
delay_ms none = 1
delay_ms (some ms) = ms

module _ {T : Type 0} where
  abbrev pub gave_up : JsValue → Outcome T
  gave_up last_err =
      rejected
        (error (new_error (codes "no identity issued after 5 attempts: " ++ err_message last_err)))

  slept_first : ℕ → Retried T → Retried T
  slept_first ms r = record r { slept = ms ∷ r.slept }

  -- The catch block of attempt number `attempt`; `next` is the rest of the loop.
  after_failure : JsValue → ℕ → Retried T → Retried T
  unfolding slept_first delay_ms
  after_failure err attempt next =
      if is_no_identity_issued_err err
      then (if attempt == length workload_dial_backoff_ms
          then record { outcome = gave_up err; probes = suc attempt; slept = [] }
          else slept_first (delay_ms (get_elem? workload_dial_backoff_ms attempt)) next)
      else record { outcome = rejected err; probes = suc attempt; slept = [] }

  after_probe : Outcome T → ℕ → Retried T → Retried T
  unfolding after_failure
  after_probe (resolved v) attempt next = record {
    outcome = resolved v;
    probes = suc attempt;
    slept = [];
  }
  after_probe (rejected err) attempt next = after_failure err attempt next

  -- `lastErr` after an attempt.
  latest : JsValue → Outcome T → JsValue
  latest last_err (resolved v) = last_err
  latest last_err (rejected err) = err

  -- `left` iterations of the loop are left.
  retry_from : (ℕ → Outcome T) → ℕ → ℕ → JsValue → Retried T
  unfolding after_probe latest
  retry_from probe zero attempt last_err = record {
    outcome = gave_up last_err;
    probes = attempt;
    slept = [];
  }
  retry_from probe (suc left) attempt last_err =
      after_probe (probe attempt) attempt
        (retry_from probe left (suc attempt) (latest last_err (probe attempt)))

  -- `probe i` is what call number `i` of the probe gives; the default `sleep` never fails.
  pub retry_until_identity_issued : (ℕ → Outcome T) → Retried T
  unfolding retry_from
  retry_until_identity_issued probe =
      retry_from probe workload_dial_max_attempts 0 (other NonError.undefined)

-- Text that a template literal puts between quotation marks.
quoted : Text → Text
quoted t = codes "\"" ++ t ++ codes "\""

spiffe_scheme : Text
spiffe_scheme = codes "spiffe://"

without_scheme : Text → Text
unfolding spiffe_scheme
without_scheme t = if starts_with spiffe_scheme t then drop 9 t else t

pathless : Text → Text → Outcome Text
unfolding quoted
pathless given t =
    if includes slash t
    then rejected (
        error (
          new_error (
            codes "signet: invalid trust domain "
            ++ quoted given
            ++ codes ": must not contain a path")))
    else resolved t

nonempty_domain : Text → Text → Outcome Text
unfolding without_scheme pathless
nonempty_domain given [] =
    rejected (error (new_error (codes "signet: trust domain must not be empty")))
nonempty_domain given (c ∷ t) = pathless given (without_scheme (c ∷ t))

pub normalize_trust_domain : Text → Outcome Text
unfolding nonempty_domain
normalize_trust_domain trust_domain = nonempty_domain trust_domain (trim trust_domain)

pub trust_domain_of : Text → Text
trust_domain_of spiffe_id = before_first slash (drop 9 spiffe_id)

-- The first part of the subject alternative name that names a SPIFFE ID, without its `URI:`.
first_spiffe_id : List Text → Option Text
first_spiffe_id [] = none
first_spiffe_id (part ∷ parts) =
    if starts_with (codes "URI:spiffe://") part then some (drop 4 part) else first_spiffe_id parts

-- The argument is `cert.subjectaltname`; an empty one has no parts to look at.
pub extract_spiffe_id : Option Text → Option Text
unfolding first_spiffe_id
extract_spiffe_id none = none
extract_spiffe_id (some []) = none
extract_spiffe_id (some (c ∷ san)) = first_spiffe_id (split_commas (c ∷ san))

no_spiffe_id : Text → JsError
unfolding quoted
no_spiffe_id expected = new_error (
    codes
      "signet: server did not present a SPIFFE ID (no \"URI:spiffe://\" subject alternative name found); expected trust domain "
    ++ quoted expected)

foreign_domain : Text → Text → Text → JsError
unfolding quoted
foreign_domain spiffe_id presented expected = new_error (
    codes "signet: server SPIFFE ID "
    ++ quoted spiffe_id
    ++ codes " belongs to trust domain "
    ++ quoted presented
    ++ codes ", not the expected trust domain "
    ++ quoted expected)

check_id : Text → Option Text → Option JsError
unfolding no_spiffe_id foreign_domain
check_id expected none = some (no_spiffe_id expected)
check_id expected (some spiffe_id) =
    if same_text (trust_domain_of spiffe_id) expected
    then none
    else some (foreign_domain spiffe_id (trust_domain_of spiffe_id) expected)

-- The callback that the check returns: none accepts the certificate.
pub check_server_identity : Text → Option Text → Option JsError
unfolding check_id
check_server_identity expected san = check_id expected (extract_spiffe_id san)

checker : Outcome Text → Outcome (Option Text → Option JsError)
checker (resolved expected) = resolved (check_server_identity expected)
checker (rejected e) = rejected e

pub authorize_trust_domain_member : Text → Outcome (Option Text → Option JsError)
unfolding checker
authorize_trust_domain_member trust_domain = checker (normalize_trust_domain trust_domain)
