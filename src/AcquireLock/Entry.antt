-- ===== src/AcquireLock/Entry.antt =====
-- acquireLock: which calls get as far as waiting for the lock.
use signet_clients.Prelude.{ℕ, ◌≡◌, refl, sym, ap, ◌∙◌, true, false, Option, none, some, if_cases}
use signet_clients.Runtime.{Text, JsValue, Outcome, resolved, rejected, Signal}
use signet_clients.Lock.{Request, LockStream}
use signet_clients.LockSession.{
  Session, Finite, whole_seconds, initial, first_sent, acquire_lock_with_stream,
}
use signet_clients.AcquireLock.{
  JsNumber, finite, is_positive, valid_ttl, open_stream, checked, acquire_lock,
}

-- The first request for the lock.
abbrev pub first_request : Text → Text → Finite → Request
first_request namespace service x = record {
  namespace = namespace;
  service = service;
  ttl_seconds = whole_seconds x;
  heartbeat = false;
}

valid_ttl-some :
    (ttl : JsNumber) (x : Finite)
    → valid_ttl ttl ≡ some x
    → (ttl ≡ finite x) × (is_positive x ≡ true)
unfolding valid_ttl
valid_ttl-some (finite y) x given =
    (if_cases (λ r. r ≡ some x → (finite y ≡ finite x) × (is_positive x ≡ true)) (is_positive y)
        (λ yes e.
          let same : y ≡ x = some-inj e in (ap finite same, ap is_positive (sym same) ∙ yes))
        (λ _ e. absurd (cc (e))))
      given
  where
    some-inj : {a b : Finite} → some a ≡ some b → a ≡ b
    some-inj e = cc (e)
valid_ttl-some JsNumber.not_a_number x e = absurd (cc)
valid_ttl-some JsNumber.infinity x e = absurd (cc)
valid_ttl-some JsNumber.minus_infinity x e = absurd (cc)

module _ {S : Type 0} (interval : Option ℕ) (signal : Signal) (s : Session S) where
  first_sent-resolved :
      (r : S × Option JsValue) (ttl : ℕ)
      → first_sent r ttl interval signal ≡ resolved s
      → (r ≡ (s.stream, none)) × (s ≡ initial s.stream ttl interval signal)
  unfolding first_sent initial
  first_sent-resolved (stream, none) ttl e =
      let same : initial stream ttl interval signal ≡ s = cc (e) in
      let streams : stream ≡ s.stream = ap (λ (z : Session S). z.stream) same in
      (ap (λ z. (z, none)) streams, sym same ∙ ap (λ z. initial z ttl interval signal) streams)
  first_sent-resolved (stream, some x) ttl e = absurd (cc (e))

module _ {S : Type 0} (io : LockStream S) (show : JsNumber → Text) (interval : Option ℕ)
    (signal : Signal) (namespace service : Text) (s : Session S) where
  -- The stream was opened, its first request sent, and the session waits.
  abbrev pub Started : Outcome S → Finite → Type 0
  Started opened x =
      (stream : S) × (opened ≡ resolved stream)
      × (io.send (first_request namespace service x) stream ≡ (s.stream, none))
      × (s ≡ initial s.stream (whole_seconds x) interval signal)

  open_stream-resolved :
      (opened given : Outcome S) (x : Finite)
      → open_stream io show given opened namespace service x interval signal ≡ resolved s
      → Started opened x
  unfolding open_stream acquire_lock_with_stream
  open_stream-resolved (resolved stream) given x e =
      let (sent, waits) =
        first_sent-resolved interval signal s (io.send (first_request namespace service x) stream)
          (whole_seconds x) e in
      (stream, refl, sent, waits)
  open_stream-resolved (rejected err) given x e = absurd (cc (e))

  checked-resolved :
      (opened : Outcome S) (ttl : JsNumber) (v : Option Finite)
      → checked io show opened v ttl namespace service interval signal ≡ resolved s
      → (x : Finite) × (v ≡ some x) × Started opened x
  unfolding checked
  checked-resolved opened ttl none e = absurd (cc (e))
  checked-resolved opened ttl (some x) e = (x, refl, open_stream-resolved opened opened x e)

-- If acquireLock gets as far as waiting for the lock, then the TTL is a finite number above 0, the
-- stream was opened, and one request went out, for this namespace and service, with the TTL in
-- whole seconds (at least 1) and no heartbeat flag; the session is then the initial one.
pub acquire_lock-starts :
    {S : Type 0} (io : LockStream S) (show : JsNumber → Text) (opened : Outcome S)
    (namespace service : Text) (ttl : JsNumber) (interval : Option ℕ) (signal : Signal)
    (s : Session S)
    → acquire_lock io show opened namespace service ttl interval signal ≡ resolved s
    → (x : Finite) × (ttl ≡ finite x)
      × (is_positive x ≡ true)
      × Started io show interval signal namespace service s opened x
unfolding acquire_lock
acquire_lock-starts io show opened namespace service ttl interval signal s e =
    let (x, valid, started) =
      checked-resolved io show interval signal namespace service s opened ttl (valid_ttl ttl) e in
    let (same, positive) = valid_ttl-some ttl x valid in (x, same, positive, started)
