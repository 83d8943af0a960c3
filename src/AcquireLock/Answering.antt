-- ===== src/AcquireLock/Answering.antt =====
-- typescript/src/restart.ts and typescript/src/gen/signet/v1/secrets.ts: the responses of the server, on
-- their way to the session that awaits the lock.
use signet_clients.Prelude.{
  ℕ, max, ◌⊎◌, Option, some, List, [], ◌∷◌, ◌++◌, map, All, ◌≡◌, ◌≢◌, refl, ap, ◌==◌, if◌then◌else◌,
  arith,
}
use signet_clients.Prelude.Int.{ℤ, pos, negsuc}
use signet_clients.Runtime.{JsValue, resolved, Signal, no_abort, live}
use signet_clients.Wire.{Protobuf, Read, ok, thrown, spent}
use signet_clients.Wire.Laws.{IsLawful}
use signet_clients.Timestamp.Dates.{IsExact}
use signet_clients.Lock.{
  MessageType, unspecified, queue_position, acquired, ttl_extended, unrecognized, Response,
  LockStream,
}
use signet_clients.LockSession.{returned, interval_of, initial, Event, receives, resumes, run}
use signet_clients.LockSession.Queued.{message, IsWaiting}
use signet_clients.LockSession.Acquiring.{acquire-succeeds}
use signet_clients.Secrets.AcquireRestartLockResponse.{AcquireRestartLockResponse, IsValid}
use signet_clients.Secrets.Service.{acquire_restart_lock, response_serialize, response_deserialize}
use signet_clients.Secrets.Trips.{response_deserialize-serialize}

-- The case of the receive loop's `switch` that a number takes.
unfoldable pub message_type_of : ℤ → MessageType
message_type_of (pos n) =
    if n == 0
    then unspecified
    else if n == 1
    then queue_position
    else if n == 2
    then acquired
    else if n == 3
    then ttl_extended
    else unrecognized
message_type_of (negsuc n) = unrecognized

-- What the receive loop reads of a message.
unfoldable pub response_of : AcquireRestartLockResponse → Response
unfolding message_type_of
response_of m = record {
  message_type = message_type_of m.message_type;
  token = m.token;
  expires_at = m.expires_at;
}

module _ (lib : Protobuf) (millis_sum : ℤ → ℤ → ℤ) (refused : JsValue → Event) where
  -- What has been read is data of the stream. `refused` is what grpc-js makes of a message that
  -- cannot be read.
  abbrev pub events_of : Read AcquireRestartLockResponse → List Event
  events_of (ok m r) = receives (resolved (response_of m)) ∷ []
  events_of (thrown e) = refused e ∷ []
  events_of spent = []

  -- The messages of the server, as bytes.
  abbrev pub arrivals : List (List ℕ) → List Event
  arrivals [] = []
  arrivals (bs ∷ chunks) =
      events_of (response_deserialize lib millis_sum acquire_restart_lock bs) ++ arrivals chunks

-- The message is one that can be read back, and these are its bytes.
abbrev pub IsSent : Protobuf → AcquireRestartLockResponse × List ℕ → Type 0
IsSent lib p = IsValid p.0 × (response_serialize lib acquire_restart_lock p.0 ≡ resolved p.1)

message_type_of-acquired : (v : ℤ) → message_type_of v ≡ acquired → v ≡ pos 2
unfolding message_type_of
message_type_of-acquired (pos n) e = ap pos (ground arith)
message_type_of-acquired (negsuc n) e = absurd (cc)

granted_type :
    (m : AcquireRestartLockResponse)
    → m.message_type ≡ pos 2
    → (response_of m).message_type ≡ acquired
unfolding response_of
granted_type m e = rw e refl

module _ {lib : Protobuf} (laws : IsLawful lib) {millis_sum : ℤ → ℤ → ℤ}
    (exact : IsExact millis_sum) (refused : JsValue → Event) where
  arrivals-sent :
      (sent : List (AcquireRestartLockResponse × List ℕ))
      → All (IsSent lib) sent
      → arrivals lib millis_sum refused (map (λ p. p.1) sent)
        ≡ map message (map (λ p. response_of p.0) sent)
  arrivals-sent [] h = refl
  arrivals-sent ((m, bs) ∷ sent) h =
      rw (response_deserialize-serialize laws exact acquire_restart_lock m bs h.0.0 h.0.1)
        (ap (λ evs. message (response_of m) ∷ evs) (arrivals-sent sent h.1))

  waiting :
      (sent : List (AcquireRestartLockResponse × List ℕ))
      → All (λ p. p.0.message_type ≢ pos 2) sent
      → All IsWaiting (map (λ p. response_of p.0) sent)
  unfolding response_of
  waiting [] h = tt
  waiting ((m, bs) ∷ sent) h =
      (λ e. h.0 (message_type_of-acquired m.message_type e), waiting sent h.1)

  -- If the signal does not fire, and the server sends responses that are not ACQUIRED and then one
  -- that is, each serialized without throwing, then the call returns with the token and the expiry
  -- that the server has sent, and the heartbeat timer is set to the given interval (at least 1 ms);
  -- nothing but the first request has been sent by then. The tokens have no lone surrogate, the
  -- dates are valid, the package's writer and reader keep their laws, and sums of doubles are exact
  -- for whole milliseconds.
  pub grant-arrives :
      {S : Type 0} (io : LockStream S) (stream : S) (ttl : ℕ) (interval : Option ℕ)
      (signal : Signal) (sent : List (AcquireRestartLockResponse × List ℕ))
      (m : AcquireRestartLockResponse) (bs : List ℕ)
      → (signal ≡ no_abort) ⊎ (signal ≡ live)
      → All (IsSent lib) sent
      → All (λ p. p.0.message_type ≢ pos 2) sent
      → IsSent lib (m, bs)
      → m.message_type ≡ pos 2
      → let l = run io (initial stream ttl interval signal) (
          arrivals lib millis_sum refused (map (λ p. p.1) sent)
          ++ (arrivals lib millis_sum refused (bs ∷ []) ++ resumes ∷ [])) in
        (l.call ≡ returned)
        × (l.lock.token ≡ m.token)
        × (l.lock.expires_at ≡ m.expires_at)
        × (l.lock.heartbeat_timer ≡ some (max 1 (interval_of interval ttl)))
        × (l.stream ≡ stream)
  unfolding response_of
  grant-arrives io stream ttl interval signal sent m bs quiet all early (valid, written) granted =
      let last = arrivals-sent ((m, bs) ∷ []) ((valid, written), tt) in
      rw (arrivals-sent sent all, last)
        (acquire-succeeds io stream ttl interval signal (map (λ p. response_of p.0) sent)
          (response_of m) quiet (waiting sent early) (granted_type m granted))
