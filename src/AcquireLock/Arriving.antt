-- ===== src/AcquireLock/Arriving.antt =====
-- typescript/src/restart.ts and typescript/src/gen/signet/v1/secrets.ts: the request that acquireLock
-- sends, on its way to the server.
use signet_clients.Prelude.{
  ℕ, zero, suc, ◌^◌, ◌<◌, Option, none, List, [], ◌++◌, length, ◌≡◌, refl, subst, arith,
}
use signet_clients.Prelude.Int.{ℤ, pos}
use signet_clients.Runtime.{Text, Outcome, resolved, Signal}
use signet_clients.Wire.{Protobuf, ok}
use signet_clients.Wire.Laws.{IsLawful, IsText, reader_at}
use signet_clients.Wire.Fields.{◌⊕◌, int32_field, bool_field}
use signet_clients.Lock.{Request, LockStream}
use signet_clients.LockSession.{Finite, Session, whole_seconds}
use signet_clients.AcquireLock.{JsNumber, finite, acquire_lock}
use signet_clients.AcquireLock.Entry.{first_request, Started, acquire_lock-starts}
use signet_clients.Secrets.AcquireRestartLockRequest
use signet_clients.Secrets.Service.{acquire_restart_lock, request_serialize, request_deserialize}
use signet_clients.Secrets.Trips.{request_deserialize-serialize}
use signet_clients.Secrets.Tolerance.{string_resolves}

-- The message that the request is.
abbrev pub message_of : Request → AcquireRestartLockRequest.AcquireRestartLockRequest
message_of r = record {
  namespace = r.namespace;
  service = r.service;
  ttl_seconds = pos r.ttl_seconds;
  heartbeat = r.heartbeat;
}

abbrev Resolves : Outcome (List ℕ) → Type 0
Resolves w = (bs : List ℕ) × (w ≡ resolved bs)

Resolves-⊕ : (w v : Outcome (List ℕ)) → Resolves w → Resolves v → Resolves (w ⊕ v)
Resolves-⊕ w v (bs, h) (cs, k) = (bs ++ cs, rw (h, k) refl)

Resolves-seconds :
    {lib : Protobuf} (laws : IsLawful lib) (tag n : ℕ)
    → n < 2 ^ 31
    → Resolves (int32_field lib tag (pos n))
unfolding int32_field
Resolves-seconds laws tag zero small = ([], refl)
Resolves-seconds {lib} laws tag (suc n) small =
    Resolves-⊕ (resolved (lib.write_uint32 tag)) (lib.write_int32 (pos (suc n))) (_, refl)
      (laws.int32_in_range (pos (suc n)) (small, omega arith))

serialized :
    {lib : Protobuf} (laws : IsLawful lib) (namespace service : Text) (x : Finite)
    → whole_seconds x < 2 ^ 31
    → Resolves (
        request_serialize lib acquire_restart_lock (message_of (first_request namespace service x)))
unfolding request_serialize AcquireRestartLockRequest.encode bool_field
serialized {lib} laws namespace service x small =
    Resolves-⊕ _ _ (string_resolves lib 10 namespace) (
      Resolves-⊕ _ _ (string_resolves lib 18 service)
        (Resolves-⊕ _ (resolved []) (Resolves-seconds laws 24 (whole_seconds x) small) ([], refl)))

same_finite : (x y : Finite) → finite x ≡ finite y → y ≡ x
same_finite x y e = cc e

-- If acquireLock gets as far as waiting for the lock, and the TTL in whole seconds is an int32,
-- then one request has been sent on the stream that was opened, and the stream that the session
-- keeps is what that sending has made of it. The request can be serialized, and the server reads it
-- as it was sent: the namespace and the service, which have no lone surrogate, the seconds, and no
-- heartbeat. The package's writer and reader keep their laws.
pub lock_request-arrives :
    {lib : Protobuf} (laws : IsLawful lib) (millis_sum : ℤ → ℤ → ℤ) {S : Type 0} (io : LockStream S)
    (show : JsNumber → Text) (opened : Outcome S) (namespace service : Text) (x : Finite)
    (interval : Option ℕ) (signal : Signal) (s : Session S)
    → acquire_lock io show opened namespace service (finite x) interval signal ≡ resolved s
    → IsText namespace
    → IsText service
    → whole_seconds x < 2 ^ 31
    → let sent = first_request namespace service x in
      (stream : S) × (bs : List ℕ) × (opened ≡ resolved stream)
      × (io.send sent stream ≡ (s.stream, none))
      × (request_serialize lib acquire_restart_lock (message_of sent) ≡ resolved bs)
      × (request_deserialize lib millis_sum acquire_restart_lock bs
          ≡ ok (message_of sent) (reader_at (length bs) []))
lock_request-arrives {lib} laws millis_sum io show opened namespace service x interval signal s e n
      v small =
    let (y, same, positive, started) =
      acquire_lock-starts io show opened namespace service (finite x) interval signal s e in
    let (stream, opens, sends, waits) =
      subst (Started io show interval signal namespace service s opened) (same_finite x y same)
        started in
    let (bs, written) = serialized laws namespace service x small in
    (
      stream,
      bs,
      opens,
      sends,
      written,
      request_deserialize-serialize laws millis_sum acquire_restart_lock
          (message_of (first_request namespace service x)) bs (n, v) written,
    )
