-- ===== src/AcquireLock/Tests.antt =====
-- A lock is asked for over the grpc-js adapter.
use signet_clients.Prelude.{
  ℕ, List, length, arith, ◌≡◌, refl, true, false, none, some, max, inr, [], ◌∷◌, ◌++◌,
}
use signet_clients.Prelude.Int.{pos}
use signet_clients.Runtime.{Text, codes, JsValue, resolved, rejected, live}
use signet_clients.Streams
use signet_clients.Streams.{GrpcLockStream, lock_stream_from_grpc, send, grpc_lock_stream}
use signet_clients.LockSession.{
  returned, interval_of, Event, receives, resumes, run, Finite, initial, whole_seconds,
  acquire_lock_with_stream, first_sent,
}
use signet_clients.AcquireLock.{
  JsNumber, finite, is_positive, valid_ttl, open_stream, checked, acquire_lock,
}
use signet_clients.AcquireLock.Arriving.{message_of, lock_request-arrives}
use signet_clients.Wire.{ok}
use signet_clients.Wire.Laws.{no_lone_surrogate, reader_at}
use signet_clients.Wire.Samples.{sample_package, sample_package-IsLawful}
use signet_clients.Timestamp.Tests.{whole_sum, whole_sum-IsExact}
use signet_clients.Timestamp.{date, encode_date}
use signet_clients.Wire.Fields.{string_field, int32_field, int64_field, message_field}
use signet_clients.Secrets.AcquireRestartLockResponse
use signet_clients.Secrets.AcquireRestartLockResponse.{AcquireRestartLockResponse}
use signet_clients.AcquireLock.Answering.{arrivals, grant-arrives}
use signet_clients.Secrets.Service.{
  acquire_restart_lock, response_serialize, request_serialize, request_deserialize,
}
use signet_clients.AcquireLock.Entry.{first_request, Started, acquire_lock-starts}

-- 2.5 seconds.
abbrev two_and_a_half : Finite
two_and_a_half = record { negative = false; num = 5; below = 1 }

abbrev show_number : JsNumber → Text
show_number x = codes "ttl"

abbrev asked : GrpcLockStream
asked = record lock_stream_from_grpc {
  calls = Streams.writes (first_request (codes "a") (codes "b") two_and_a_half) ∷ [];
}

acquire_lock-starts_run :
    (x : Finite) × (finite two_and_a_half ≡ finite x)
    × (is_positive x ≡ true)
    × Started grpc_lock_stream show_number none live
        (codes "a")
        (codes "b")
        (initial asked (whole_seconds two_and_a_half) none live)
        (resolved lock_stream_from_grpc)
        x
unfolding acquire_lock checked open_stream valid_ttl is_positive acquire_lock_with_stream first_sent
    send lock_stream_from_grpc
acquire_lock-starts_run =
    acquire_lock-starts grpc_lock_stream show_number (resolved lock_stream_from_grpc) (codes "a")
      (codes "b") (finite two_and_a_half) none live
      (initial asked (whole_seconds two_and_a_half) none live) refl

lock_request-arrives_example :
    (stream : GrpcLockStream) × (bs : List ℕ) × (resolved lock_stream_from_grpc ≡ resolved stream)
    × (grpc_lock_stream.send (first_request (codes "a") (codes "b") two_and_a_half) stream
        ≡ (asked, none))
    × (request_serialize sample_package acquire_restart_lock
          (message_of (first_request (codes "a") (codes "b") two_and_a_half))
        ≡ resolved bs)
    × (request_deserialize sample_package whole_sum acquire_restart_lock bs
        ≡ ok
            (message_of (first_request (codes "a") (codes "b") two_and_a_half))
            (reader_at (length bs) []))
unfolding acquire_lock checked open_stream valid_ttl is_positive acquire_lock_with_stream first_sent
    send lock_stream_from_grpc no_lone_surrogate whole_seconds
lock_request-arrives_example =
    lock_request-arrives sample_package-IsLawful whole_sum grpc_lock_stream show_number
      (resolved lock_stream_from_grpc) (codes "a") (codes "b") two_and_a_half none live
      (initial asked (whole_seconds two_and_a_half) none live) refl refl refl (omega arith)

-- The second in the queue, and then the lock.
abbrev queued : AcquireRestartLockResponse
queued = record { message_type = pos 1; position = pos 1; token = []; expires_at = none }

abbrev granted : AcquireRestartLockResponse
granted = record {
  message_type = pos 2;
  position = pos 0;
  token = codes "t";
  expires_at = some (date (pos 1500));
}

abbrev granted_bytes : List ℕ
granted_bytes = 8 ∷ 4 ∷ 26 ∷ 1 ∷ 116 ∷ 34 ∷ 4 ∷ 8 ∷ 2 ∷ 16 ∷ 1000000000 ∷ []

abbrev never : JsValue → Event
never e = receives (rejected e)

grant-arrives_example :
    let l = run grpc_lock_stream (initial asked 2 none live) (
      arrivals sample_package whole_sum never ((8 ∷ 2 ∷ 16 ∷ 2 ∷ []) ∷ [])
      ++ (arrivals sample_package whole_sum never (granted_bytes ∷ []) ++ resumes ∷ [])) in
    (l.call ≡ returned)
    × (l.lock.token ≡ codes "t")
    × (l.lock.expires_at ≡ some (date (pos 1500)))
    × (l.lock.heartbeat_timer ≡ some (max 1 (interval_of none 2)))
    × (l.stream ≡ asked)
unfolding response_serialize AcquireRestartLockResponse.encode string_field int32_field
    message_field encode_date int64_field no_lone_surrogate
grant-arrives_example =
    grant-arrives sample_package-IsLawful whole_sum-IsExact never grpc_lock_stream asked 2 none live
      ((queued, 8 ∷ 2 ∷ 16 ∷ 2 ∷ []) ∷ []) granted granted_bytes (inr refl) (((refl, tt), refl), tt)
      ((λ e. ground arith), tt) ((refl, (omega arith, omega arith)), refl) refl
