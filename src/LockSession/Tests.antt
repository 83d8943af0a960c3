-- ===== src/LockSession/Tests.antt =====
-- Runs of a lock session over the grpc-js adapter.
use signet_clients.Prelude.{
  suc, ◌*◌, ◌≤◌, ◌<◌, max, ◌≡◌, refl, inr, true, false, none, some, List, [], ◌∷◌, ◌++◌,
}
use signet_clients.Runtime.{codes, JsValue, error, new_error, rejected, live, aborted}
use signet_clients.Errors.{err_message, aborted_error, race_abort, on_settle}
use signet_clients.Timestamp.{date}
use signet_clients.Prelude.Int.{pos}
use signet_clients.Lock.{
  queue_position, acquired, Response, new_lock, set_acquired, start_heartbeat,
}
use signet_clients.LockSession.{
  returned, failed, Session, Finite, whole_seconds, interval_of, heartbeat_request, first_acquired,
  on_acquired, on_message, on_recv, initial, Event, receives, ticks, aborts, resumes, releases,
  settle_result, resume_call, step, run, release_outcome,
}
use signet_clients.Prelude.{All}
use signet_clients.Runtime.{other, string}
use signet_clients.Streams.{GrpcLockStream, lock_stream_from_grpc, grpc_lock_stream}
use signet_clients.LockSession.Queued.{message, IsWaiting, closed_if_signal}
use signet_clients.LockSession.Validity.{IsValid, is_some}
use signet_clients.LockSession.Invariant.{run-initial-IsValid}
use signet_clients.LockSession.Acquiring.{acquire-succeeds, acquire-refused}
use signet_clients.LockSession.Aborting.{acquire-aborted}
use signet_clients.LockSession.Released.{release-silences, release-settles, close_outcome}
use signet_clients.LockSession.Heartbeats.{
  whole_seconds-bounds, loss-keeps_timer, abort-keeps_timer,
}

abbrev queued : Response
queued = record { message_type = queue_position; token = []; expires_at = none }

abbrev third : Response
third = record { message_type = acquired; token = codes "t3"; expires_at = some (date (pos 3000)) }

abbrev gone : JsValue
gone = other (string (codes "gone"))

abbrev waiting : Session GrpcLockStream
waiting = initial lock_stream_from_grpc 30 none live

abbrev acquiring : List Event
acquiring = message queued ∷ message third ∷ resumes ∷ []

abbrev holding : Session GrpcLockStream
holding = run grpc_lock_stream waiting acquiring

held_timer : holding.lock.heartbeat_timer ≡ some 7500
unfolding run step on_recv on_message on_acquired first_acquired resume_call settle_result initial
    set_acquired start_heartbeat new_lock on_settle race_abort interval_of
held_timer = refl

holding-IsValid : IsValid holding
holding-IsValid = run-initial-IsValid grpc_lock_stream lock_stream_from_grpc 30 none live acquiring

queued-IsWaiting : All IsWaiting (queued ∷ [])
queued-IsWaiting = (λ e. absurd (cc (e)), tt)

run-initial-IsValid_example :
    IsValid
      (run grpc_lock_stream waiting (acquiring ++ ticks ∷ receives (rejected gone) ∷ releases ∷ []))
run-initial-IsValid_example =
    run-initial-IsValid grpc_lock_stream lock_stream_from_grpc 30 none live
      (acquiring ++ ticks ∷ receives (rejected gone) ∷ releases ∷ [])

acquire-succeeds_example :
    let l = run grpc_lock_stream waiting acquiring in
    (l.call ≡ returned)
    × (l.lock.token ≡ third.token)
    × (l.lock.expires_at ≡ third.expires_at)
    × (l.lock.heartbeat_timer ≡ some (max 1 (interval_of none 30)))
    × (l.stream ≡ lock_stream_from_grpc)
acquire-succeeds_example =
    acquire-succeeds grpc_lock_stream lock_stream_from_grpc 30 none live (queued ∷ []) third
      (inr refl) queued-IsWaiting refl

acquire-refused_example :
    let l =
      run grpc_lock_stream waiting (message queued ∷ receives (rejected gone) ∷ resumes ∷ []) in
    (l.call
      ≡ failed (
          error (
            new_error (
              codes "signet: AcquireRestartLock stream ended before the lock was acquired: "
              ++ err_message gone))))
    × (l.stream ≡ closed_if_signal grpc_lock_stream live lock_stream_from_grpc)
    × (l.lock.lost ≡ none)
    × (l.lock.heartbeat_timer ≡ none)
acquire-refused_example =
    acquire-refused grpc_lock_stream lock_stream_from_grpc 30 none live (queued ∷ []) gone
      (inr refl) queued-IsWaiting

acquire-aborted_example :
    let l = run grpc_lock_stream waiting (message queued ∷ aborts gone ∷ resumes ∷ []) in
    (l.call ≡ failed (error (aborted_error (aborted gone) (codes "AcquireRestartLock"))))
    × (l.stream ≡ (grpc_lock_stream.close_send lock_stream_from_grpc).0)
    × (l.lock.heartbeat_timer ≡ none)
    × (l.lock.lost ≡ none)
acquire-aborted_example =
    acquire-aborted grpc_lock_stream lock_stream_from_grpc 30 none (queued ∷ []) gone
      queued-IsWaiting

release-silences_example :
    let q = step grpc_lock_stream holding releases in
    let l =
      run grpc_lock_stream q (ticks ∷ message third ∷ receives (rejected gone) ∷ ticks ∷ []) in
    (l.stream ≡ q.stream)
    × (l.lock.heartbeat_timer ≡ none)
    × (l.lock.lost ≡ q.lock.lost)
    × (l.lock.emitted ≡ q.lock.emitted)
release-silences_example =
    release-silences grpc_lock_stream holding
      (ticks ∷ message third ∷ receives (rejected gone) ∷ ticks ∷ []) holding-IsValid
      acquire-succeeds_example.0

release-settles_example :
    let q = step grpc_lock_stream holding releases in
    let l = step grpc_lock_stream q (receives (rejected gone)) in
    (release_outcome q.close_error q.lock.recv_done ≡ none)
    × (release_outcome l.close_error l.lock.recv_done
        ≡ some (close_outcome (grpc_lock_stream.close_send holding.stream).1))
unfolding run step on_recv on_message on_acquired first_acquired resume_call settle_result initial
    set_acquired start_heartbeat new_lock on_settle race_abort
release-settles_example =
    release-settles grpc_lock_stream holding gone holding-IsValid refl refl refl

-- 2.5 seconds.
abbrev two_and_a_half : Finite
two_and_a_half = record { negative = false; num = 5; below = 1 }

whole_seconds-bounds_run :
    (1 ≤ whole_seconds two_and_a_half)
    × (whole_seconds two_and_a_half * 2 ≤ max 2 5)
    × (5 < suc (whole_seconds two_and_a_half) * 2)
whole_seconds-bounds_run = whole_seconds-bounds two_and_a_half refl

loss-keeps_timer_example :
    let l = step grpc_lock_stream holding (receives (rejected gone)) in
    (is_some l.lock.lost ≡ true)
    × (l.lock.heartbeat_timer ≡ some 7500)
    × ((step grpc_lock_stream l ticks).stream
        ≡ (grpc_lock_stream.send heartbeat_request l.stream).0)
unfolding run step on_recv on_message on_acquired first_acquired resume_call settle_result initial
    set_acquired start_heartbeat new_lock on_settle race_abort interval_of
loss-keeps_timer_example =
    loss-keeps_timer grpc_lock_stream holding gone 7500 refl refl refl refl refl

abort-keeps_timer_run :
    let l = run grpc_lock_stream holding (aborts gone ∷ resumes ∷ []) in
    (l.lock ≡ holding.lock)
    × (l.stream ≡ holding.stream)
    × ((step grpc_lock_stream l ticks).stream
        ≡ (grpc_lock_stream.send heartbeat_request holding.stream).0)
abort-keeps_timer_run =
    abort-keeps_timer grpc_lock_stream holding gone 7500 acquire-succeeds_example.0 held_timer
