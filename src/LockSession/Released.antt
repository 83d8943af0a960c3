-- ===== src/LockSession/Released.antt =====
-- What a released lock no longer does, and when the promise of release settles.
use signet_clients.Prelude.{
  ◌≡◌, refl, ap, ap₂, ◌∙◌, true, false, not, Option, none, some, List, if_cases,
}
use signet_clients.Runtime.{JsError, JsValue, Outcome, resolved, rejected}
use signet_clients.Errors.{as_error}
use signet_clients.Lock.{Response, LockStream, finish_recv_loop, stop_heartbeat}
use signet_clients.LockSession.{
  returned, Session, on_recv_error, on_recv, Event, receives, releases, release, step, run,
  release_outcome,
}
use signet_clients.LockSession.Validity.{IsValid}
use signet_clients.LockSession.Quiet.{run-IsQuiet, release-IsQuiet, step-releases}

-- Once the caller has released an acquired lock, nothing that happens later sends a heartbeat or
-- anything else on the stream, sets the heartbeat timer, or reports the lock as lost.
pub release-silences :
    {S : Type 0} (io : LockStream S) (s : Session S) (evs : List Event)
    → IsValid s
    → s.call ≡ returned
    → let q = step io s releases in
      let l = run io q evs in
      (l.stream ≡ q.stream)
      × (l.lock.heartbeat_timer ≡ none)
      × (l.lock.lost ≡ q.lock.lost)
      × (l.lock.emitted ≡ q.lock.emitted)
release-silences io s evs v settled = rw (step-releases io s settled) (
    let h = run-IsQuiet io (release io s) (release io s) evs (release-IsQuiet io s v settled) in
    (h.same_stream, h.lock_quiet.untimed, h.lock_quiet.same_lost, h.lock_quiet.same_events))

-- How the promise of `release` ends: with closeSend's error, if it threw.
abbrev pub close_outcome : Option JsValue → Outcome (Unit {0})
close_outcome none = resolved tt
close_outcome (some e) = rejected e

release_outcome-waits : (e : Option JsValue) → release_outcome e false ≡ none
unfolding release_outcome
release_outcome-waits none = refl
release_outcome-waits (some e) = refl

release_outcome-done : (e : Option JsValue) → release_outcome e true ≡ some (close_outcome e)
unfolding release_outcome
release_outcome-done none = refl
release_outcome-done (some e) = refl

module _ {S : Type 0} (io : LockStream S) (s : Session S) where
  step-receives : (o : Outcome Response) → s.receiving ≡ true → step io s (receives o) ≡ on_recv o s
  unfolding step
  step-receives o running = rw running

  recv_error-exits :
      (e : JsError)
      → ((on_recv_error e s).lock.recv_done ≡ true)
        × ((on_recv_error e s).close_error ≡ s.close_error)
  unfolding on_recv_error finish_recv_loop
  recv_error-exits e =
      if_cases (λ (r : Session S). (r.lock.recv_done ≡ true) × (r.close_error ≡ s.close_error))
        s.got_acquired (λ _. (refl, refl)) (λ _. (refl, refl))

  -- The first release stores what closeSend threw, and leaves the receive loop alone.
  release-first :
      s.lock.released ≡ false
      → ((release io s).close_error ≡ (io.close_send s.stream).1)
        × ((release io s).lock.recv_done ≡ s.lock.recv_done)
        × ((release io s).receiving ≡ s.receiving)
  unfolding release stop_heartbeat
  release-first held =
      if_cases
        (λ (r : Session S).
          (r.close_error ≡ (io.close_send s.stream).1)
          × (r.lock.recv_done ≡ s.lock.recv_done)
          × (r.receiving ≡ s.receiving))
        s.lock.released (λ before. absurd (cc (held, before))) (λ _. (refl, refl, refl))

  stream_end-settles :
      (e : JsValue)
      → s.receiving ≡ true
      → let l = step io s (receives (rejected e)) in
        release_outcome l.close_error l.lock.recv_done ≡ some (close_outcome s.close_error)
  unfolding on_recv
  stream_end-settles e running = rw (step-receives (rejected e) running) (
      let (exited, same) = recv_error-exits (as_error e) in
      ap₂ release_outcome same exited ∙ release_outcome-done s.close_error)

-- The first call of `release` stays pending while the receive loop runs, and settles when the
-- stream ends: it rejects exactly if closeSend threw, with what it threw.
pub release-settles :
    {S : Type 0} (io : LockStream S) (s : Session S) (e : JsValue)
    → IsValid s
    → s.call ≡ returned
    → s.lock.released ≡ false
    → s.receiving ≡ true
    → let q = step io s releases in
      let l = step io q (receives (rejected e)) in
      (release_outcome q.close_error q.lock.recv_done ≡ none)
      × (release_outcome l.close_error l.lock.recv_done
          ≡ some (close_outcome (io.close_send s.stream).1))
release-settles io s e v settled held running =
    let (thrown, exited, loop) = release-first io s held in
    let waits : (release io s).lock.recv_done ≡ false =
      exited ∙ v.lock_valid.exited ∙ ap not running in
    rw (step-releases io s settled) (
      ap (release_outcome (release io s).close_error) waits ∙ release_outcome-waits _,
      stream_end-settles io (release io s) e (loop ∙ running)
          ∙ ap (λ c. some (close_outcome c)) thrown,
    )
