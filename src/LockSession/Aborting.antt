-- ===== src/LockSession/Aborting.antt =====
-- The signal fires while the call waits for the lock.
use signet_clients.Prelude.{ℕ, ◌≡◌, refl, ap, Option, none, List, [], ◌∷◌, ◌++◌}
use signet_clients.Runtime.{codes, JsValue, error, live, aborted}
use signet_clients.Errors.{aborted_error, is_abort_race, abort_race_error, race_abort, on_abort}
use signet_clients.Lock.{Response, LockStream}
use signet_clients.LockSession.{
  awaiting, failed, Session, abort_call, on_signal, initial, aborts, resumes, fail_call,
  settle_result, resume_call, step, run,
}
use signet_clients.Prelude.{All}
use mathlib.Core.List.{map}
use signet_clients.LockSession.Queued.{
  message, IsWaiting, IsQueued, initial-IsQueued, waiting-IsQueued,
}

-- If the signal does not fire, then after any messages that are not ACQUIRED the first ACQUIRED
-- makes the call return, with its token and expiry in the lock and the heartbeat timer set to
-- The call's own await is not disturbed by the other messages: its race is still the first one.
module _ {S : Type 0} (io : LockStream S) (stream : S) (ttl : ℕ) (interval : Option ℕ) where
  aborted-fails :
      (reason : JsValue) (s : Session S)
      → IsQueued stream ttl interval live s
      → run io s (aborts reason ∷ resumes ∷ [])
        ≡ fail_call io abort_race_error
            (aborted reason)
            (record s { signal = aborted reason; call = abort_call (awaiting (race_abort live)) })
  unfolding run on_signal abort_call on_abort step race_abort
  aborted-fails reason s q =
      rw (q.same_signal, q.pending, resume_call) (unfold settle_result in refl)

-- If the signal fires while the lock is awaited, after any messages that are not ACQUIRED, then
-- the call rejects with an error that names the signal's reason, the stream is closed, no
-- heartbeat timer is set, and the lock is not reported as lost.
pub acquire-aborted :
    {S : Type 0} (io : LockStream S) (stream : S) (ttl : ℕ) (interval : Option ℕ)
    (rs : List Response) (reason : JsValue)
    → All IsWaiting rs
    → let l =
        run io
          (initial stream ttl interval live)
          (map message rs ++ aborts reason ∷ resumes ∷ []) in
      (l.call ≡ failed (error (aborted_error (aborted reason) (codes "AcquireRestartLock"))))
      × (l.stream ≡ (io.close_send stream).0)
      × (l.lock.heartbeat_timer ≡ none)
      × (l.lock.lost ≡ none)
unfolding fail_call is_abort_race
acquire-aborted io stream ttl interval rs reason w =
    let (s, q, same) =
      waiting-IsQueued stream ttl interval live io rs (initial stream ttl interval live)
        (aborts reason ∷ resumes ∷ []) w (initial-IsQueued stream ttl interval live) in
    rw (same, aborted-fails io stream ttl interval reason s q)
      (refl, ap (λ z. (io.close_send z).0) q.same_stream, q.untimed, q.unlost)
