-- ===== src/LockSession/Acquiring.antt =====
-- How the call of acquireLockWithStream ends: acquired, refused by the stream, or aborted.
use signet_clients.Prelude.{
  ℕ, max, ◌≡◌, refl, ap, ap₂, ◌∙◌, ◌⊎◌, Option, none, some, List, [], ◌∷◌, ◌++◌,
}
use signet_clients.Runtime.{codes, JsValue, error, new_error, rejected, Signal, no_abort, live}
use signet_clients.Errors.{err_message}
use signet_clients.Lock.{
  acquired, Response, LockStream, Lock, set_acquired, finish_recv_loop, start_heartbeat,
}
use signet_clients.LockSession.{
  returned, failed, interval_of, ended_early, first_acquired, initial, receives, resumes, run,
}
use signet_clients.Prelude.{All}
use mathlib.Core.List.{map}
use signet_clients.LockSession.Queued.{
  message, IsWaiting, initial-IsQueued, waiting-IsQueued, closed_if_signal, acquired-succeeds,
  refused-fails,
}

-- If the signal does not fire, then after any messages that are not ACQUIRED the first ACQUIRED
-- makes the call return, with its token and expiry in the lock and the heartbeat timer set to
-- the given interval (at least 1 ms); nothing but the first request has been sent by then.
pub acquire-succeeds :
    {S : Type 0} (io : LockStream S) (stream : S) (ttl : ℕ) (interval : Option ℕ) (signal : Signal)
    (rs : List Response) (resp : Response)
    → (signal ≡ no_abort) ⊎ (signal ≡ live)
    → All IsWaiting rs
    → resp.message_type ≡ acquired
    → let l =
        run io
          (initial stream ttl interval signal)
          (map message rs ++ message resp ∷ resumes ∷ []) in
      (l.call ≡ returned)
      × (l.lock.token ≡ resp.token)
      × (l.lock.expires_at ≡ resp.expires_at)
      × (l.lock.heartbeat_timer ≡ some (max 1 (interval_of interval ttl)))
      × (l.stream ≡ stream)
unfolding first_acquired set_acquired start_heartbeat
acquire-succeeds io stream ttl interval signal rs resp quiet w t =
    let (s, q, same) =
      waiting-IsQueued stream ttl interval signal io rs (initial stream ttl interval signal)
        (message resp ∷ resumes ∷ []) w (initial-IsQueued stream ttl interval signal) in
    rw (same, acquired-succeeds io stream ttl interval signal resp s t quiet q)
      (
        refl,
        refl,
        refl,
        ap₂ (λ i n. some (max 1 (interval_of i n))) q.same_interval q.same_ttl,
        q.same_stream,
      )

-- If the signal does not fire and the stream ends before ACQUIRED, the call rejects with an error
-- that names the stream's own; the stream is closed if a signal was given; the lock is never
-- reported as lost, and no heartbeat timer is set.
pub acquire-refused :
    {S : Type 0} (io : LockStream S) (stream : S) (ttl : ℕ) (interval : Option ℕ) (signal : Signal)
    (rs : List Response) (e : JsValue)
    → (signal ≡ no_abort) ⊎ (signal ≡ live)
    → All IsWaiting rs
    → let l =
        run io
          (initial stream ttl interval signal)
          (map message rs ++ receives (rejected e) ∷ resumes ∷ []) in
      (l.call
        ≡ failed (
            error (
              new_error (
                codes "signet: AcquireRestartLock stream ended before the lock was acquired: "
                ++ err_message e))))
      × (l.stream ≡ closed_if_signal io signal stream)
      × (l.lock.lost ≡ none)
      × (l.lock.heartbeat_timer ≡ none)
unfolding ended_early finish_recv_loop err_message
acquire-refused io stream ttl interval signal rs e quiet w =
    let (s, q, same) =
      waiting-IsQueued stream ttl interval signal io rs (initial stream ttl interval signal)
        (receives (rejected e) ∷ resumes ∷ []) w (initial-IsQueued stream ttl interval signal) in
    let (c, k, st) = refused-fails io stream ttl interval signal e s quiet q in
    rw same (
      c,
      st,
      ap (λ (z : Lock). z.lost) k ∙ q.unlost,
      ap (λ (z : Lock). z.heartbeat_timer) k ∙ q.untimed,
    )
