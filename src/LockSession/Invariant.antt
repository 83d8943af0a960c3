-- ===== src/LockSession/Invariant.antt =====
-- The invariant of a lock session, kept by every event.
use signet_clients.Prelude.{
  ℕ, ◌≡◌, refl, sym, subst, inl, inr, true, false, Option, none, some, List, [], ◌∷◌, if_cases,
  Option-cases,
}
use signet_clients.Runtime.{
  JsError, JsValue, Outcome, resolved, rejected, Signal, no_abort, live, aborted,
}
use signet_clients.Errors.{as_error, Race, race_abort}
use signet_clients.Lock.{
  MessageType, unspecified, queue_position, acquired, ttl_extended, unrecognized, Response,
  LockStream, new_lock,
}
use signet_clients.LockSession.{
  Call, awaiting, returned, failed, Session, heartbeat_request, settle_call, ended_early,
  first_acquired, on_acquired, on_message, on_recv_error, on_recv, beat, on_signal, initial, Event,
  receives, ticks, aborts, resumes, releases, tick, fail_call, settle_result, resume_call, release,
  release_held, step, run,
}
use signet_clients.LockSession.Validity.{
  CallIsHeld, IsValid, LockIsValid, set_acquired-IsValid, update_expiry-IsValid,
  start_heartbeat-IsValid, finish_recv_loop-IsValid, stop_heartbeat-IsValid, release-IsValid',
  resolved_held, timer_held, settle_call_rejected, abort_call-IsHeld, report_lost-IsValid',
  settle_call-IsHeld, is_resolved,
}

module _ {S : Type 0} (s : Session S) (v : IsValid s) where
  on_acquired-IsValid : (resp : Response) → IsValid (on_acquired resp s)
  unfolding on_acquired first_acquired
  on_acquired-IsValid resp =
      if_cases IsValid s.got_acquired
        (λ _. record {
          lock_valid = set_acquired-IsValid resp.token resp.expires_at _ _ s.lock v.lock_valid;
          call_held = v.call_held;
        })
        (λ fresh. record {
          lock_valid = start_heartbeat-IsValid _ s.receiving _ (
              set_acquired-IsValid resp.token resp.expires_at false _ s.lock
                (subst (λ g. LockIsValid g s.receiving s.lock) fresh v.lock_valid));
          call_held = settle_call-IsHeld _ _ s.call v.call_held;
        })

  on_message-IsValid : (t : MessageType) (resp : Response) → IsValid (on_message t resp s)
  unfolding on_message
  on_message-IsValid acquired resp = on_acquired-IsValid resp
  on_message-IsValid ttl_extended resp = record {
    lock_valid = update_expiry-IsValid resp.expires_at _ _ s.lock v.lock_valid;
    call_held = v.call_held;
  }
  on_message-IsValid queue_position resp = v
  on_message-IsValid unspecified resp = v
  on_message-IsValid unrecognized resp = v

  on_recv_error-IsValid : (e : JsError) → IsValid (on_recv_error e s)
  unfolding on_recv_error
  on_recv_error-IsValid e =
      if_cases IsValid s.got_acquired
        (λ got. record {
          lock_valid =
              finish_recv_loop-IsValid _ s.receiving _
                (report_lost-IsValid' e s.lock got v.lock_valid);
          call_held = v.call_held;
        })
        (λ early. record {
          lock_valid = finish_recv_loop-IsValid _ s.receiving s.lock v.lock_valid;
          call_held =
              subst (λ g. CallIsHeld g (settle_call (rejected (ended_early e)) s.call)) (sym early)
                (settle_call_rejected _ s.call
                  (subst (λ g. CallIsHeld g s.call) early v.call_held));
        })

  on_recv-IsValid : (o : Outcome Response) → IsValid (on_recv o s)
  unfolding on_recv
  on_recv-IsValid (resolved resp) = on_message-IsValid resp.message_type resp
  on_recv-IsValid (rejected e) = on_recv_error-IsValid (as_error e)

  -- The timer fires only while the lock is held.
  beat-IsValid : (r : S × Option JsValue) → s.got_acquired ≡ true → IsValid (beat r s)
  unfolding beat
  beat-IsValid (stream, none) got = record { lock_valid = v.lock_valid; call_held = v.call_held }
  beat-IsValid (stream, some e) got = record {
    lock_valid =
        report_lost-IsValid' (as_error e) _ got (stop_heartbeat-IsValid _ _ s.lock v.lock_valid);
    call_held = v.call_held;
  }

  on_signal-IsValid : (reason : JsValue) → IsValid (on_signal reason s)
  unfolding on_signal
  on_signal-IsValid reason = record {
    lock_valid = v.lock_valid;
    call_held = abort_call-IsHeld _ s.call v.call_held;
  }

module _ {S : Type 0} (io : LockStream S) (s : Session S) (v : IsValid s) where
  tick-IsValid : IsValid (tick io s)
  unfolding tick
  tick-IsValid = elim (Option-cases s.lock.heartbeat_timer) [
    | inl off ↦ rw (off, tick) v
    | inr (ms, on) ↦
        rw (on, tick)
          (beat-IsValid s v (io.send heartbeat_request s.stream)
            (timer_held _ _ s.lock ms v.lock_valid on))
  ]

  fail_call-IsValid : (e : JsValue) (signal : Signal) → IsValid (fail_call io e signal s)
  unfolding fail_call
  fail_call-IsValid e no_abort = record { lock_valid = v.lock_valid; call_held = tt }
  fail_call-IsValid e _ = record { lock_valid = v.lock_valid; call_held = tt }

  settle_result-IsValid :
      (r : Race (Unit {0})) (o : Option (Outcome (Unit {0})))
      → r.result ≡ o
      → s.call ≡ awaiting r
      → IsValid (settle_result io o s)
  unfolding settle_result
  settle_result-IsValid r none e c = v
  settle_result-IsValid r (some (resolved _)) e c = record {
    lock_valid = v.lock_valid;
    call_held = resolved_held _ r e (subst (CallIsHeld s.got_acquired) c v.call_held);
  }
  settle_result-IsValid r (some (rejected x)) e c = fail_call-IsValid x s.signal

  resume_call-IsValid : (c : Call) → s.call ≡ c → IsValid (resume_call io c s)
  unfolding resume_call
  resume_call-IsValid (awaiting r) e = settle_result-IsValid r r.result refl e
  resume_call-IsValid returned e = v
  resume_call-IsValid (failed x) e = v

  release_held-IsValid : (c : Call) → s.call ≡ c → IsValid (release_held io c s)
  unfolding release_held release
  release_held-IsValid (awaiting r) e = v
  release_held-IsValid (failed x) e = v
  release_held-IsValid returned e =
      if_cases IsValid s.lock.released (λ _. v)
        (λ _. record {
          lock_valid =
              release-IsValid' s.lock (subst (CallIsHeld s.got_acquired) e v.call_held)
                v.lock_valid;
          call_held = v.call_held;
        })

  step-IsValid : (ev : Event) → IsValid (step io s ev)
  unfolding step
  step-IsValid (receives o) = if_cases IsValid s.receiving (λ _. on_recv-IsValid s v o) (λ _. v)
  step-IsValid ticks = tick-IsValid
  step-IsValid (aborts reason) = on_signal-IsValid s v reason
  step-IsValid resumes = resume_call-IsValid s.call refl
  step-IsValid releases = release_held-IsValid s.call refl

pub run-IsValid :
    {S : Type 0} (io : LockStream S) (s : Session S) (evs : List Event)
    → IsValid s
    → IsValid (run io s evs)
unfolding run
run-IsValid io s [] v = v
run-IsValid io s (ev ∷ evs) v = run-IsValid io (step io s ev) evs (step-IsValid io s v ev)

pub initial-IsValid :
    {S : Type 0} (stream : S) (ttl : ℕ) (interval : Option ℕ) (signal : Signal)
    → IsValid (initial stream ttl interval signal)
unfolding initial new_lock race_abort
initial-IsValid stream ttl interval signal = record {
  lock_valid = record {
    timed = inl refl;
    held = inl refl;
    announced = refl;
    flagged = refl;
    losable = inl refl;
    exited = refl;
  };
  call_held = inl (unresolved signal);
}
  where
    unresolved : (signal : Signal) → is_resolved (race_abort signal).result ≡ false
    unresolved no_abort = refl
    unresolved live = refl
    unresolved (aborted reason) = refl

-- Whatever the server, the timer, the signal and the caller do, and in any order: the heartbeat
-- timer runs only while the lock is acquired and not released; only an acquired lock is released
-- or lost; the promise `lost` and the 'lost' event agree, each at most once and with one error;
-- and the call has returned only if ACQUIRED has come.
pub run-initial-IsValid :
    {S : Type 0} (io : LockStream S) (stream : S) (ttl : ℕ) (interval : Option ℕ) (signal : Signal)
    (evs : List Event)
    → IsValid (run io (initial stream ttl interval signal) evs)
run-initial-IsValid io stream ttl interval signal evs =
    run-IsValid io (initial stream ttl interval signal) evs
      (initial-IsValid stream ttl interval signal)
