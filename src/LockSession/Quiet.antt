-- ===== src/LockSession/Quiet.antt =====
-- What a released session keeps for good.
use signet_clients.Prelude.{
  ◌≡◌, refl, subst, Bool, true, Option, none, some, List, [], ◌∷◌, if_cases, arith,
}
use signet_clients.Runtime.{Text, JsError, JsValue, Outcome, resolved, rejected}
use signet_clients.Errors.{as_error}
use signet_clients.Timestamp.{Date}
use signet_clients.Lock.{
  MessageType, unspecified, queue_position, acquired, ttl_extended, unrecognized, Response,
  LockStream, Lock, set_acquired, update_expiry, report_lost, finish_recv_loop, stop_heartbeat,
}
use signet_clients.LockSession.{
  Call, awaiting, returned, failed, Session, settle_call, abort_call, on_acquired, on_message,
  on_recv_error, on_recv, on_signal, Event, receives, ticks, aborts, resumes, releases, tick,
  resume_call, release, release_held, step, run,
}
use signet_clients.LockSession.Validity.{IsValid, LockIsValid, CallIsHeld}

-- The parts of a lock that a released session keeps for good.
pub record LockIsQuiet (q k : Lock) : Type 0 where
  pub released : k.released ≡ true
  pub untimed : k.heartbeat_timer ≡ none
  pub same_lost : k.lost ≡ q.lost
  pub same_events : k.emitted ≡ q.emitted

-- `q` is the session when the lock was released.
pub record IsQuiet {S : Type 0} (q s : Session S) : Type 0 where
  settled : s.call ≡ returned
  got : s.got_acquired ≡ true
  pub same_stream : s.stream ≡ q.stream
  pub lock_quiet : LockIsQuiet q.lock s.lock

module _ (q k : Lock) (h : LockIsQuiet q k) where
  set_acquired-IsQuiet : (t : Text) (at : Option Date) → LockIsQuiet q (set_acquired t at k)
  unfolding set_acquired
  set_acquired-IsQuiet t at = record {
    released = h.released;
    untimed = h.untimed;
    same_lost = h.same_lost;
    same_events = h.same_events;
  }

  update_expiry-IsQuiet : (at : Option Date) → LockIsQuiet q (update_expiry at k)
  unfolding update_expiry
  update_expiry-IsQuiet none = h
  update_expiry-IsQuiet (some t) = record {
    released = h.released;
    untimed = h.untimed;
    same_lost = h.same_lost;
    same_events = h.same_events;
  }

  -- A stream that ends after the release is not reported.
  recv_error-IsQuiet : (e : JsError) → LockIsQuiet q (finish_recv_loop (report_lost e k))
  unfolding finish_recv_loop report_lost
  recv_error-IsQuiet e = ground arith

module _ {S : Type 0} (q s : Session S) (h : IsQuiet q s) where
  keep_call : (o : Outcome (Unit {0})) (c : Call) → c ≡ returned → settle_call o c ≡ returned
  keep_call o returned e = refl
  keep_call o (awaiting r) e = absurd (cc)
  keep_call o (failed x) e = absurd (cc)

  with_lock : (k : Lock) → LockIsQuiet q.lock k → IsQuiet q (record s { lock = k })
  with_lock k l = record {
    settled = h.settled;
    got = h.got;
    same_stream = h.same_stream;
    lock_quiet = l;
  }

  on_message-IsQuiet : (t : MessageType) (resp : Response) → IsQuiet q (on_message t resp s)
  unfolding on_message on_acquired
  on_message-IsQuiet acquired resp =
      if_cases (IsQuiet q) s.got_acquired
        (λ _.
          with_lock (set_acquired resp.token resp.expires_at s.lock)
            (set_acquired-IsQuiet q.lock s.lock h.lock_quiet resp.token resp.expires_at))
        (λ early. absurd (cc (h.got, early)))
  on_message-IsQuiet ttl_extended resp =
      with_lock (update_expiry resp.expires_at s.lock)
        (update_expiry-IsQuiet q.lock s.lock h.lock_quiet resp.expires_at)
  on_message-IsQuiet queue_position resp = h
  on_message-IsQuiet unspecified resp = h
  on_message-IsQuiet unrecognized resp = h

  on_recv_error-IsQuiet : (e : JsError) → IsQuiet q (on_recv_error e s)
  unfolding on_recv_error
  on_recv_error-IsQuiet e =
      if_cases (IsQuiet q) s.got_acquired
        (λ _. record {
          settled = h.settled;
          got = h.got;
          same_stream = h.same_stream;
          lock_quiet = recv_error-IsQuiet q.lock s.lock h.lock_quiet e;
        })
        (λ early. absurd (cc (h.got, early)))

  on_recv-IsQuiet : (o : Outcome Response) → IsQuiet q (on_recv o s)
  unfolding on_recv
  on_recv-IsQuiet (resolved resp) = on_message-IsQuiet resp.message_type resp
  on_recv-IsQuiet (rejected e) = on_recv_error-IsQuiet (as_error e)

  on_signal-IsQuiet : (reason : JsValue) → IsQuiet q (on_signal reason s)
  unfolding on_signal
  on_signal-IsQuiet reason = record {
    settled = keep s.call h.settled;
    got = h.got;
    same_stream = h.same_stream;
    lock_quiet = h.lock_quiet;
  }
    where
      keep : (c : Call) → c ≡ returned → abort_call c ≡ returned
      keep c e = rw e (unfold abort_call in refl)

  tick-IsQuiet : (io : LockStream S) → IsQuiet q (tick io s)
  unfolding tick
  tick-IsQuiet io = rw (h.lock_quiet.untimed, tick) h

  resume_call-IsQuiet :
      (io : LockStream S) (c : Call) → c ≡ returned → IsQuiet q (resume_call io c s)
  unfolding resume_call
  resume_call-IsQuiet io returned e = h
  resume_call-IsQuiet io (awaiting r) e = absurd (cc)
  resume_call-IsQuiet io (failed x) e = absurd (cc)

  release_held-IsQuiet :
      (io : LockStream S) (c : Call) → c ≡ returned → IsQuiet q (release_held io c s)
  unfolding release_held
  release_held-IsQuiet io returned e =
      if_cases (IsQuiet q) s.lock.released (λ _. h)
        (λ held. absurd (cc (h.lock_quiet.released, held)))
  release_held-IsQuiet io (awaiting r) e = h
  release_held-IsQuiet io (failed x) e = h

  step-IsQuiet : (io : LockStream S) (ev : Event) → IsQuiet q (step io s ev)
  unfolding step
  step-IsQuiet io (receives o) = if_cases (IsQuiet q) s.receiving (λ _. on_recv-IsQuiet o) (λ _. h)
  step-IsQuiet io ticks = tick-IsQuiet io
  step-IsQuiet io (aborts reason) = on_signal-IsQuiet reason
  step-IsQuiet io resumes = resume_call-IsQuiet io s.call h.settled
  step-IsQuiet io releases = release_held-IsQuiet io s.call h.settled

pub run-IsQuiet :
    {S : Type 0} (io : LockStream S) (q s : Session S) (evs : List Event)
    → IsQuiet q s
    → IsQuiet q (run io s evs)
unfolding run
run-IsQuiet io q s [] h = h
run-IsQuiet io q s (ev ∷ evs) h = run-IsQuiet io q (step io s ev) evs (step-IsQuiet q s h io ev)

got_of_returned :
    {S : Type 0} (s : Session S) → IsValid s → s.call ≡ returned → s.got_acquired ≡ true
got_of_returned s v settled = subst (CallIsHeld s.got_acquired) settled v.call_held

untimed_of_released :
    (got receiving : Bool) (k : Lock)
    → LockIsValid got receiving k
    → k.released ≡ true
    → k.heartbeat_timer ≡ none
untimed_of_released got receiving k v h = ground arith

pub release-IsQuiet :
    {S : Type 0} (io : LockStream S) (s : Session S)
    → IsValid s
    → s.call ≡ returned
    → IsQuiet (release io s) (release io s)
unfolding release stop_heartbeat
release-IsQuiet {S} io s v settled =
    if_cases (λ (r : Session S). IsQuiet r r) s.lock.released
      (λ before. record {
        settled = settled;
        got = got_of_returned s v settled;
        same_stream = refl;
        lock_quiet = record {
          released = before;
          untimed = untimed_of_released _ _ s.lock v.lock_valid before;
          same_lost = refl;
          same_events = refl;
        };
      })
      (λ _. record {
        settled = settled;
        got = got_of_returned s v settled;
        same_stream = refl;
        lock_quiet = record {
          released = refl;
          untimed = refl;
          same_lost = refl;
          same_events = refl;
        };
      })

release_held-release :
    {S : Type 0} (io : LockStream S) (s : Session S) (c : Call)
    → c ≡ returned
    → release_held io c s ≡ release io s
unfolding release_held
release_held-release io s returned e = refl
release_held-release io s (awaiting r) e = absurd (cc)
release_held-release io s (failed x) e = absurd (cc)

pub step-releases :
    {S : Type 0} (io : LockStream S) (s : Session S)
    → s.call ≡ returned
    → step io s releases ≡ release io s
unfolding step
step-releases io s settled = release_held-release io s s.call settled
