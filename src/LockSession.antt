-- ===== src/LockSession.antt =====
-- typescript/src/restart.ts: acquireLockWithStream and Lock.release. A session is the lock with the
-- state of its stream, of its receive loop and of the call of acquireLockWithStream; the
-- environment's events change it.
pub mod Validity
pub mod Invariant
pub mod Quiet
pub mod Released
pub mod Queued
pub mod Acquiring
pub mod Aborting
pub mod Heartbeats
pub mod Tests
use signet_clients.Prelude.{
  ℕ, suc, ◌*◌, ◌/◌, max, Bool, true, false, ◌||◌, Option, none, some, List, [], ◌∷◌, ◌++◌, ltb,
  if◌then◌else◌,
}
use signet_clients.Runtime.{
  Text, codes, JsError, JsValue, error, new_error, Outcome, resolved, rejected, Signal, no_abort,
  live, aborted, abort_signal,
}
use signet_clients.Errors.{
  as_error, err_message, aborted_error, is_abort_race, Race, race_abort, on_abort, on_settle,
}
use signet_clients.Lock.{
  Request, MessageType, unspecified, queue_position, acquired, ttl_extended, unrecognized, Response,
  LockStream, Lock, new_lock, set_acquired, update_expiry, report_lost, finish_recv_loop,
  start_heartbeat, stop_heartbeat,
}

-- The call of acquireLockWithStream: awaiting the acquisition, or settled.
pub data Call : Type 0 where
  awaiting : Race (Unit {0}) → Call
  returned : Call
  failed : JsValue → Call

pub record Session (S : Type 0) : Type 0 where
  pub stream : S
  pub lock : Lock
  pub ttl_secs : ℕ
  pub heartbeat_interval_ms : Option ℕ
  pub signal : Signal
  pub got_acquired : Bool
  -- The receive loop awaits `recv`.
  pub receiving : Bool
  pub call : Call
  -- What closeSend threw in the first call of `release`.
  pub close_error : Option JsValue

-- A finite number as a fraction `num / suc below`, with its sign.
pub record Finite : Type 0 where
  pub negative : Bool
  pub num : ℕ
  pub below : ℕ

-- `Math.max(1, Math.trunc(x))`.
unfoldable pub whole_seconds : Finite → ℕ
whole_seconds x = if x.negative then 1 else max 1 (x.num / suc x.below)

-- `opts.heartbeatIntervalMs ?? Math.max(1, Math.floor((ttlSecs * 1000) / 4))`.
pub interval_of : Option ℕ → ℕ → ℕ
interval_of (some ms) ttl_secs = ms
interval_of none ttl_secs = max 1 (ttl_secs * 1000 / 4)

pub heartbeat_request : Request
heartbeat_request = record { namespace = []; service = []; ttl_seconds = 0; heartbeat = true }

abbrev settle_call : Outcome (Unit {0}) → Call → Call
settle_call o (awaiting r) = awaiting (on_settle o r)
settle_call o returned = returned
settle_call o (failed e) = failed e

pub ended_early : JsError → JsValue
ended_early e = error (
    new_error
      (codes "signet: AcquireRestartLock stream ended before the lock was acquired: " ++ e.message))

pub abort_call : Call → Call
abort_call (awaiting r) = awaiting (on_abort r)
abort_call returned = returned
abort_call (failed e) = failed e

module _ {S : Type 0} where
  -- The receive loop on MESSAGE_TYPE_ACQUIRED.
  pub first_acquired : Response → Session S → Session S
  unfolding set_acquired start_heartbeat
  first_acquired resp s = record s {
    lock =
        start_heartbeat (interval_of s.heartbeat_interval_ms s.ttl_secs)
          (set_acquired resp.token resp.expires_at s.lock);
    got_acquired = true;
    call = settle_call (resolved tt) s.call;
  }

  on_acquired : Response → Session S → Session S
  unfolding first_acquired set_acquired
  on_acquired resp s =
      if s.got_acquired
      then record s { lock = set_acquired resp.token resp.expires_at s.lock }
      else first_acquired resp s

  on_message : MessageType → Response → Session S → Session S
  unfolding on_acquired update_expiry
  on_message acquired resp s = on_acquired resp s
  on_message ttl_extended resp s = record s { lock = update_expiry resp.expires_at s.lock }
  on_message queue_position resp s = s
  on_message unspecified resp s = s
  on_message unrecognized resp s = s

  -- The receive loop when `recv` throws: it reports, and exits.
  on_recv_error : JsError → Session S → Session S
  unfolding ended_early report_lost finish_recv_loop
  on_recv_error e s =
      if s.got_acquired
      then record s { lock = finish_recv_loop (report_lost e s.lock); receiving = false }
      else record s {
        lock = finish_recv_loop s.lock;
        receiving = false;
        call = settle_call (rejected (ended_early e)) s.call;
      }

  on_recv : Outcome Response → Session S → Session S
  unfolding on_message on_recv_error
  on_recv (resolved resp) s = on_message resp.message_type resp s
  on_recv (rejected e) s = on_recv_error (as_error e) s

  -- The timer's callback, with what `send` gave.
  beat : S × Option JsValue → Session S → Session S
  unfolding stop_heartbeat report_lost
  beat (stream, none) s = record s { stream = stream }
  beat (stream, some e) s = record s {
    stream = stream;
    lock = report_lost (as_error e) (stop_heartbeat s.lock);
  }

  -- The abort listener of the race, if it is registered.
  on_signal : JsValue → Session S → Session S
  unfolding abort_call
  on_signal reason s = record s { signal = abort_signal reason s.signal; call = abort_call s.call }

  unfoldable pub initial : S → ℕ → Option ℕ → Signal → Session S
  unfolding new_lock
  initial stream ttl_secs interval signal = record {
    stream = stream;
    lock = new_lock;
    ttl_secs = ttl_secs;
    heartbeat_interval_ms = interval;
    signal = signal;
    got_acquired = false;
    receiving = true;
    call = awaiting (race_abort signal);
    close_error = none;
  }

  unfoldable pub first_sent : S × Option JsValue → ℕ → Option ℕ → Signal → Outcome (Session S)
  unfolding initial
  first_sent (stream, none) ttl_secs interval signal =
      resolved (initial stream ttl_secs interval signal)
  first_sent (stream, some e) ttl_secs interval signal = rejected (
      error
        (new_error (codes "signet: send initial AcquireRestartLock request: " ++ err_message e)))

pub data Event : Type 0 where
  receives : Outcome Response → Event
  ticks : Event
  aborts : JsValue → Event
  resumes : Event
  releases : Event

module _ {S : Type 0} (io : LockStream S) where
  open io use {send, close_send}

  tick : Session S → Session S
  unfolding beat
  tick s = elim s.lock.heartbeat_timer [
    | some interval ↦ beat (send heartbeat_request s.stream) s
    | none ↦ s
  ]

  -- The catch block of the call: with a signal the stream is closed, whatever that throws.
  fail_call : JsValue → Signal → Session S → Session S
  fail_call e no_abort s = record s { call = failed e }
  fail_call e signal s = record s {
    stream = (close_send s.stream).0;
    call =
        failed (
          if is_abort_race e then error (aborted_error signal (codes "AcquireRestartLock")) else e);
  }

  settle_result : Option (Outcome (Unit {0})) → Session S → Session S
  unfolding fail_call
  settle_result none s = s
  settle_result (some (resolved _)) s = record s { call = returned }
  settle_result (some (rejected e)) s = fail_call e s.signal s

  resume_call : Call → Session S → Session S
  unfolding settle_result
  resume_call (awaiting r) s = settle_result r.result s
  resume_call returned s = s
  resume_call (failed e) s = s

  -- `lock.release()`, up to its await of the receive loop.
  pub release : Session S → Session S
  unfolding stop_heartbeat
  release s = if s.lock.released then s else record s {
    stream = (close_send s.stream).0;
    lock = stop_heartbeat (record s.lock { released = true });
    close_error = (close_send s.stream).1;
  }

  -- Only the caller of acquireLock has the lock, once the call has returned.
  release_held : Call → Session S → Session S
  unfolding release
  release_held returned s = release s
  release_held (awaiting r) s = s
  release_held (failed e) s = s

  pub step : Session S → Event → Session S
  unfolding on_recv tick on_signal resume_call release_held
  step s (receives o) = if s.receiving then on_recv o s else s
  step s ticks = tick s
  step s (aborts reason) = on_signal reason s
  step s resumes = resume_call s.call s
  step s releases = release_held s.call s

  pub run : Session S → List Event → Session S
  run s [] = s
  run s (ev ∷ evs) = run (step s ev) evs

  -- Up to the call's first await.
  unfoldable pub acquire_lock_with_stream :
      S → Text → Text → Finite → Option ℕ → Signal → Outcome (Session S)
  unfolding first_sent
  acquire_lock_with_stream stream namespace service ttl interval signal =
      first_sent
        (send
          (record {
            namespace = namespace;
            service = service;
            ttl_seconds = whole_seconds ttl;
            heartbeat = false;
          })
          stream)
        (whole_seconds ttl) interval signal

-- What the promise of the first call of `release` has settled to: `finally` awaits the receive
-- loop, then a value that closeSend threw is thrown on.
pub release_outcome : Option JsValue → Bool → Option (Outcome (Unit {0}))
release_outcome close_error false = none
release_outcome none true = some (resolved tt)
release_outcome (some e) true = some (rejected e)
