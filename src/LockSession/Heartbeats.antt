-- ===== src/LockSession/Heartbeats.antt =====
-- The heartbeat timer: its interval, and what does not stop it.
use native.Mathlib.Nat.{div-add-mod', mod-lt}
use signet_clients.Prelude.{
  zero, ◌%◌, ℕ, suc, ◌+◌, ◌*◌, ◌/◌, ◌≤◌, ◌<◌, max, ◌≡◌, refl, ◌∙◌, true, false, Option, none, some,
  [], ◌∷◌, arith,
}
use signet_clients.Runtime.{JsError, JsValue, Outcome, rejected}
use signet_clients.Errors.{as_error}
use signet_clients.Lock.{Response, LockStream, report_lost, finish_recv_loop}
use signet_clients.LockSession.{
  Call, awaiting, returned, failed, Session, Finite, whole_seconds, interval_of, heartbeat_request,
  abort_call, on_recv_error, on_recv, beat, on_signal, receives, ticks, aborts, resumes, tick,
  resume_call, step, run,
}
use signet_clients.LockSession.Validity.{is_some}

-- For a TTL of at least a second, four default intervals make up the TTL exactly.
pub interval_of-quarter : (ttl : ℕ) → 1 ≤ ttl → interval_of none ttl * 4 ≡ ttl * 1000
unfolding interval_of
interval_of-quarter ttl h = omega arith

quotient_bounds :
    (n b q r : ℕ) → q * b + r ≡ n → r < b → (max 1 q * b ≤ max b n) × (n < suc (max 1 q) * b)
quotient_bounds n b zero r e h = omega arith
quotient_bounds n b (suc q) r e h = (grind arith, grind arith)

-- The seconds that are sent are at least one, and otherwise the whole seconds of the argument.
pub whole_seconds-bounds :
    (x : Finite)
    → x.negative ≡ false
    → (1 ≤ whole_seconds x)
      × (whole_seconds x * suc x.below ≤ max (suc x.below) x.num)
      × (x.num < suc (whole_seconds x) * suc x.below)
unfolding whole_seconds
whole_seconds-bounds x h = rw h (
    let (low, high) =
      quotient_bounds x.num (suc x.below) (x.num / suc x.below) (x.num % suc x.below)
        (div-add-mod' x.num (suc x.below)) (mod-lt x.num (omega arith)) in
    (omega arith, low, high))

module _ {S : Type 0} (io : LockStream S) (s : Session S) where
  tick-sends :
      (ms : ℕ)
      → s.lock.heartbeat_timer ≡ some ms
      → (step io s ticks).stream ≡ (io.send heartbeat_request s.stream).0
  unfolding step
  tick-sends ms on = rw (on, tick) (beaten (io.send heartbeat_request s.stream))
    where
      beaten : (r : S × Option JsValue) → (beat r s).stream ≡ r.0
      beaten (stream, none) = unfold beat in refl
      beaten (stream, some e) = unfold beat in refl

  step-receives : (o : Outcome Response) → s.receiving ≡ true → step io s (receives o) ≡ on_recv o s
  unfolding step
  step-receives o running = rw running

  loss-timer :
      (e : JsError)
      → s.got_acquired ≡ true
      → (on_recv_error e s).lock.heartbeat_timer ≡ s.lock.heartbeat_timer
  unfolding on_recv_error report_lost finish_recv_loop
  loss-timer e got = ground arith

  loss-reported :
      (e : JsError)
      → s.got_acquired ≡ true
      → s.lock.released ≡ false
      → s.lock.lost_reported ≡ false
      → is_some (on_recv_error e s).lock.lost ≡ true
  unfolding on_recv_error report_lost finish_recv_loop
  loss-reported e got held fresh = ground arith

resume-returned :
    {S : Type 0} (io : LockStream S) (s : Session S) (c : Call)
    → c ≡ returned
    → resume_call io c s ≡ s
unfolding resume_call
resume-returned io s returned e = refl
resume-returned io s (awaiting r) e = absurd (cc)
resume-returned io s (failed x) e = absurd (cc)

abort_call-returned : (c : Call) → c ≡ returned → abort_call c ≡ returned
abort_call-returned c e = rw e (unfold abort_call in refl)

step-aborts :
    {S : Type 0} (io : LockStream S) (s : Session S) (reason : JsValue)
    → s.call ≡ returned
    → step io (step io s (aborts reason)) resumes ≡ on_signal reason s
unfolding step on_signal
step-aborts io s reason settled =
    resume-returned io (on_signal reason s) (abort_call s.call) (abort_call-returned s.call settled)

-- Losing the lock to the stream does not stop the heartbeats: on a held, unreleased session the
-- stream's error is reported, and yet the timer stays set and its next tick sends again.
pub loss-keeps_timer :
    {S : Type 0} (io : LockStream S) (s : Session S) (e : JsValue) (ms : ℕ)
    → s.got_acquired ≡ true
    → s.receiving ≡ true
    → s.lock.released ≡ false
    → s.lock.lost_reported ≡ false
    → s.lock.heartbeat_timer ≡ some ms
    → let l = step io s (receives (rejected e)) in
      (is_some l.lock.lost ≡ true)
      × (l.lock.heartbeat_timer ≡ some ms)
      × ((step io l ticks).stream ≡ (io.send heartbeat_request l.stream).0)
unfolding on_recv
loss-keeps_timer io s e ms got running held fresh on =
    let timer = loss-timer io s (as_error e) got ∙ on in
    rw (step-receives io s (rejected e) running) (
      loss-reported io s (as_error e) got held fresh,
      timer,
      tick-sends io (on_recv_error (as_error e) s) ms timer,
    )

-- Nor does the abort signal, once the call has returned: aborting changes neither the lock nor the
-- stream, whose heartbeats go on.
pub abort-keeps_timer :
    {S : Type 0} (io : LockStream S) (s : Session S) (reason : JsValue) (ms : ℕ)
    → s.call ≡ returned
    → s.lock.heartbeat_timer ≡ some ms
    → let l = run io s (aborts reason ∷ resumes ∷ []) in
      (l.lock ≡ s.lock)
      × (l.stream ≡ s.stream)
      × ((step io l ticks).stream ≡ (io.send heartbeat_request s.stream).0)
unfolding run on_signal
abort-keeps_timer io s reason ms settled on =
    rw (step-aborts io s reason settled) (refl, refl, tick-sends io _ ms on)
