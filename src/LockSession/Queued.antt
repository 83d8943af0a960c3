-- ===== src/LockSession/Queued.antt =====
-- A session that still waits for the lock, and the ways its call can end.
use signet_clients.Prelude.{
  ℕ, ◌≡◌, refl, ap, ap₂, ◌∙◌, ◌≢◌, ◌⊎◌, inl, inr, true, false, Option, none, some, List, [], ◌∷◌,
  ◌++◌,
}
use signet_clients.Runtime.{
  JsError, JsValue, Outcome, resolved, rejected, Signal, no_abort, live, aborted,
}
use signet_clients.Errors.{as_error, is_abort_race, Race, race_abort, on_settle}
use signet_clients.Timestamp.{Date}
use signet_clients.Lock.{
  MessageType, unspecified, queue_position, acquired, ttl_extended, unrecognized, Response,
  LockStream, new_lock, update_expiry, finish_recv_loop,
}
use signet_clients.LockSession.{
  awaiting, returned, failed, Session, settle_call, ended_early, first_acquired, on_acquired,
  on_message, on_recv_error, on_recv, initial, Event, receives, resumes, fail_call, settle_result,
  resume_call, step, run,
}
use signet_clients.Prelude.{All, else_branch}
use mathlib.Core.List.{map}

abbrev pub message : Response → Event
message resp = receives (resolved resp)

-- Queue positions, early TTL_EXTENDED messages and unknown ones.
abbrev pub IsWaiting : Response → Type 0
IsWaiting resp = resp.message_type ≢ acquired

module _ {S : Type 0} (stream : S) (ttl : ℕ) (interval : Option ℕ) (signal : Signal) where
  -- A session that waits for the lock.
  pub record IsQueued (s : Session S) : Type 0 where
    pub same_stream : s.stream ≡ stream
    pub same_ttl : s.ttl_secs ≡ ttl
    pub same_interval : s.heartbeat_interval_ms ≡ interval
    pub same_signal : s.signal ≡ signal
    pub early : s.got_acquired ≡ false
    pub running : s.receiving ≡ true
    pub pending : s.call ≡ awaiting (race_abort signal)
    pub untimed : s.lock.heartbeat_timer ≡ none
    pub unlost : s.lock.lost ≡ none
    pub unreleased : s.lock.released ≡ false

  pub initial-IsQueued : IsQueued (initial stream ttl interval signal)
  unfolding initial new_lock
  initial-IsQueued = record {
    same_stream = refl;
    same_ttl = refl;
    same_interval = refl;
    same_signal = refl;
    early = refl;
    running = refl;
    pending = refl;
    untimed = refl;
    unlost = refl;
    unreleased = refl;
  }

  on_message-IsQueued :
      (t : MessageType) (resp : Response) (s : Session S)
      → t ≢ acquired
      → IsQueued s
      → IsQueued (on_message t resp s)
  unfolding on_message
  on_message-IsQueued acquired resp s other q = absurd (other refl)
  on_message-IsQueued ttl_extended resp s other q = extended resp.expires_at
    where
      extended : (at : Option Date) → IsQueued (record s { lock = update_expiry at s.lock })
      extended none = q
      extended (some t) = record {
        same_stream = q.same_stream;
        same_ttl = q.same_ttl;
        same_interval = q.same_interval;
        same_signal = q.same_signal;
        early = q.early;
        running = q.running;
        pending = q.pending;
        untimed = q.untimed;
        unlost = q.unlost;
        unreleased = q.unreleased;
      }
  on_message-IsQueued queue_position resp s other q = q
  on_message-IsQueued unspecified resp s other q = q
  on_message-IsQueued unrecognized resp s other q = q

  module _ (io : LockStream S) where
    step-message :
        (s : Session S) (o : Outcome Response)
        → s.receiving ≡ true
        → step io s (receives o) ≡ on_recv o s
    unfolding step
    step-message s o running = rw running

    pub waiting-IsQueued :
        (rs : List Response) (s : Session S) (evs : List Event)
        → All IsWaiting rs
        → IsQueued s
        → (l : Session S) × IsQueued l × (run io s (map message rs ++ evs) ≡ run io l evs)
    unfolding run on_recv
    waiting-IsQueued [] s evs w q = (s, q, refl)
    waiting-IsQueued (resp ∷ rs) s evs (w, ws) q =
        let q' = on_message-IsQueued resp.message_type resp s w q in
        let (l, ql, same) = waiting-IsQueued rs (on_message resp.message_type resp s) evs ws q' in
        (
          l,
          ql,
          ap (λ k. run io k (map message rs ++ evs)) (step-message s (resolved resp) q.running)
              ∙ same,
        )

    -- The call goes on from its await.
    resume-resolved :
        (s : Session S) (r : Race (Unit {0})) {x : Unit {0}}
        → s.call ≡ awaiting r
        → r.result ≡ some (resolved x)
        → step io s resumes ≡ record s { call = returned }
    unfolding step
    resume-resolved s r c e = rw (c, resume_call, e, settle_result)

    resume-rejected :
        (s : Session S) (r : Race (Unit {0})) (x : JsValue)
        → s.call ≡ awaiting r
        → r.result ≡ some (rejected x)
        → step io s resumes ≡ fail_call io x s.signal s
    unfolding step
    resume-rejected s r x c e = rw (c, resume_call, e, settle_result)

-- With a signal the stream is closed when the call fails.
abbrev pub closed_if_signal : {S : Type 0} → LockStream S → Signal → S → S
closed_if_signal io no_abort stream = stream
closed_if_signal io live stream = (io.close_send stream).0
closed_if_signal io (aborted reason) stream = (io.close_send stream).0

module _ {S : Type 0} (io : LockStream S) (stream : S) (ttl : ℕ) (interval : Option ℕ)
    (signal : Signal) where
  step-acquired :
      (resp : Response) (s : Session S)
      → resp.message_type ≡ acquired
      → IsQueued stream ttl interval signal s
      → step io s (message resp) ≡ first_acquired resp s
  unfolding on_recv on_message on_acquired
  step-acquired resp s t q =
      step-message stream ttl interval signal io s (resolved resp) q.running
      ∙ rw t (on_early resp s q.early)
    where
      on_early :
          (resp : Response) (s : Session S)
          → s.got_acquired ≡ false
          → on_acquired resp s ≡ first_acquired resp s
      on_early resp s early = else_branch s.got_acquired _ _ early

  winning :
      (signal ≡ no_abort) ⊎ (signal ≡ live)
      → (on_settle (resolved tt) (race_abort signal)).result ≡ some (resolved tt)
  unfolding on_settle race_abort
  winning (inl e) = rw e
  winning (inr e) = rw e

  pub acquired-succeeds :
      (resp : Response) (s : Session S)
      → resp.message_type ≡ acquired
      → (signal ≡ no_abort) ⊎ (signal ≡ live)
      → IsQueued stream ttl interval signal s
      → run io s (message resp ∷ resumes ∷ []) ≡ record (first_acquired resp s) { call = returned }
  unfolding run first_acquired
  acquired-succeeds resp s t quiet q = rw (step-acquired resp s t q) (
      resume-resolved stream ttl interval signal io (first_acquired resp s)
        (on_settle (resolved tt) (race_abort signal)) (ap (settle_call (resolved tt)) q.pending)
        (winning quiet))

  -- The receive loop's error, before the lock was acquired.
  step-refused :
      (e : JsValue) (s : Session S)
      → IsQueued stream ttl interval signal s
      → step io s (receives (rejected e)) ≡ record s {
        lock = finish_recv_loop s.lock;
        receiving = false;
        call = settle_call (rejected (ended_early (as_error e))) s.call;
      }
  unfolding on_recv on_recv_error
  step-refused e s q =
      step-message stream ttl interval signal io s (rejected e) q.running
      ∙ else_branch s.got_acquired _ _ q.early

  losing :
      (x : JsValue)
      → (signal ≡ no_abort) ⊎ (signal ≡ live)
      → (on_settle {T = Unit {0}} (rejected x) (race_abort signal)).result ≡ some (rejected x)
  unfolding on_settle race_abort
  losing x (inl e) = rw e
  losing x (inr e) = rw e

  fail_call-fields :
      (x : JsValue) (given : Signal) (s : Session S)
      → is_abort_race x ≡ false
      → ((fail_call io x given s).call ≡ failed x)
        × ((fail_call io x given s).lock ≡ s.lock)
        × ((fail_call io x given s).stream ≡ closed_if_signal io given s.stream)
  unfolding fail_call
  fail_call-fields x no_abort s other = (refl, refl, refl)
  fail_call-fields x live s other =
      (ap failed (else_branch (is_abort_race x) _ _ other), refl, refl)
  fail_call-fields x (aborted reason) s other =
      (ap failed (else_branch (is_abort_race x) _ _ other), refl, refl)

  ended_early-ordinary : (e : JsError) → is_abort_race (ended_early e) ≡ false
  unfolding ended_early is_abort_race
  ended_early-ordinary e = refl

  pub refused-fails :
      (e : JsValue) (s : Session S)
      → (signal ≡ no_abort) ⊎ (signal ≡ live)
      → IsQueued stream ttl interval signal s
      → let l = run io s (receives (rejected e) ∷ resumes ∷ []) in
        (l.call ≡ failed (ended_early (as_error e)))
        × (l.lock ≡ finish_recv_loop s.lock)
        × (l.stream ≡ closed_if_signal io signal stream)
  unfolding run
  refused-fails e s quiet q = rw (step-refused e s q) (
      let x = ended_early (as_error e) in
      let after : Session S = record s {
        lock = finish_recv_loop s.lock;
        receiving = false;
        call = settle_call (rejected x) s.call;
      } in
      let resumed : step io after resumes ≡ fail_call io x s.signal after =
        resume-rejected stream ttl interval signal io after
          (on_settle (rejected x) (race_abort signal)) x (ap (settle_call (rejected x)) q.pending)
          (losing x quiet) in
      let (c, k, st) = fail_call-fields x s.signal after (ended_early-ordinary (as_error e)) in
      (
        ap (λ (z : Session S). z.call) resumed ∙ c,
        ap (λ (z : Session S). z.lock) resumed ∙ k,
        ap (λ (z : Session S). z.stream) resumed
            ∙ st
            ∙ ap₂ (closed_if_signal io) q.same_signal q.same_stream,
      ))
