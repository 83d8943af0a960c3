-- ===== src/WatchLoop/Persistence.antt =====
-- Only the abort signal ends runWatchLoop: no failure of a dial or of a stream does.
use signet_clients.Prelude.{
  All, ℕ, ◌≡◌, refl, ap, ◌∙◌, ◌⊎◌, inl, inr, List, [], ◌∷◌, Bool, true, false, Option, none, some,
  if_cases, Bool-cases,
}
use signet_clients.Runtime.{
  or_else, JsValue, Outcome, resolved, rejected, Signal, no_abort, live, aborted, is_aborted,
}
use signet_clients.Errors.{race_abort, on_settle, is_abort_race}
use signet_clients.BundleWatch.{BundleWatch}
use signet_clients.WatchLoop.{
  EventType, changed, Options, Sleep, sleep_or_aborted, on_timer, Await, opening, receiving,
  sleeping, finished, Loop, stop, open_stream, receive, sleep, initial, run_watch_loop, after_open,
  notify, stream_broken, after_receive, after_sleep, resume_from, resume, Event, opens, receives,
  elapses, aborts, resumes, asks, settle_open, settle_receive, elapse, abort_pending, abort, step,
  run,
}
use signet_clients.WatchLoop.Shutdown.{is_finished}
use signet_clients.WatchLoop.Signals.{resume-signal}

-- An outcome that does not claim to be raceAbort's own rejection.
abbrev pub IsOrdinaryOutcome {ℓ} : {A : Type ℓ} → Outcome A → Type 0
IsOrdinaryOutcome (resolved a) = Unit {0}
IsOrdinaryOutcome (rejected e) = is_abort_race e ≡ false

abbrev pub IsOrdinary : Event → Type 0
IsOrdinary (opens o) = IsOrdinaryOutcome o
IsOrdinary (receives o) = IsOrdinaryOutcome o
IsOrdinary elapses = Unit {0}
IsOrdinary (aborts reason) = Unit {0}
IsOrdinary resumes = Unit {0}
IsOrdinary asks = Unit {0}

abbrev claims_abort {ℓ} : {A : Type ℓ} → Option (Outcome A) → Bool
claims_abort none = false
claims_abort (some (resolved a)) = false
claims_abort (some (rejected e)) = is_abort_race e

abbrev cut_short : Option Bool → Bool
cut_short (some false) = true
cut_short (some true) = false
cut_short none = false

-- The loop has returned, or will without trying again.
abbrev gives_up : Await → Bool
gives_up (opening r) = claims_abort r.result
gives_up (receiving r) = claims_abort r.result
gives_up (sleeping s) = cut_short s.slept
gives_up finished = true

race_abort-Persists :
    (T : Type 0) (signal : Signal)
    → is_aborted signal ≡ false
    → claims_abort (race_abort {T = T} signal).result ≡ false
unfolding race_abort
race_abort-Persists T no_abort going = refl
race_abort-Persists T live going = refl
race_abort-Persists T (aborted reason) going = absurd (cc)

sleep-Persists :
    (ms : ℕ) (signal : Signal)
    → is_aborted signal ≡ false
    → cut_short (sleep_or_aborted ms signal).slept ≡ false
unfolding sleep_or_aborted
sleep-Persists ms no_abort going = refl
sleep-Persists ms live going = refl
sleep-Persists ms (aborted reason) going = absurd (cc)

module _ (l : Loop) (going : is_aborted l.signal ≡ false) where
  open_stream-Persists : gives_up (open_stream l).await ≡ false
  unfolding open_stream
  open_stream-Persists = rw going (race_abort-Persists (Unit {0}) l.signal going)

  after_open-Persists :
      (r : Option (Outcome (Unit {0})))
      → gives_up l.await ≡ false
      → claims_abort r ≡ false
      → gives_up (after_open l r).await ≡ false
  unfolding after_open receive sleep
  after_open-Persists none h c = h
  after_open-Persists (some (resolved stream)) h c = race_abort-Persists EventType l.signal going
  after_open-Persists (some (rejected e)) h c = rw c (sleep-Persists l.backoff l.signal going)

  after_sleep-Persists :
      (r : Option Bool)
      → gives_up l.await ≡ false
      → cut_short r ≡ false
      → gives_up (after_sleep l r).await ≡ false
  unfolding after_sleep open_stream
  after_sleep-Persists none h c = h
  after_sleep-Persists (some true) h c = rw going (race_abort-Persists (Unit {0}) l.signal going)
  after_sleep-Persists (some false) h c = absurd (cc)

  after_receive-Persists :
      (r : Option (Outcome EventType))
      → gives_up l.await ≡ false
      → claims_abort r ≡ false
      → gives_up (after_receive l r).await ≡ false
  unfolding after_receive receive stream_broken sleep notify
  after_receive-Persists none h c = h
  after_receive-Persists (some (resolved changed)) h c =
      race_abort-Persists EventType l.signal going
  after_receive-Persists (some (resolved _)) h c = race_abort-Persists EventType l.signal going
  after_receive-Persists (some (rejected e)) h c =
      rw (c, going) (sleep-Persists l.backoff l.signal going)

  resume_from-Persists :
      (a : Await) → l.await ≡ a → gives_up a ≡ false → gives_up (resume_from l a).await ≡ false
  unfolding resume_from
  resume_from-Persists (opening r) e h = after_open-Persists r.result (ap gives_up e ∙ h) h
  resume_from-Persists (receiving r) e h = after_receive-Persists r.result (ap gives_up e ∙ h) h
  resume_from-Persists (sleeping s) e h = after_sleep-Persists s.slept (ap gives_up e ∙ h) h
  resume_from-Persists finished e h = absurd (cc)

or_else-Persists :
    {A : Type 0} (old : Option (Outcome A)) (o : Outcome A)
    → IsOrdinaryOutcome o
    → claims_abort old ≡ false
    → claims_abort (or_else old o) ≡ false
or_else-Persists none (resolved a) ord h = refl
or_else-Persists none (rejected e) ord h = ord
or_else-Persists (some old) o ord h = h

settle_open-Persists :
    (a : Await) (o : Outcome (Unit {0}))
    → IsOrdinaryOutcome o
    → gives_up a ≡ false
    → gives_up (settle_open a o) ≡ false
unfolding settle_open on_settle
settle_open-Persists (opening r) o ord h = or_else-Persists r.result o ord h
settle_open-Persists _ o ord h = h

settle_receive-Persists :
    (a : Await) (o : Outcome EventType)
    → IsOrdinaryOutcome o
    → gives_up a ≡ false
    → gives_up (settle_receive a o) ≡ false
unfolding settle_receive on_settle
settle_receive-Persists (receiving r) o ord h = or_else-Persists r.result o ord h
settle_receive-Persists _ o ord h = h

elapse-Persists : (a : Await) → gives_up a ≡ false → gives_up (elapse a) ≡ false
unfolding elapse on_timer
elapse-Persists (sleeping s) h =
    if_cases (λ (t : Sleep). cut_short t.slept ≡ false) s.timer (λ _. refl) (λ _. h)
elapse-Persists (opening r) h = h
elapse-Persists (receiving r) h = h
elapse-Persists finished h = h

-- The signal has fired, or the loop will try again.
abbrev Persists : Loop → Type 0
Persists l = (is_aborted l.signal ≡ true) ⊎ (gives_up l.await ≡ false)

abort-Persists :
    (l : Loop) (reason : JsValue) (signal : Signal)
    → l.signal ≡ signal
    → Persists l
    → Persists (abort l reason)
unfolding abort abort_pending
abort-Persists l reason no_abort e (inl fired) = absurd (cc (ap is_aborted e))
abort-Persists l reason no_abort e (inr going) = rw e (inr going)
abort-Persists l reason live e h = rw e (inl refl)
abort-Persists l reason (aborted first) e h = rw e (inl refl)

step-Persists : (l : Loop) (ev : Event) → IsOrdinary ev → Persists l → Persists (step l ev)
unfolding step resume
step-Persists l (aborts reason) ord h = abort-Persists l reason l.signal refl h
step-Persists l (opens o) ord (inl fired) = inl fired
step-Persists l (receives o) ord (inl fired) = inl fired
step-Persists l elapses ord (inl fired) = inl fired
step-Persists l resumes ord (inl fired) = inl (ap is_aborted (resume-signal l) ∙ fired)
step-Persists l asks ord (inl fired) = inl fired
step-Persists l (opens o) ord (inr going) = inr (settle_open-Persists l.await o ord going)
step-Persists l (receives o) ord (inr going) = inr (settle_receive-Persists l.await o ord going)
step-Persists l elapses ord (inr going) = inr (elapse-Persists l.await going)
step-Persists l asks ord (inr going) = inr going
step-Persists l resumes ord (inr going) = elim (Bool-cases (is_aborted l.signal)) [
  | inl fired ↦ inl (ap is_aborted (resume-signal l) ∙ fired)
  | inr quiet ↦ inr (resume_from-Persists l quiet l.await refl going)
]

run-Persists :
    (l : Loop) (evs : List Event) → All IsOrdinary evs → Persists l → Persists (run l evs)
unfolding run
run-Persists l [] ord h = h
run-Persists l (ev ∷ evs) (o, ord) h = run-Persists (step l ev) evs ord (step-Persists l ev o h)

start-Persists :
    (o : Options) (signal : Signal) (watch : BundleWatch) → Persists (run_watch_loop o signal watch)
unfolding run_watch_loop open_stream stop
start-Persists o signal watch = elim (Bool-cases (is_aborted signal)) [
  | inl fired ↦ rw fired (inl fired)
  | inr quiet ↦ inr (open_stream-Persists (initial o signal watch) quiet)
]

finished_only_if :
    (signal : Signal) (a : Await)
    → (is_aborted signal ≡ true) ⊎ (gives_up a ≡ false)
    → is_finished a ≡ true
    → is_aborted signal ≡ true
finished_only_if signal a (inl fired) f = fired
finished_only_if signal finished (inr going) f = absurd (cc)
finished_only_if signal (opening _) (inr going) f = absurd (cc)
finished_only_if signal (receiving _) (inr going) f = absurd (cc)
finished_only_if signal (sleeping _) (inr going) f = absurd (cc)

-- The loop returns only after the signal has fired: dials and streams may fail as often as they
-- like, as long as none of them throws the AbortRaceError that is raceAbort's own.
pub finished-aborted :
    (o : Options) (signal : Signal) (watch : BundleWatch) (evs : List Event)
    → All IsOrdinary evs
    → is_finished (run (run_watch_loop o signal watch) evs).await ≡ true
    → is_aborted (run (run_watch_loop o signal watch) evs).signal ≡ true
finished-aborted o signal watch evs ord =
    finished_only_if _ _ (run-Persists _ evs ord (start-Persists o signal watch))
