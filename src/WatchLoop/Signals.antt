-- ===== src/WatchLoop/Signals.antt =====
-- The AbortSignal of a loop: no step takes it away, and only the environment fires it.
use signet_clients.Prelude.{
  ◌≡◌, refl, ap, ◌∙◌, List, [], ◌∷◌, Bool, true, false, Option, none, some, if_cases,
}
use signet_clients.Runtime.{
  JsValue, Outcome, resolved, rejected, Signal, no_abort, live, aborted, is_aborted, abort_signal,
}
use signet_clients.Errors.{is_abort_race}
use signet_clients.BundleWatch.{BundleWatch}
use signet_clients.WatchLoop.{
  EventType, unspecified, changed, unrecognized, Options, backoff_min, Await, opening, receiving,
  sleeping, finished, Loop, stop, open_stream, receive, sleep, run_watch_loop, after_open, notify,
  stream_broken, after_receive, after_sleep, resume_from, resume, Event, opens, receives, elapses,
  aborts, resumes, asks, abort, step, run,
}

pub notify-signal : (l : Loop) (e : EventType) → (notify l e).signal ≡ l.signal
unfolding notify
notify-signal l changed = refl
notify-signal l unspecified = refl
notify-signal l unrecognized = refl

abbrev pub has_signal : Signal → Bool
has_signal no_abort = false
has_signal live = true
has_signal (aborted reason) = true

-- No step takes the signal away.
after_open-signal :
    (l : Loop) (r : Option (Outcome (Unit {0}))) → (after_open l r).signal ≡ l.signal
unfolding after_open receive stop sleep
after_open-signal l none = refl
after_open-signal l (some (resolved stream)) = refl
after_open-signal l (some (rejected e)) =
    if_cases (λ (k : Loop). k.signal ≡ l.signal) (is_abort_race e) (λ _. refl) (λ _. refl)

after_receive-signal :
    (l : Loop) (r : Option (Outcome EventType)) → (after_receive l r).signal ≡ l.signal
unfolding after_receive receive stop stream_broken sleep
after_receive-signal l none = refl
after_receive-signal l (some (resolved event)) =
    notify-signal (record l { backoff = backoff_min l.options }) event
after_receive-signal l (some (rejected e)) =
    if_cases (λ (k : Loop). k.signal ≡ l.signal) (is_abort_race e) (λ _. refl)
      (λ _.
        if_cases (λ (k : Loop). k.signal ≡ l.signal) (is_aborted l.signal) (λ _. refl) (λ _. refl))

after_sleep-signal : (l : Loop) (r : Option Bool) → (after_sleep l r).signal ≡ l.signal
unfolding after_sleep stop open_stream
after_sleep-signal l none = refl
after_sleep-signal l (some false) = refl
after_sleep-signal l (some true) =
    if_cases (λ (k : Loop). k.signal ≡ l.signal) (is_aborted l.signal) (λ _. refl) (λ _. refl)

resume_from-signal : (l : Loop) (a : Await) → (resume_from l a).signal ≡ l.signal
unfolding resume_from
resume_from-signal l (opening r) = after_open-signal l r.result
resume_from-signal l (receiving r) = after_receive-signal l r.result
resume_from-signal l (sleeping s) = after_sleep-signal l s.slept
resume_from-signal l finished = refl

has_signal_abort :
    (reason : JsValue) (signal : Signal)
    → has_signal (abort_signal reason signal) ≡ has_signal signal
has_signal_abort reason no_abort = refl
has_signal_abort reason live = refl
has_signal_abort reason (aborted first) = refl

step-has_signal : (l : Loop) (ev : Event) → has_signal (step l ev).signal ≡ has_signal l.signal
unfolding step abort resume
step-has_signal l (opens o) = refl
step-has_signal l (receives o) = refl
step-has_signal l elapses = refl
step-has_signal l (aborts reason) = has_signal_abort reason l.signal
step-has_signal l resumes = ap has_signal (resume_from-signal l l.await)
step-has_signal l asks = refl

pub run-has_signal :
    (l : Loop) (evs : List Event) → has_signal (run l evs).signal ≡ has_signal l.signal
unfolding run
run-has_signal l [] = refl
run-has_signal l (ev ∷ evs) = run-has_signal (step l ev) evs ∙ step-has_signal l ev

pub start-has_signal :
    (o : Options) (signal : Signal) (watch : BundleWatch)
    → has_signal (run_watch_loop o signal watch).signal ≡ has_signal signal
unfolding run_watch_loop open_stream stop
start-has_signal o signal watch =
    if_cases (λ (k : Loop). has_signal k.signal ≡ has_signal signal) (is_aborted signal) (λ _. refl)
      (λ _. refl)

pub resume-signal : (l : Loop) → (resume l).signal ≡ l.signal
unfolding resume
resume-signal l = resume_from-signal l l.await

abort_fired :
    (reason : JsValue) (signal : Signal)
    → has_signal signal ≡ true
    → is_aborted (abort_signal reason signal) ≡ true
abort_fired reason no_abort h = absurd (cc)
abort_fired reason live h = refl
abort_fired reason (aborted first) h = refl

pub abort-fired :
    (l : Loop) (reason : JsValue)
    → has_signal l.signal ≡ true
    → is_aborted (abort l reason).signal ≡ true
unfolding abort
abort-fired l reason h = abort_fired reason l.signal h
