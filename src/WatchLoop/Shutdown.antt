-- ===== src/WatchLoop/Shutdown.antt =====
-- How runWatchLoop ends: its watch is closed exactly when it has returned.
use signet_clients.Prelude.{
  ◌≡◌, refl, sym, ap, ◌∙◌, List, [], ◌∷◌, Bool, true, false, Option, none, some, if_cases,
}
use signet_clients.Runtime.{
  Outcome, resolved, rejected, Signal, no_abort, live, aborted, is_aborted,
}
use signet_clients.Errors.{is_abort_race}
use signet_clients.BundleWatch.{BundleWatch}
use signet_clients.WatchLoop.{
  EventType, unspecified, changed, unrecognized, Options, backoff_min, Await, opening, receiving,
  sleeping, finished, Loop, stop, open_stream, receive, sleep, initial, run_watch_loop, after_open,
  notify, stream_broken, after_receive, after_sleep, resume_from, resume, Event, opens, receives,
  elapses, aborts, resumes, asks, settle_open, settle_receive, elapse, abort_pending, abort, step,
  run,
}
use signet_clients.BundleWatch.Closing.{close-closed, signal_change-closed, next-closed}

abbrev pub is_finished : Await → Bool
is_finished finished = true
is_finished (opening r) = false
is_finished (receiving r) = false
is_finished (sleeping s) = false

abbrev IsShut : Loop → Type 0
IsShut l = is_finished l.await ≡ l.watch.closed

stop-IsShut : (l : Loop) → IsShut (stop l)
unfolding stop
stop-IsShut l = sym (close-closed l.watch)

notify-receive-IsShut :
    (l : Loop) (e : EventType) → l.watch.closed ≡ false → IsShut (receive (notify l e))
unfolding receive notify
notify-receive-IsShut l changed still = sym (signal_change-closed l.watch ∙ still)
notify-receive-IsShut l unspecified still = sym still
notify-receive-IsShut l unrecognized still = sym still

module _ (l : Loop) (still : l.watch.closed ≡ false) where
  open_stream-IsShut : IsShut (open_stream l)
  unfolding open_stream
  open_stream-IsShut = if_cases IsShut (is_aborted l.signal) (λ _. stop-IsShut l) (λ _. sym still)

  sleep-IsShut : IsShut (sleep l)
  unfolding sleep
  sleep-IsShut = sym still

  after_open-IsShut : (r : Option (Outcome (Unit {0}))) → IsShut l → IsShut (after_open l r)
  unfolding after_open receive
  after_open-IsShut none h = h
  after_open-IsShut (some (resolved stream)) h = sym still
  after_open-IsShut (some (rejected e)) h =
      if_cases IsShut (is_abort_race e) (λ _. stop-IsShut l) (λ _. sleep-IsShut)

  after_receive-IsShut : (r : Option (Outcome EventType)) → IsShut l → IsShut (after_receive l r)
  unfolding after_receive stream_broken
  after_receive-IsShut none h = h
  after_receive-IsShut (some (resolved event)) h =
      notify-receive-IsShut (record l { backoff = backoff_min l.options }) event still
  after_receive-IsShut (some (rejected e)) h =
      if_cases IsShut (is_abort_race e) (λ _. stop-IsShut l)
        (λ _. if_cases IsShut (is_aborted l.signal) (λ _. stop-IsShut l) (λ _. sleep-IsShut))

  after_sleep-IsShut : (r : Option Bool) → IsShut l → IsShut (after_sleep l r)
  unfolding after_sleep open_stream
  after_sleep-IsShut none h = h
  after_sleep-IsShut (some false) h = stop-IsShut l
  after_sleep-IsShut (some true) h =
      if_cases IsShut (is_aborted l.signal) (λ _. stop-IsShut l) (λ _. sym still)

module _ (l : Loop) (h : IsShut l) where
  still_open : (a : Await) → l.await ≡ a → is_finished a ≡ false → l.watch.closed ≡ false
  still_open a e f = sym h ∙ ap is_finished e ∙ f

  resume_from-IsShut : (a : Await) → l.await ≡ a → IsShut (resume_from l a)
  unfolding resume_from
  resume_from-IsShut (opening r) e = after_open-IsShut l (still_open _ e refl) r.result h
  resume_from-IsShut (receiving r) e = after_receive-IsShut l (still_open _ e refl) r.result h
  resume_from-IsShut (sleeping s) e = after_sleep-IsShut l (still_open _ e refl) s.slept h
  resume_from-IsShut finished e = h

  settle_open-finished :
      (a : Await) (r : Outcome (Unit {0})) → is_finished (settle_open a r) ≡ is_finished a
  unfolding settle_open
  settle_open-finished (opening _) r = refl
  settle_open-finished _ r = refl

  settle_receive-finished :
      (a : Await) (r : Outcome EventType) → is_finished (settle_receive a r) ≡ is_finished a
  unfolding settle_receive
  settle_receive-finished (receiving _) r = refl
  settle_receive-finished _ r = refl

  elapse-finished : (a : Await) → is_finished (elapse a) ≡ is_finished a
  unfolding elapse
  elapse-finished (sleeping _) = refl
  elapse-finished _ = refl

  abort_pending-finished :
      (signal : Signal) (a : Await) → is_finished (abort_pending signal a) ≡ is_finished a
  unfolding abort_pending
  abort_pending-finished live (opening _) = refl
  abort_pending-finished live (receiving _) = refl
  abort_pending-finished live (sleeping _) = refl
  abort_pending-finished live finished = refl
  abort_pending-finished no_abort a = refl
  abort_pending-finished (aborted _) a = refl

  step-IsShut : (ev : Event) → IsShut (step l ev)
  unfolding step abort resume
  step-IsShut (opens r) = settle_open-finished l.await r ∙ h
  step-IsShut (receives r) = settle_receive-finished l.await r ∙ h
  step-IsShut elapses = elapse-finished l.await ∙ h
  step-IsShut (aborts reason) = abort_pending-finished l.signal l.await ∙ h
  step-IsShut resumes = resume_from-IsShut l.await refl
  step-IsShut asks = h ∙ sym (next-closed l.watch)

run-IsShut : (l : Loop) (evs : List Event) → IsShut l → IsShut (run l evs)
unfolding run
run-IsShut l [] h = h
run-IsShut l (ev ∷ evs) h = run-IsShut (step l ev) evs (step-IsShut l h ev)

-- A loop that was started on an open watch has returned exactly when the watch is closed, after
-- any events: it neither returns without closing the watch, nor closes it while it runs.
pub run-closed :
    (o : Options) (signal : Signal) (watch : BundleWatch) (evs : List Event)
    → watch.closed ≡ false
    → let l = run (run_watch_loop o signal watch) evs in is_finished l.await ≡ l.watch.closed
unfolding run_watch_loop
run-closed o signal watch evs still =
    run-IsShut _ evs (open_stream-IsShut (initial o signal watch) still)
