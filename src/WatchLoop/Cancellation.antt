-- ===== src/WatchLoop/Cancellation.antt =====
-- What ends runWatchLoop: the abort signal does, within two turns, and nothing else does.
use signet_clients.Prelude.{
  ◌≡◌, refl, sym, ap, ◌∙◌, subst, List, Bool, true, false, Option, none, some, if_cases, arith,
}
use signet_clients.Runtime.{
  JsValue, Outcome, resolved, rejected, Signal, no_abort, live, aborted, is_aborted,
}
use signet_clients.Errors.{race_abort, is_abort_race, abort_race_error}
use signet_clients.BundleWatch.{BundleWatch}
use signet_clients.WatchLoop.{
  EventType, Options, backoff_min, sleep_or_aborted, Await, opening, receiving, sleeping, finished,
  Loop, stop, open_stream, receive, sleep, run_watch_loop, after_open, notify, stream_broken,
  after_receive, after_sleep, resume_from, resume, Event, abort, run,
}
use signet_clients.WatchLoop.Shutdown.{is_finished}
use signet_clients.WatchLoop.Signals.{
  notify-signal, has_signal, run-has_signal, start-has_signal, abort-fired,
}
use signet_clients.WatchLoop.Armed.{
  is_settled, AwaitIsArmed, IsArmed, run-IsArmed, abort-IsArmed, run_watch_loop-IsArmed,
}

-- An await from which the loop returns when it next goes on.
abbrev IsEnding : Await → Type 0
IsEnding (opening r) = ⊥
IsEnding (receiving r) = r.result ≡ some (rejected abort_race_error)
IsEnding (sleeping s) = s.slept ≡ some false
IsEnding finished = Unit {0}

module _ (l : Loop) (fired : is_aborted l.signal ≡ true) where
  receive-IsEnding : IsEnding (receive l).await
  unfolding receive race_abort
  receive-IsEnding = ground arith

  sleep-IsEnding : IsEnding (sleep l).await
  unfolding sleep sleep_or_aborted
  sleep-IsEnding = ground arith

  after_open-IsEnding :
      (r : Option (Outcome (Unit {0}))) → is_settled r ≡ true → IsEnding (after_open l r).await
  unfolding after_open stop
  after_open-IsEnding none h = absurd (cc)
  after_open-IsEnding (some (resolved stream)) h = receive-IsEnding
  after_open-IsEnding (some (rejected e)) h =
      if_cases (λ (k : Loop). IsEnding k.await) (is_abort_race e) (λ _. tt) (λ _. sleep-IsEnding)

  after_sleep-IsEnding : (r : Option Bool) → is_settled r ≡ true → IsEnding (after_sleep l r).await
  unfolding after_sleep stop open_stream
  after_sleep-IsEnding none h = absurd (cc)
  after_sleep-IsEnding (some false) h = tt
  after_sleep-IsEnding (some true) h = rw fired tt

after_receive-IsEnding :
    (l : Loop) (r : Option (Outcome EventType))
    → is_aborted l.signal ≡ true
    → is_settled r ≡ true
    → IsEnding (after_receive l r).await
unfolding after_receive stop stream_broken
after_receive-IsEnding l none fired h = absurd (cc)
after_receive-IsEnding l (some (resolved event)) fired h =
    receive-IsEnding (notify (record l { backoff = backoff_min l.options }) event)
      (ap is_aborted (notify-signal (record l { backoff = backoff_min l.options }) event) ∙ fired)
after_receive-IsEnding l (some (rejected e)) fired h =
    if_cases (λ (k : Loop). IsEnding k.await) (is_abort_race e) (λ _. tt) (λ _. rw fired tt)

abbrev AwaitIsSettled : Await → Type 0
AwaitIsSettled (opening r) = is_settled r.result ≡ true
AwaitIsSettled (receiving r) = is_settled r.result ≡ true
AwaitIsSettled (sleeping s) = is_settled s.slept ≡ true
AwaitIsSettled finished = Unit {0}

settled_of_IsArmed :
    (signal : Signal) (a : Await)
    → is_aborted signal ≡ true
    → AwaitIsArmed signal a
    → AwaitIsSettled a
settled_of_IsArmed (aborted reason) (opening r) f h = h
settled_of_IsArmed (aborted reason) (receiving r) f h = h
settled_of_IsArmed (aborted reason) (sleeping s) f h = h
settled_of_IsArmed (aborted reason) finished f h = tt
settled_of_IsArmed no_abort a f h = absurd (cc)
settled_of_IsArmed live a f h = absurd (cc)

resume_from-IsEnding :
    (l : Loop) (a : Await)
    → l.await ≡ a
    → is_aborted l.signal ≡ true
    → AwaitIsSettled a
    → IsEnding (resume_from l a).await
unfolding resume_from
resume_from-IsEnding l (opening r) e fired h = after_open-IsEnding l fired r.result h
resume_from-IsEnding l (receiving r) e fired h = after_receive-IsEnding l r.result fired h
resume_from-IsEnding l (sleeping s) e fired h = after_sleep-IsEnding l fired s.slept h
resume_from-IsEnding l finished e fired h = subst IsEnding (sym e) tt

ended :
    (l : Loop) (a : Await) → l.await ≡ a → IsEnding a → is_finished (resume_from l a).await ≡ true
unfolding resume_from after_receive after_sleep stop is_abort_race
ended l (opening r) e h = absurd h
ended l (receiving r) e h = rw h refl
ended l (sleeping s) e h = rw h refl
ended l finished e h = ap is_finished e

resume-IsEnding : (l : Loop) → is_aborted l.signal ≡ true → IsArmed l → IsEnding (resume l).await
unfolding resume
resume-IsEnding l fired h =
    resume_from-IsEnding l l.await refl fired (settled_of_IsArmed l.signal l.await fired h)

resume-finished : (l : Loop) → IsEnding l.await → is_finished (resume l).await ≡ true
unfolding resume
resume-finished l h = ended l l.await refl h

-- Given a signal, the loop returns within two turns of the signal's firing, whatever happened
-- before and whatever it is waiting for: a dial, a response that never comes, or a sleep.
pub abort-stops :
    (o : Options) (signal : Signal) (watch : BundleWatch) (evs : List Event) (reason : JsValue)
    → has_signal signal ≡ true
    → let l = abort (run (run_watch_loop o signal watch) evs) reason in
      is_finished (resume (resume l)).await ≡ true
abort-stops o signal watch evs reason given =
    resume-finished (resume l) (resume-IsEnding l fired armed)
  where
    before : Loop
    before = run (run_watch_loop o signal watch) evs

    l : Loop
    l = abort before reason

    fired : is_aborted l.signal ≡ true
    fired = abort-fired before reason (
        run-has_signal (run_watch_loop o signal watch) evs
        ∙ start-has_signal o signal watch
        ∙ given)

    armed : IsArmed l
    armed =
        abort-IsArmed before reason
          (run-IsArmed (run_watch_loop o signal watch) evs (run_watch_loop-IsArmed o signal watch))
