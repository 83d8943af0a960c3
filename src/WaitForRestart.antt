-- ===== src/WaitForRestart.antt =====
-- typescript/src/restart.ts: waitForRestart and debounceUntilQuiet, up to the call of acquireLock. The
-- call is a state that stands at one of its awaits; the watch loop changes the watch, the timer
-- fires, and the signal fires in between.
pub mod Debounce
pub mod Reasoned
pub mod Reasons
pub mod Tests
use signet_clients.Prelude.{
  ℕ, Bool, true, false, Option, none, some, List, [], ◌∷◌, ltb, if◌then◌else◌,
}
use signet_clients.Runtime.{codes, JsError, JsValue, Signal, no_abort, live, aborted, abort_signal}
use signet_clients.Errors.{aborted_error}
use signet_clients.BundleWatch.{BundleWatch, new_watch, signal_change, close, next}
use signet_clients.WatchLoop.{Sleep, sleep_or_aborted, on_timer, on_sleep_abort}

-- The first promise of `Promise.race` to settle: the change, or the timer, with its value.
pub data Winner : Type 0 where
  change timer : Bool → Winner

-- `watch_first`: awaiting the first change, promise number 0 of the watch. `debouncing`: the race of
-- the promise of that number against a timer, and its winner, if it is decided. `acquiring`: the
-- call of acquireLock. `failed`: the call has thrown.
pub data Stage : Type 0 where
  watch_first : Stage
  debouncing : ℕ → Sleep → Option Winner → Stage
  acquiring : Stage
  failed : JsError → Stage

pub record Waiting : Type 0 where
  pub watch : BundleWatch
  pub signal : Signal
  pub debounce_ms : ℕ
  pub stage : Stage

pub aborted_wait : Signal → JsError
aborted_wait signal = aborted_error signal (codes "waitForRestart")

-- A race is decided by what has settled; if both have, by the promise that stands first.
decide : Option Bool → Option Bool → Option Winner
decide (some ok) slept = some (change ok)
decide none (some completed) = some (timer completed)
decide none none = none

decide_once : Option Winner → Option Bool → Option Bool → Option Winner
unfolding decide
decide_once (some w) changed slept = some w
decide_once none changed slept = decide changed slept

-- The race sees what an event has settled.
observe_stage : BundleWatch → Stage → Stage
unfolding decide_once
observe_stage watch watch_first = watch_first
observe_stage watch (debouncing p s w) = debouncing p s (decide_once w (watch.promises p) s.slept)
observe_stage watch acquiring = acquiring
observe_stage watch (failed e) = failed e

pub observe : Waiting → Waiting
unfolding observe_stage
observe w = record w { stage = observe_stage w.watch w.stage }

-- A turn of the loop of debounceUntilQuiet against the promise of number `p`.
race_against : ℕ → Waiting → Waiting
unfolding observe
race_against p w =
    observe (record w { stage = debouncing p (sleep_or_aborted w.debounce_ms w.signal) none })

-- `pendingChange = watch.next()`, and the next turn.
pub next_turn : Waiting → Waiting
unfolding race_against
next_turn w = race_against w.watch.asked (record w { watch = next w.watch })

fail : Waiting → Waiting
unfolding aborted_wait
fail w = record w { stage = failed (aborted_wait w.signal) }

-- Behind the race.
after_race : Option Winner → Waiting → Waiting
unfolding fail next_turn
after_race none w = w
after_race (some (timer true)) w = record w { stage = acquiring }
after_race (some (timer false)) w = fail w
after_race (some (change true)) w = next_turn w
after_race (some (change false)) w = fail w

-- Behind the await of the first change.
after_first : Option Bool → Waiting → Waiting
unfolding fail next_turn
after_first none w = w
after_first (some false) w = fail w
after_first (some true) w =
    if ltb 0 w.debounce_ms then next_turn w else record w { stage = acquiring }

pub resume_stage : Stage → Waiting → Waiting
unfolding after_first after_race
resume_stage watch_first w = after_first (w.watch.promises 0) w
resume_stage (debouncing p s won) w = after_race won w
resume_stage acquiring w = w
resume_stage (failed e) w = w

on_sleep : (Sleep → Sleep) → Stage → Stage
on_sleep f watch_first = watch_first
on_sleep f (debouncing p s won) = debouncing p (f s) won
on_sleep f acquiring = acquiring
on_sleep f (failed e) = failed e

-- The abort listener of the timer; a signal fires once.
abort_sleep : Signal → Stage → Stage
unfolding on_sleep
abort_sleep no_abort stage = stage
abort_sleep live stage = on_sleep on_sleep_abort stage
abort_sleep (aborted first) stage = stage

pub data Event : Type 0 where
  changes closes elapses resumes : Event
  aborts : JsValue → Event

pub step : Waiting → Event → Waiting
unfolding observe resume_stage on_sleep abort_sleep
step w changes = observe (record w { watch = signal_change w.watch })
step w closes = observe (record w { watch = close w.watch })
step w elapses = observe (record w { stage = on_sleep on_timer w.stage })
step w resumes = resume_stage w.stage w
step w (aborts reason) =
    observe
      (record w { signal = abort_signal reason w.signal; stage = abort_sleep w.signal w.stage })

pub run : Waiting → List Event → Waiting
run w [] = w
run w (ev ∷ evs) = run (step w ev) evs

-- The call up to its first await.
pub wait_for_restart : ℕ → Signal → Waiting
wait_for_restart debounce_ms signal = record {
  watch = next new_watch;
  signal = signal;
  debounce_ms = debounce_ms;
  stage = watch_first;
}
