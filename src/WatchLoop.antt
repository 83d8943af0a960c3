-- ===== src/WatchLoop.antt =====
-- typescript/src/restart.ts: runWatchLoop with nextBackoff and sleepOrAborted. The loop is a state
-- that stands at one of its awaits. The environment settles the promise that is awaited, fires the
-- abort signal, and lets the loop go on; a consumer asks for changes in between.
pub mod Failures
pub mod Backoff
pub mod Shutdown
pub mod Signals
pub mod Armed
pub mod Cancellation
pub mod Persistence
pub mod Tests
use signet_clients.Prelude.{
  ℕ, ◌*◌, min, Bool, true, false, Option, none, some, List, [], ◌∷◌, if◌then◌else◌,
}
use signet_clients.Runtime.{
  JsValue, Outcome, resolved, rejected, Signal, no_abort, live, aborted, is_aborted, abort_signal,
}
use signet_clients.Errors.{Race, race_abort, on_abort, on_settle, is_abort_race, abort_race_error}
use signet_clients.BundleWatch.{BundleWatch, new_watch, signal_change, close, next}

pub data EventType : Type 0 where
  unspecified changed unrecognized : EventType

-- `namespace` and `service` of a response are not read.
pub record Options : Type 0 where
  pub backoff_min_ms : Option ℕ
  pub backoff_max_ms : Option ℕ

abbrev pub default_backoff_min_ms : ℕ
default_backoff_min_ms = 1000

abbrev pub default_backoff_max_ms : ℕ
default_backoff_max_ms = 30000

-- `a ?? b`.
abbrev pub or_default : Option ℕ → ℕ → ℕ
or_default none d = d
or_default (some n) d = n

abbrev pub backoff_min : Options → ℕ
backoff_min o = or_default o.backoff_min_ms default_backoff_min_ms

abbrev pub backoff_max : Options → ℕ
backoff_max o = or_default o.backoff_max_ms default_backoff_max_ms

pub next_backoff : ℕ → ℕ → ℕ
next_backoff current most = min (current * 2) most

-- A call of `sleepOrAborted`: how long it is to last, whether the timer is armed, the abort listener is registered, and what the
-- promise has settled to.
pub record Sleep : Type 0 where
  pub ms : ℕ
  pub timer : Bool
  pub listening : Bool
  pub slept : Option Bool

unfoldable pub sleep_or_aborted : ℕ → Signal → Sleep
sleep_or_aborted ms no_abort = record { ms = ms; timer = true; listening = false; slept = none }
sleep_or_aborted ms live = record { ms = ms; timer = true; listening = true; slept = none }
sleep_or_aborted ms (aborted reason) = record {
  ms = ms;
  timer = false;
  listening = false;
  slept = some false;
}

-- The timer fires if it is armed, and the abort listener is removed.
unfoldable pub on_timer : Sleep → Sleep
on_timer s = if s.timer then record s { timer = false; listening = false; slept = some true } else s

-- `onAbort`, if it is registered: the timer is cleared.
unfoldable pub on_sleep_abort : Sleep → Sleep
on_sleep_abort s =
    if s.listening then record s { timer = false; listening = false; slept = some false } else s

pub data Await : Type 0 where
  opening : Race (Unit {0}) → Await
  receiving : Race EventType → Await
  sleeping : Sleep → Await
  finished : Await

pub record Loop : Type 0 where
  pub options : Options
  pub signal : Signal
  pub backoff : ℕ
  pub await : Await
  pub watch : BundleWatch

-- `return`, and the `finally` block.
stop : Loop → Loop
stop l = record l { await = finished; watch = close l.watch }

-- The head of the outer loop.
open_stream : Loop → Loop
unfolding stop
open_stream l =
    if is_aborted l.signal then stop l else record l { await = opening (race_abort l.signal) }

receive : Loop → Loop
receive l = record l { await = receiving (race_abort l.signal) }

sleep : Loop → Loop
sleep l = record l { await = sleeping (sleep_or_aborted l.backoff l.signal) }

-- The variables before the loop is entered.
abbrev initial : Options → Signal → BundleWatch → Loop
initial o signal watch = record {
  options = o;
  signal = signal;
  backoff = backoff_min o;
  await = finished;
  watch = watch;
}

pub run_watch_loop : Options → Signal → BundleWatch → Loop
unfolding open_stream
run_watch_loop o signal watch = open_stream (initial o signal watch)

after_open : Loop → Option (Outcome (Unit {0})) → Loop
unfolding receive stop sleep
after_open l none = l
after_open l (some (resolved stream)) = receive l
after_open l (some (rejected e)) = if is_abort_race e then stop l else sleep l

pub notify : Loop → EventType → Loop
notify l changed = record l { watch = signal_change l.watch }
notify l unspecified = l
notify l unrecognized = l

-- `break` out of the inner loop, and the check behind it.
stream_broken : Loop → Loop
unfolding stop sleep
stream_broken l = if is_aborted l.signal then stop l else sleep l

after_receive : Loop → Option (Outcome EventType) → Loop
unfolding notify receive stop stream_broken
after_receive l none = l
after_receive l (some (resolved event)) =
    receive (notify (record l { backoff = backoff_min l.options }) event)
after_receive l (some (rejected e)) = if is_abort_race e then stop l else stream_broken l

after_sleep : Loop → Option Bool → Loop
unfolding open_stream stop
after_sleep l none = l
after_sleep l (some true) =
    open_stream (record l { backoff = next_backoff l.backoff (backoff_max l.options) })
after_sleep l (some false) = stop l

-- The loop goes on from its await if the awaited promise has settled.
resume_from : Loop → Await → Loop
unfolding after_open after_receive after_sleep
resume_from l (opening r) = after_open l r.result
resume_from l (receiving r) = after_receive l r.result
resume_from l (sleeping s) = after_sleep l s.slept
resume_from l finished = l

pub resume : Loop → Loop
unfolding resume_from
resume l = resume_from l l.await

-- What the environment and the consumer do. An event about a promise that is not awaited is void.
pub data Event : Type 0 where
  opens : Outcome (Unit {0}) → Event
  receives : Outcome EventType → Event
  elapses : Event
  aborts : JsValue → Event
  resumes : Event
  asks : Event

settle_open : Await → Outcome (Unit {0}) → Await
settle_open (opening r) o = opening (on_settle o r)
settle_open a o = a

settle_receive : Await → Outcome EventType → Await
settle_receive (receiving r) o = receiving (on_settle o r)
settle_receive a o = a

elapse : Await → Await
elapse (sleeping s) = sleeping (on_timer s)
elapse a = a

-- The abort listeners of the pending await.
abort_await : Await → Await
abort_await (opening r) = opening (on_abort r)
abort_await (receiving r) = receiving (on_abort r)
abort_await (sleeping s) = sleeping (on_sleep_abort s)
abort_await finished = finished

-- A signal fires once, if there is one.
abort_pending : Signal → Await → Await
unfolding abort_await
abort_pending no_abort a = a
abort_pending live a = abort_await a
abort_pending (aborted first) a = a

pub abort : Loop → JsValue → Loop
unfolding abort_pending
abort l reason = record l {
  signal = abort_signal reason l.signal;
  await = abort_pending l.signal l.await;
}

pub step : Loop → Event → Loop
unfolding settle_open settle_receive elapse abort resume
step l (opens o) = record l { await = settle_open l.await o }
step l (receives o) = record l { await = settle_receive l.await o }
step l elapses = record l { await = elapse l.await }
step l (aborts reason) = abort l reason
step l resumes = resume l
step l asks = record l { watch = next l.watch }

pub run : Loop → List Event → Loop
run l [] = l
run l (ev ∷ evs) = run (step l ev) evs
