-- ===== src/WatchLoop/Armed.antt =====
-- At every await of runWatchLoop the abort signal can still end the wait.
use signet_clients.Prelude.{
  ℕ, ◌≡◌, refl, ◌⊎◌, inl, inr, List, [], ◌∷◌, Bool, true, false, Option, none, some, if_cases,
  arith,
}
use signet_clients.Runtime.{
  or_else, JsValue, Outcome, resolved, rejected, Signal, no_abort, live, aborted, is_aborted,
  abort_signal,
}
use signet_clients.Errors.{Race, race_abort, on_abort, on_settle, is_abort_race}
use signet_clients.BundleWatch.{BundleWatch}
use signet_clients.WatchLoop.{
  EventType, Options, backoff_min, sleep_or_aborted, on_timer, on_sleep_abort, Await, opening,
  receiving, sleeping, finished, Loop, stop, open_stream, receive, sleep, initial, run_watch_loop,
  after_open, notify, stream_broken, after_receive, after_sleep, resume_from, resume, Event, opens,
  receives, elapses, aborts, resumes, asks, settle_open, settle_receive, elapse, abort_await,
  abort_pending, abort, step, run,
}

abbrev pub is_settled {ℓ} : {A : Type ℓ} → Option A → Bool
is_settled none = false
is_settled (some a) = true

-- What the abort signal can still do to the await: its listener is registered while the promise
-- is pending, and once it has fired nothing is pending.
abbrev pub Armed : Signal → Bool → Bool → Type 0
Armed no_abort listening settled = Unit {0}
Armed live listening settled = (listening ≡ true) ⊎ (settled ≡ true)
Armed (aborted reason) listening settled = settled ≡ true

abbrev pub AwaitIsArmed : Signal → Await → Type 0
AwaitIsArmed signal (opening r) = Armed signal r.listening (is_settled r.result)
AwaitIsArmed signal (receiving r) = Armed signal r.listening (is_settled r.result)
AwaitIsArmed signal (sleeping s) = Armed signal s.listening (is_settled s.slept)
AwaitIsArmed signal finished = Unit {0}

abbrev pub IsArmed : Loop → Type 0
IsArmed l = AwaitIsArmed l.signal l.await

race_abort-Armed :
    (T : Type 0) (signal : Signal)
    → Armed signal
        (race_abort {T = T} signal).listening
        (is_settled (race_abort {T = T} signal).result)
unfolding race_abort
race_abort-Armed T no_abort = tt
race_abort-Armed T live = inl refl
race_abort-Armed T (aborted reason) = refl

sleep-Armed :
    (ms : ℕ) (signal : Signal)
    → Armed signal
        (sleep_or_aborted ms signal).listening
        (is_settled (sleep_or_aborted ms signal).slept)
unfolding sleep_or_aborted
sleep-Armed ms no_abort = tt
sleep-Armed ms live = inl refl
sleep-Armed ms (aborted reason) = refl

-- Every await that the loop goes to is armed.
module _ (l : Loop) where
  open_stream-IsArmed : IsArmed (open_stream l)
  unfolding open_stream stop
  open_stream-IsArmed =
      if_cases IsArmed (is_aborted l.signal) (λ _. tt) (λ _. race_abort-Armed _ l.signal)

  receive-IsArmed : IsArmed (receive l)
  unfolding receive
  receive-IsArmed = race_abort-Armed _ l.signal

  sleep-IsArmed : IsArmed (sleep l)
  unfolding sleep
  sleep-IsArmed = sleep-Armed l.backoff l.signal

  after_open-IsArmed : (r : Option (Outcome (Unit {0}))) → IsArmed l → IsArmed (after_open l r)
  unfolding after_open stop
  after_open-IsArmed none h = h
  after_open-IsArmed (some (resolved stream)) h = receive-IsArmed
  after_open-IsArmed (some (rejected e)) h =
      if_cases IsArmed (is_abort_race e) (λ _. tt) (λ _. sleep-IsArmed)

  after_sleep-IsArmed : (r : Option Bool) → IsArmed l → IsArmed (after_sleep l r)
  unfolding after_sleep stop open_stream
  after_sleep-IsArmed none h = h
  after_sleep-IsArmed (some false) h = tt
  after_sleep-IsArmed (some true) h =
      if_cases IsArmed (is_aborted l.signal) (λ _. tt) (λ _. race_abort-Armed _ l.signal)

after_receive-IsArmed :
    (l : Loop) (r : Option (Outcome EventType)) → IsArmed l → IsArmed (after_receive l r)
unfolding after_receive stop stream_broken
after_receive-IsArmed l none h = h
after_receive-IsArmed l (some (resolved event)) h =
    receive-IsArmed (notify (record l { backoff = backoff_min l.options }) event)
after_receive-IsArmed l (some (rejected e)) h =
    if_cases IsArmed (is_abort_race e) (λ _. tt)
      (λ _. if_cases IsArmed (is_aborted l.signal) (λ _. tt) (λ _. sleep-IsArmed l))

Armed-settled : (signal : Signal) (listening : Bool) → Armed signal listening true
Armed-settled no_abort listening = tt
Armed-settled live listening = inr refl
Armed-settled (aborted reason) listening = refl

Armed-or_else :
    {A : Type 0} (signal : Signal) (listening : Bool) (old : Option A) (v : A)
    → Armed signal listening (is_settled (or_else old v))
Armed-or_else signal listening none v = Armed-settled signal listening
Armed-or_else signal listening (some old) v = Armed-settled signal listening

-- Settling the awaited promise, or firing the timer, keeps the await armed.
module _ (signal : Signal) where
  settle_open-IsArmed :
      (a : Await) (o : Outcome (Unit {0}))
      → AwaitIsArmed signal a
      → AwaitIsArmed signal (settle_open a o)
  unfolding settle_open on_settle
  settle_open-IsArmed (opening r) o h = Armed-or_else signal false r.result o
  settle_open-IsArmed (receiving r) o h = h
  settle_open-IsArmed (sleeping s) o h = h
  settle_open-IsArmed finished o h = tt

  settle_receive-IsArmed :
      (a : Await) (o : Outcome EventType)
      → AwaitIsArmed signal a
      → AwaitIsArmed signal (settle_receive a o)
  unfolding settle_receive on_settle
  settle_receive-IsArmed (receiving r) o h = Armed-or_else signal false r.result o
  settle_receive-IsArmed (opening r) o h = h
  settle_receive-IsArmed (sleeping s) o h = h
  settle_receive-IsArmed finished o h = tt

  elapse-IsArmed : (a : Await) → AwaitIsArmed signal a → AwaitIsArmed signal (elapse a)
  unfolding elapse on_timer
  elapse-IsArmed (sleeping s) h =
      if_cases (λ t. AwaitIsArmed signal (sleeping t)) s.timer (λ _. Armed-settled signal false)
        (λ _. h)
  elapse-IsArmed (opening r) h = h
  elapse-IsArmed (receiving r) h = h
  elapse-IsArmed finished h = tt

-- Firing the signal settles whatever is awaited.
abort_race_settles :
    {T : Type 0} (r : Race T)
    → Armed live r.listening (is_settled r.result)
    → is_settled (on_abort r).result ≡ true
unfolding on_abort
abort_race_settles r h = ground arith

abort_await-IsArmed :
    (reason : JsValue) (a : Await)
    → AwaitIsArmed live a
    → AwaitIsArmed (aborted reason) (abort_await a)
unfolding abort_await on_sleep_abort
abort_await-IsArmed reason (opening r) h = abort_race_settles r h
abort_await-IsArmed reason (receiving r) h = abort_race_settles r h
abort_await-IsArmed reason (sleeping s) h = ground arith
abort_await-IsArmed reason finished h = tt

abort_pending-IsArmed :
    (reason : JsValue) (signal : Signal) (a : Await)
    → AwaitIsArmed signal a
    → AwaitIsArmed (abort_signal reason signal) (abort_pending signal a)
unfolding abort_pending
abort_pending-IsArmed reason no_abort a h = h
abort_pending-IsArmed reason live a h = abort_await-IsArmed reason a h
abort_pending-IsArmed reason (aborted first) a h = h

resume-IsArmed : (l : Loop) → IsArmed l → IsArmed (resume l)
unfolding resume resume_from
resume-IsArmed l h = from l.await
  where
    from : (a : Await) → IsArmed (resume_from l a)
    from (opening r) = after_open-IsArmed l r.result h
    from (receiving r) = after_receive-IsArmed l r.result h
    from (sleeping s) = after_sleep-IsArmed l s.slept h
    from finished = h

pub abort-IsArmed : (l : Loop) (reason : JsValue) → IsArmed l → IsArmed (abort l reason)
unfolding abort
abort-IsArmed l reason h = abort_pending-IsArmed reason l.signal l.await h

step-IsArmed : (l : Loop) (ev : Event) → IsArmed l → IsArmed (step l ev)
unfolding step
step-IsArmed l (opens o) h = settle_open-IsArmed l.signal l.await o h
step-IsArmed l (receives o) h = settle_receive-IsArmed l.signal l.await o h
step-IsArmed l elapses h = elapse-IsArmed l.signal l.await h
step-IsArmed l (aborts reason) h = abort-IsArmed l reason h
step-IsArmed l resumes h = resume-IsArmed l h
step-IsArmed l asks h = h

pub run_watch_loop-IsArmed :
    (o : Options) (signal : Signal) (watch : BundleWatch) → IsArmed (run_watch_loop o signal watch)
unfolding run_watch_loop
run_watch_loop-IsArmed o signal watch = open_stream-IsArmed (initial o signal watch)

pub run-IsArmed : (l : Loop) (evs : List Event) → IsArmed l → IsArmed (run l evs)
unfolding run
run-IsArmed l [] h = h
run-IsArmed l (ev ∷ evs) h = run-IsArmed (step l ev) evs (step-IsArmed l ev h)
