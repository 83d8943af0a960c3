-- ===== src/WatchLoop/Backoff.antt =====
-- The reconnect backoff of runWatchLoop against a closed formula.
use signet_clients.Prelude.{
  ℕ, suc, ◌≤◌, ◌≡◌, refl, ap, ap₂, ◌∙◌, subst, List, [], ◌∷◌, Bool, true, false, Option, none, some,
  if_cases, arith,
}
use signet_clients.Runtime.{
  JsValue, Outcome, resolved, rejected, Signal, no_abort, live, aborted, is_aborted,
}
use signet_clients.Errors.{is_abort_race}
use signet_clients.BundleWatch.{BundleWatch}
use signet_clients.WatchLoop.{
  EventType, unspecified, changed, unrecognized, Options, backoff_min, backoff_max, next_backoff,
  on_timer, on_sleep_abort, Await, opening, receiving, sleeping, finished, Loop, stop, open_stream,
  receive, sleep, initial, run_watch_loop, after_open, notify, stream_broken, after_receive,
  after_sleep, resume_from, resume, Event, opens, receives, elapses, aborts, resumes, asks,
  settle_open, settle_receive, elapse, abort_await, abort_pending, abort, step, run,
}
use signet_clients.WatchLoop.Failures.{
  count_open, count_sleep, count_resume, count_step, failures, delay, Lasts, IsPaced, delay-zero,
  delay-suc, sleep_or_aborted-ms,
}

-- Going to the next await needs nothing of the one before.
module _ (o : Options) (f : ℕ) (l : Loop) (same : l.options ≡ o)
    (paced : l.backoff ≡ delay o f) where
  stop-IsPaced : IsPaced o f (stop l)
  unfolding stop
  stop-IsPaced = record { same_options = same; paced = paced; slept_for = tt }

  open_stream-IsPaced : IsPaced o f (open_stream l)
  unfolding open_stream
  open_stream-IsPaced =
      if_cases (IsPaced o f) (is_aborted l.signal) (λ _. stop-IsPaced)
        (λ _. record { same_options = same; paced = paced; slept_for = tt })

  sleep-IsPaced : IsPaced o f (sleep l)
  unfolding sleep
  sleep-IsPaced = record {
    same_options = same;
    paced = paced;
    slept_for = sleep_or_aborted-ms l.backoff l.signal;
  }

  receive-IsPaced : IsPaced o f (receive l)
  unfolding receive
  receive-IsPaced = record { same_options = same; paced = paced; slept_for = tt }

  notify-receive-IsPaced : (e : EventType) → IsPaced o f (receive (notify l e))
  unfolding notify receive
  notify-receive-IsPaced changed = record { same_options = same; paced = paced; slept_for = tt }
  notify-receive-IsPaced unspecified = receive-IsPaced
  notify-receive-IsPaced unrecognized = receive-IsPaced

  after_open-IsPaced :
      (o' : Option (Outcome (Unit {0}))) → Lasts l.await l.backoff → IsPaced o f (after_open l o')
  unfolding after_open
  after_open-IsPaced none h = record { same_options = same; paced = paced; slept_for = h }
  after_open-IsPaced (some (resolved stream)) h = receive-IsPaced
  after_open-IsPaced (some (rejected e)) h =
      if_cases (IsPaced o f) (is_abort_race e) (λ _. stop-IsPaced) (λ _. sleep-IsPaced)

  stream_broken-IsPaced : IsPaced o f (stream_broken l)
  unfolding stream_broken
  stream_broken-IsPaced =
      if_cases (IsPaced o f) (is_aborted l.signal) (λ _. stop-IsPaced) (λ _. sleep-IsPaced)

module _ (o : Options) (capped : backoff_min o ≤ backoff_max o) (f : ℕ) (l : Loop)
    (p : IsPaced o f l) where
  after_receive-IsPaced :
      (res : Option (Outcome EventType)) → IsPaced o (count_open f res) (after_receive l res)
  unfolding after_receive
  after_receive-IsPaced none = p
  after_receive-IsPaced (some (resolved event)) =
      notify-receive-IsPaced o 0 _ p.same_options
        (ap backoff_min p.same_options ∙ delay-zero o capped) event
  after_receive-IsPaced (some (rejected e)) =
      if_cases (IsPaced o f) (is_abort_race e) (λ _. stop-IsPaced o f l p.same_options p.paced)
        (λ _. stream_broken-IsPaced o f l p.same_options p.paced)

  after_sleep-IsPaced :
      (slept : Option Bool) → IsPaced o (count_sleep f slept) (after_sleep l slept)
  unfolding after_sleep
  after_sleep-IsPaced none = p
  after_sleep-IsPaced (some false) = stop-IsPaced o f l p.same_options p.paced
  after_sleep-IsPaced (some true) =
      open_stream-IsPaced o (suc f)
        (record l { backoff = next_backoff l.backoff (backoff_max l.options) }) p.same_options
        (ap₂ next_backoff p.paced (ap backoff_max p.same_options) ∙ delay-suc o f)

  resume_from-IsPaced : (a : Await) → IsPaced o (count_resume f a) (resume_from l a)
  unfolding resume_from
  resume_from-IsPaced (opening r) =
      after_open-IsPaced o f l p.same_options p.paced r.result p.slept_for
  resume_from-IsPaced (receiving r) = after_receive-IsPaced r.result
  resume_from-IsPaced (sleeping s) = after_sleep-IsPaced s.slept
  resume_from-IsPaced finished = p

  resume-IsPaced : IsPaced o (count_resume f l.await) (resume l)
  unfolding resume
  resume-IsPaced = resume_from-IsPaced l.await

  await-IsPaced : (a : Await) → Lasts a l.backoff → IsPaced o f (record l { await = a })
  await-IsPaced a h = record { same_options = p.same_options; paced = p.paced; slept_for = h }

  settle_open-Lasts :
      (a : Await) (r : Outcome (Unit {0})) → Lasts a l.backoff → Lasts (settle_open a r) l.backoff
  unfolding settle_open
  settle_open-Lasts (opening _) r h = tt
  settle_open-Lasts (receiving _) r h = tt
  settle_open-Lasts (sleeping s) r h = h
  settle_open-Lasts finished r h = tt

  settle_receive-Lasts :
      (a : Await) (r : Outcome EventType) → Lasts a l.backoff → Lasts (settle_receive a r) l.backoff
  unfolding settle_receive
  settle_receive-Lasts (opening _) r h = tt
  settle_receive-Lasts (receiving _) r h = tt
  settle_receive-Lasts (sleeping s) r h = h
  settle_receive-Lasts finished r h = tt

  elapse-Lasts : (a : Await) → Lasts a l.backoff → Lasts (elapse a) l.backoff
  unfolding elapse on_timer
  elapse-Lasts (opening _) h = tt
  elapse-Lasts (receiving _) h = tt
  elapse-Lasts (sleeping s) h = ground arith
  elapse-Lasts finished h = tt

  abort_await-Lasts : (a : Await) → Lasts a l.backoff → Lasts (abort_await a) l.backoff
  unfolding abort_await on_sleep_abort
  abort_await-Lasts (opening _) h = tt
  abort_await-Lasts (receiving _) h = tt
  abort_await-Lasts (sleeping s) h = ground arith
  abort_await-Lasts finished h = tt

  abort_pending-Lasts : (signal : Signal) → Lasts (abort_pending signal l.await) l.backoff
  unfolding abort_pending
  abort_pending-Lasts no_abort = p.slept_for
  abort_pending-Lasts live = abort_await-Lasts l.await p.slept_for
  abort_pending-Lasts (aborted first) = p.slept_for

  abort-IsPaced : (reason : JsValue) → IsPaced o f (abort l reason)
  unfolding abort
  abort-IsPaced reason = record {
    same_options = p.same_options;
    paced = p.paced;
    slept_for = abort_pending-Lasts l.signal;
  }

  step-IsPaced : (ev : Event) → IsPaced o (count_step f l ev) (step l ev)
  unfolding step
  step-IsPaced (opens r) = await-IsPaced _ (settle_open-Lasts l.await r p.slept_for)
  step-IsPaced (receives r) = await-IsPaced _ (settle_receive-Lasts l.await r p.slept_for)
  step-IsPaced elapses = await-IsPaced _ (elapse-Lasts l.await p.slept_for)
  step-IsPaced (aborts reason) = abort-IsPaced reason
  step-IsPaced resumes = resume-IsPaced
  step-IsPaced asks = record {
    same_options = p.same_options;
    paced = p.paced;
    slept_for = p.slept_for;
  }

run-IsPaced :
    (o : Options) (f : ℕ) (l : Loop) (evs : List Event)
    → backoff_min o ≤ backoff_max o
    → IsPaced o f l
    → IsPaced o (failures f l evs) (run l evs)
unfolding run
run-IsPaced o f l [] capped p = p
run-IsPaced o f l (ev ∷ evs) capped p =
    run-IsPaced o (count_step f l ev) (step l ev) evs capped (step-IsPaced o capped f l p ev)

start-IsPaced :
    (o : Options) (signal : Signal) (watch : BundleWatch)
    → backoff_min o ≤ backoff_max o
    → IsPaced o 0 (run_watch_loop o signal watch)
unfolding run_watch_loop
start-IsPaced o signal watch capped =
    open_stream-IsPaced o 0 (initial o signal watch) refl (delay-zero o capped)

-- If the minimum does not exceed the cap, then after any events the backoff is the minimum doubled
-- once for each sleep that ran out since the last response, but never above the cap; and a sleep in
-- progress was started with that length.
pub run-backoff :
    (o : Options) (signal : Signal) (watch : BundleWatch) (evs : List Event)
    → backoff_min o ≤ backoff_max o
    → let l = run (run_watch_loop o signal watch) evs in
      let ms = delay o (failures 0 (run_watch_loop o signal watch) evs) in
      (l.backoff ≡ ms) × Lasts l.await ms
run-backoff o signal watch evs capped =
    let p =
      run-IsPaced o 0 (run_watch_loop o signal watch) evs capped
        (start-IsPaced o signal watch capped) in
    (p.paced, subst (Lasts _) p.paced p.slept_for)
