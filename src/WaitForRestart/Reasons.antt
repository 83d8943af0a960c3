-- ===== src/WaitForRestart/Reasons.antt =====
-- Why waitForRestart throws, and when it goes on to acquire the lock.
use signet_clients.Prelude.{ℕ, ◌≡◌, ◌⊎◌, inl, inr, refl, true, some, List, [], ◌∷◌, if_cases, ◌<◌}
use signet_clients.Runtime.{JsValue, Signal, no_abort, live, aborted, abort_signal}
use signet_clients.BundleWatch.{BundleWatch, new_watch}
use signet_clients.BundleWatch.Answers.{signal_change-Follows, close-Follows, next-Follows}
use signet_clients.WatchLoop.{Sleep, on_timer, on_sleep_abort}
use signet_clients.WaitForRestart.{
  Stage, watch_first, debouncing, acquiring, failed, Waiting, on_sleep, abort_sleep, Event, changes,
  closes, elapses, resumes, aborts, step, run, wait_for_restart,
}
use signet_clients.WaitForRestart.Reasoned.{
  HasFired, IsSlept, Reasoned, IsReasoned, observe-IsReasoned, watch-IsReasoned, resumes-IsReasoned,
}

-- The timer has run out.
abbrev pub HasElapsed : List Event → Type 0
HasElapsed [] = ⊥
HasElapsed (ev ∷ evs) = (ev ≡ elapses) ⊎ HasElapsed evs

module _ (T : Type 0) (ms : ℕ) where
  on_timer-IsSlept :
      (t : T) (signal : Signal) (s : Sleep)
      → IsSlept T ms signal s.slept
      → IsSlept T ms signal (on_timer s).slept
  unfolding on_timer
  on_timer-IsSlept t signal s =
      if_cases (λ (x : Sleep). IsSlept T ms signal s.slept → IsSlept T ms signal x.slept) s.timer
        (λ _ h. (λ e. absurd (cc), λ e. t)) (λ _ h. h)

  elapsed-Reasoned :
      (t : T) (b : BundleWatch) (signal : Signal) (stage : Stage)
      → Reasoned T ms b signal stage
      → Reasoned T ms b signal (on_sleep on_timer stage)
  unfolding on_sleep
  elapsed-Reasoned t b signal watch_first r = r
  elapsed-Reasoned t b signal (debouncing p s won) r = (r.0, on_timer-IsSlept t signal s r.1, r.2)
  elapsed-Reasoned t b signal acquiring r = r
  elapsed-Reasoned t b signal (failed e) r = r

  on_sleep_abort-ran_out :
      (s : Sleep) → (s.slept ≡ some true → T) → (on_sleep_abort s).slept ≡ some true → T
  unfolding on_sleep_abort
  on_sleep_abort-ran_out s =
      if_cases (λ (x : Sleep). (s.slept ≡ some true → T) → x.slept ≡ some true → T) s.listening
        (λ _ h e. absurd (cc)) (λ _ h. h)

  aborted-Reasoned :
      (reason : JsValue) (b : BundleWatch) (signal : Signal) (stage : Stage)
      → Reasoned T ms b signal stage
      → Reasoned T ms b (abort_signal reason signal) (abort_sleep signal stage)
  unfolding abort_sleep on_sleep
  aborted-Reasoned reason b no_abort stage r = r
  aborted-Reasoned reason b (aborted first) stage r = r
  aborted-Reasoned reason b live watch_first r = r
  aborted-Reasoned reason b live (debouncing p s won) r = (
    r.0,
    (λ e. (reason, refl), on_sleep_abort-ran_out s r.1.1),
    (λ e. (reason, refl), r.2.1, r.2.2),
  )
  aborted-Reasoned reason b live acquiring r = r
  aborted-Reasoned reason b live (failed e) r = inl (reason, refl)

  step-IsReasoned :
      (w : Waiting) (ev : Event)
      → (ev ≡ elapses → T)
      → IsReasoned T ms w
      → IsReasoned T ms (step w ev)
  unfolding step
  step-IsReasoned w changes t h =
      observe-IsReasoned T ms _ (watch-IsReasoned T ms w _ (signal_change-Follows w.watch) h)
  step-IsReasoned w closes t h =
      observe-IsReasoned T ms _ (watch-IsReasoned T ms w _ (close-Follows w.watch) h)
  step-IsReasoned w elapses t h =
      observe-IsReasoned T ms (record w { stage = on_sleep on_timer w.stage })
        (record {
          honest = h.honest;
          same_ms = h.same_ms;
          reasoned = elapsed-Reasoned (t refl) w.watch w.signal w.stage h.reasoned;
        })
  step-IsReasoned w resumes t h = resumes-IsReasoned T ms w h
  step-IsReasoned w (aborts reason) t h =
      observe-IsReasoned T ms
        (record w { signal = abort_signal reason w.signal; stage = abort_sleep w.signal w.stage })
        (record {
          honest = h.honest;
          same_ms = h.same_ms;
          reasoned = aborted-Reasoned reason w.watch w.signal w.stage h.reasoned;
        })

  run-IsReasoned :
      (w : Waiting) (evs : List Event)
      → (HasElapsed evs → T)
      → IsReasoned T ms w
      → IsReasoned T ms (run w evs)
  unfolding run
  run-IsReasoned w [] t h = h
  run-IsReasoned w (ev ∷ evs) t h =
      run-IsReasoned (step w ev) evs (λ e. t (inr e)) (step-IsReasoned w ev (λ e. t (inl e)) h)

  initial-IsReasoned : (signal : Signal) → IsReasoned T ms (wait_for_restart ms signal)
  unfolding wait_for_restart new_watch
  initial-IsReasoned signal = record {
    honest = (next-Follows new_watch).honest (λ i e. absurd (cc));
    same_ms = refl;
    reasoned = tt;
  }

abbrev pub HasReason : ℕ → List Event → Waiting → Stage → Type 0
HasReason ms evs w watch_first = Unit
HasReason ms evs w (debouncing p s won) = w.watch.promises 0 ≡ some true
HasReason ms evs w acquiring = (w.watch.promises 0 ≡ some true) × (0 < ms → HasElapsed evs)
HasReason ms evs w (failed e) = HasFired w.signal ⊎ (w.watch.closed ≡ true)

-- Whatever the watch, the timer and the signal do, and in any order: the call debounces and goes on
-- to acquire the lock only once the first change has been answered true; with a debounce interval
-- it acquires the lock only if the timer has run out; and it throws only if the signal has fired or
-- the watch is closed.
pub run-HasReason :
    (ms : ℕ) (signal : Signal) (evs : List Event)
    → let w = run (wait_for_restart ms signal) evs in HasReason ms evs w w.stage
run-HasReason ms signal evs =
    let T = HasElapsed evs in
    let w = run (wait_for_restart ms signal) evs in
    reason_of w w.stage
      (run-IsReasoned T ms (wait_for_restart ms signal) evs (λ e. e)
        (initial-IsReasoned T ms signal)).reasoned
  where
    reason_of :
        (w : Waiting) (stage : Stage)
        → Reasoned (HasElapsed evs) ms w.watch w.signal stage
        → HasReason ms evs w stage
    reason_of w watch_first r = tt
    reason_of w (debouncing p s won) r = r.0
    reason_of w acquiring r = r
    reason_of w (failed e) r = r
