-- ===== src/WaitForRestart/Debounce.antt =====
-- A burst of changes, and the quiet interval behind it.
use signet_clients.Prelude.{
  ℕ, suc, zero, ◌≤◌, ◌<◌, ◌≡◌, ◌⊎◌, inl, inr, refl, ap, ◌∙◌, Bool, true, Option, none, some, List,
  [], ◌∷◌, lt→ltb, arith,
}
use signet_clients.Runtime.{JsValue, Signal, no_abort, live, aborted}
use signet_clients.BundleWatch.{new_watch, signal_change, next}
use signet_clients.BundleWatch.Awaited.{
  IsAwaited, new-IsAwaited, change-settles, change-asked, change-IsAwaited,
}
use signet_clients.WatchLoop.{sleep_or_aborted, on_timer, on_sleep_abort}
use signet_clients.WaitForRestart.{
  change, debouncing, acquiring, failed, Waiting, decide, decide_once, observe_stage, observe,
  race_against, next_turn, fail, after_race, after_first, resume_stage, on_sleep, abort_sleep,
  Event, changes, elapses, resumes, aborts, step, run, wait_for_restart, aborted_wait,
}

abbrev pub IsCalm : Signal → Type 0
IsCalm signal = (signal ≡ no_abort) ⊎ (signal ≡ live)

-- A turn of the debounce that has just begun: nothing has settled.
pub record IsFresh (ms : ℕ) (signal : Signal) (w : Waiting) : Type 0 where
  pub p : ℕ
  pub awaited : IsAwaited p w.watch
  pub same_ms : w.debounce_ms ≡ ms
  pub same_signal : w.signal ≡ signal
  pub undecided : w.stage ≡ debouncing p (sleep_or_aborted ms signal) none

calm-slept : (ms : ℕ) (signal : Signal) → IsCalm signal → (sleep_or_aborted ms signal).slept ≡ none
calm-slept ms signal (inl e) = rw e (unfold sleep_or_aborted in refl)
calm-slept ms signal (inr e) = rw e (unfold sleep_or_aborted in refl)

-- The next turn behind a change that the race of promise number `p` has seen.
turn-IsFresh :
    (ms p : ℕ) (signal : Signal) (w : Waiting)
    → IsCalm signal
    → w.debounce_ms ≡ ms
    → w.signal ≡ signal
    → w.watch.asked ≡ p
    → IsAwaited p (next w.watch)
    → IsFresh ms signal (next_turn w)
unfolding next_turn race_against observe observe_stage decide_once decide
turn-IsFresh ms p signal w calm same_ms same_signal at h = record {
  p = p;
  awaited = h;
  same_ms = same_ms;
  same_signal = same_signal;
  undecided =
      ap
        (λ a.
          debouncing a (sleep_or_aborted w.debounce_ms w.signal)
            (decide ((next w.watch).promises a) (sleep_or_aborted w.debounce_ms w.signal).slept))
        at
      ∙ rw (same_ms, same_signal) (fresh_race (h.unsettled p (let e : p ≤ p = omega arith in e)));
}
  where
    fresh_race :
        {o : Option Bool}
        → o ≡ none
        → debouncing p (sleep_or_aborted ms signal) (decide o (sleep_or_aborted ms signal).slept)
          ≡ debouncing p (sleep_or_aborted ms signal) none
    fresh_race e = rw (e, calm-slept ms signal calm) refl

module _ (ms : ℕ) (signal : Signal) (calm : IsCalm signal) where
  -- A change wins the race, and the next turn waits for the whole interval again.
  change-step :
      (w : Waiting) (f : IsFresh ms signal w)
      → step (step w changes) resumes
        ≡ next_turn (record w {
          watch = signal_change w.watch;
          stage = debouncing f.p (sleep_or_aborted ms signal) (some (change true));
        })
  unfolding step observe observe_stage decide_once resume_stage after_race
  change-step w f = rw (f.undecided, change-settles f.p w.watch f.awaited, decide) refl

  change-IsFresh :
      (w : Waiting) → IsFresh ms signal w → IsFresh ms signal (step (step w changes) resumes)
  change-IsFresh w f = rw (change-step w f) (
      turn-IsFresh ms (suc f.p) signal _ calm f.same_ms f.same_signal
        (change-asked f.p w.watch f.awaited) (change-IsAwaited f.p w.watch f.awaited))

  first-step :
      0 < ms
      → step (step (wait_for_restart ms signal) changes) resumes
        ≡ next_turn (record (wait_for_restart ms signal) { watch = signal_change (next new_watch) })
  unfolding step observe observe_stage resume_stage wait_for_restart after_first
  first-step some_ms =
      rw (change-settles 0 (next new_watch) new-IsAwaited, after_first, lt→ltb 0 ms some_ms) refl

  first-IsFresh :
      0 < ms → IsFresh ms signal (step (step (wait_for_restart ms signal) changes) resumes)
  unfolding wait_for_restart
  first-IsFresh some_ms = rw (first-step some_ms) (
      turn-IsFresh ms 1 signal _ calm refl refl (change-asked 0 (next new_watch) new-IsAwaited)
        (change-IsAwaited 0 (next new_watch) new-IsAwaited))

  calm-elapsed : (on_timer (sleep_or_aborted ms signal)).slept ≡ some true
  unfolding on_timer sleep_or_aborted
  calm-elapsed = elim calm [ inl e ↦ rw e refl | inr e ↦ rw e refl ]

  quiet-step :
      (w : Waiting) → IsFresh ms signal w → (step (step w elapses) resumes).stage ≡ acquiring
  unfolding step observe observe_stage on_sleep decide_once resume_stage after_race
  quiet-step w f =
      rw
        (
          f.undecided,
          f.awaited.unsettled f.p (let e : f.p ≤ f.p = omega arith in e),
          calm-elapsed,
          decide,
        )
        refl

-- Changes, each of which the call has seen before the next.
abbrev pub burst : ℕ → List Event
burst zero = []
burst (suc n) = changes ∷ resumes ∷ burst n

burst-IsFresh :
    (ms : ℕ) (signal : Signal) (w : Waiting) (n : ℕ)
    → IsCalm signal
    → IsFresh ms signal w
    → IsFresh ms signal (run w (burst n))
unfolding run
burst-IsFresh ms signal w zero calm f = f
burst-IsFresh ms signal w (suc n) calm f =
    burst-IsFresh ms signal (step (step w changes) resumes) n calm
      (change-IsFresh ms signal calm w f)

-- With a debounce interval, and unless the signal fires, any number of changes (at least one), each
-- of which the call has seen before the next, leaves the call waiting for the whole interval again;
-- when that runs out without another change, the call goes on to acquire the lock.
pub burst-debounced :
    (ms : ℕ) (signal : Signal) (n : ℕ)
    → (signal ≡ no_abort) ⊎ (signal ≡ live)
    → 0 < ms
    → let w = run (wait_for_restart ms signal) (burst (suc n)) in
      ((p : ℕ) × (w.stage ≡ debouncing p (sleep_or_aborted ms signal) none))
      × ((run w (elapses ∷ resumes ∷ [])).stage ≡ acquiring)
unfolding run
burst-debounced ms signal n calm some_ms =
    let f =
      burst-IsFresh ms signal (step (step (wait_for_restart ms signal) changes) resumes) n calm
        (first-IsFresh ms signal calm some_ms) in
    ((f.p, f.undecided), quiet-step ms signal calm _ f)

abort-step :
    (ms : ℕ) (reason : JsValue) (w : Waiting)
    → IsFresh ms live w
    → (step (step w (aborts reason)) resumes).stage ≡ failed (aborted_wait (aborted reason))
unfolding step observe observe_stage abort_sleep on_sleep decide_once resume_stage after_race fail
    sleep_or_aborted on_sleep_abort
abort-step ms reason w f =
    rw
      (
        f.same_signal,
        f.undecided,
        f.awaited.unsettled f.p (let e : f.p ≤ f.p = omega arith in e),
        decide,
      )
      refl

-- If the signal fires while the call waits for the interval, behind changes that it has seen, the call
-- throws the error that names the signal's reason.
pub burst-aborted :
    (ms n : ℕ) (reason : JsValue)
    → 0 < ms
    → (run (run (wait_for_restart ms live) (burst (suc n))) (aborts reason ∷ resumes ∷ [])).stage
      ≡ failed (aborted_wait (aborted reason))
unfolding run
burst-aborted ms n reason some_ms =
    let f =
      burst-IsFresh ms live (step (step (wait_for_restart ms live) changes) resumes) n (inr refl)
        (first-IsFresh ms live (inr refl) some_ms) in
    abort-step ms reason _ f
