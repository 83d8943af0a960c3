-- ===== src/WaitForRestart/Reasoned.antt =====
-- What holds at each await of waitForRestart, and how the call goes on from there.
use signet_clients.Prelude.{
  ℕ, ◌≡◌, ◌⊎◌, inl, inr, refl, Bool, true, false, Option, none, some, ltb, if_cases, ◌<◌, arith,
}
use signet_clients.Runtime.{JsValue, Signal, no_abort, live, aborted}
use signet_clients.BundleWatch.{BundleWatch, next}
use signet_clients.BundleWatch.Answers.{IsHonest, Follows, next-Follows}
use signet_clients.WatchLoop.{sleep_or_aborted}
use signet_clients.WaitForRestart.{
  Winner, change, timer, Stage, watch_first, debouncing, acquiring, failed, Waiting, decide,
  decide_once, observe_stage, observe, race_against, next_turn, fail, after_race, after_first,
  resume_stage,
}

abbrev pub HasFired : Signal → Type 0
HasFired signal = (reason : JsValue) × (signal ≡ aborted reason)

-- `T`: what the timer's running out shows.
module _ (T : Type 0) (ms : ℕ) where
  abbrev pub IsWon : BundleWatch → Signal → Option Winner → Type 0
  IsWon b signal won =
      (won ≡ some (timer false) → HasFired signal)
      × (won ≡ some (timer true) → T)
      × (won ≡ some (change false) → b.closed ≡ true)

  abbrev pub IsSlept : Signal → Option Bool → Type 0
  IsSlept signal slept = (slept ≡ some false → HasFired signal) × (slept ≡ some true → T)

  -- What holds at each of the call's awaits: promise number 0 is that of the first change.
  abbrev pub Reasoned : BundleWatch → Signal → Stage → Type 0
  Reasoned b signal watch_first = Unit
  Reasoned b signal (debouncing p s won) =
      (b.promises 0 ≡ some true) × IsSlept signal s.slept × IsWon b signal won
  Reasoned b signal acquiring = (b.promises 0 ≡ some true) × (0 < ms → T)
  Reasoned b signal (failed e) = HasFired signal ⊎ (b.closed ≡ true)

  pub record IsReasoned (w : Waiting) : Type 0 where
    pub honest : IsHonest w.watch
    pub same_ms : w.debounce_ms ≡ ms
    pub reasoned : Reasoned w.watch w.signal w.stage

  decide_once-IsWon :
      (b : BundleWatch) (signal : Signal) (won : Option Winner) (changed slept : Option Bool)
      → (changed ≡ some false → b.closed ≡ true)
      → IsSlept signal slept
      → IsWon b signal won
      → IsWon b signal (decide_once won changed slept)
  unfolding decide_once decide
  decide_once-IsWon b signal (some v) changed slept c s h = h
  decide_once-IsWon b signal none (some ok) slept c s h =
      (λ e. absurd (cc), λ e. absurd (cc), λ e. c (cc))
  decide_once-IsWon b signal none none (some completed) c s h =
      (λ e. s.0 (cc), λ e. s.1 (cc), λ e. absurd (cc))
  decide_once-IsWon b signal none none none c s h = h

  pub observe-IsReasoned : (w : Waiting) → IsReasoned w → IsReasoned (observe w)
  unfolding observe
  observe-IsReasoned w h = record {
    honest = h.honest;
    same_ms = h.same_ms;
    reasoned = seen w.stage h.reasoned;
  }
    where
      seen :
          (stage : Stage)
          → Reasoned w.watch w.signal stage
          → Reasoned w.watch w.signal (observe_stage w.watch stage)
      seen watch_first r = r
      seen (debouncing p s won) r = (
        r.0,
        r.1,
        decide_once-IsWon w.watch w.signal won (w.watch.promises p) s.slept (h.honest p) r.1 r.2,
      )
      seen acquiring r = r
      seen (failed e) r = r

  -- The watch and the signal go on.
  Reasoned-Follows :
      (b b' : BundleWatch) (signal signal' : Signal) (stage : Stage)
      → Follows b b'
      → (HasFired signal → HasFired signal')
      → Reasoned b signal stage
      → Reasoned b' signal' stage
  Reasoned-Follows b b' signal signal' watch_first f on r = r
  Reasoned-Follows b b' signal signal' (debouncing p s won) f on
        (first, (late, ran_out), (timed, finished, changed)) =
      (
        f.stays first,
        (λ e. on (late e), ran_out),
        (λ e. on (timed e), finished, λ e. f.shut (changed e)),
      )
  Reasoned-Follows b b' signal signal' acquiring f on (first, ran_out) = (f.stays first, ran_out)
  Reasoned-Follows b b' signal signal' (failed e) f on (inl fired) = inl (on fired)
  Reasoned-Follows b b' signal signal' (failed e) f on (inr shut) = inr (f.shut shut)

  pub watch-IsReasoned :
      (w : Waiting) (b : BundleWatch)
      → Follows w.watch b
      → IsReasoned w
      → IsReasoned (record w { watch = b })
  watch-IsReasoned w b f h = record {
    honest = f.honest h.honest;
    same_ms = h.same_ms;
    reasoned = Reasoned-Follows w.watch b w.signal w.signal w.stage f (λ x. x) h.reasoned;
  }

  sleep_or_aborted-IsSlept :
      (n : ℕ) (signal : Signal) → IsSlept signal (sleep_or_aborted n signal).slept
  unfolding sleep_or_aborted
  sleep_or_aborted-IsSlept n no_abort = (λ e. absurd (cc), λ e. absurd (cc))
  sleep_or_aborted-IsSlept n live = (λ e. absurd (cc), λ e. absurd (cc))
  sleep_or_aborted-IsSlept n (aborted reason) = (λ e. (reason, refl), λ e. absurd (cc))

  next_turn-IsReasoned :
      (w : Waiting)
      → IsHonest w.watch
      → w.debounce_ms ≡ ms
      → w.watch.promises 0 ≡ some true
      → IsReasoned (next_turn w)
  unfolding next_turn race_against
  next_turn-IsReasoned w honest same first =
      observe-IsReasoned
        (record w {
          watch = next w.watch;
          stage = debouncing w.watch.asked (sleep_or_aborted w.debounce_ms w.signal) none;
        })
        (record {
          honest = (next-Follows w.watch).honest honest;
          same_ms = same;
          reasoned = (
            (next-Follows w.watch).stays first,
            sleep_or_aborted-IsSlept w.debounce_ms w.signal,
            (λ e. absurd (cc), λ e. absurd (cc), λ e. absurd (cc)),
          );
        })

  pub resumes-IsReasoned : (w : Waiting) → IsReasoned w → IsReasoned (resume_stage w.stage w)
  unfolding resume_stage fail
  resumes-IsReasoned w h = go w.stage h.reasoned
    where
      behind_first : (o : Option Bool) → w.watch.promises 0 ≡ o → IsReasoned (after_first o w)
      behind_first none e = h
      behind_first (some false) e = record {
        honest = h.honest;
        same_ms = h.same_ms;
        reasoned = inr (h.honest 0 e);
      }
      behind_first (some true) e =
          if_cases IsReasoned (ltb 0 w.debounce_ms)
            (λ _. next_turn-IsReasoned w h.honest h.same_ms e)
            (λ zero_ms. record {
              honest = h.honest;
              same_ms = h.same_ms;
              reasoned = (e, λ some_ms. absurd (let same = h.same_ms in ground arith));
            })

      behind_race :
          (won : Option Winner)
          → w.watch.promises 0 ≡ some true
          → IsWon w.watch w.signal won
          → IsReasoned (after_race won w)
      behind_race none first r = h
      behind_race (some (timer true)) first r = record {
        honest = h.honest;
        same_ms = h.same_ms;
        reasoned = (first, λ _. r.1 refl);
      }
      behind_race (some (timer false)) first r = record {
        honest = h.honest;
        same_ms = h.same_ms;
        reasoned = inl (r.0 refl);
      }
      behind_race (some (change true)) first r = next_turn-IsReasoned w h.honest h.same_ms first
      behind_race (some (change false)) first r = record {
        honest = h.honest;
        same_ms = h.same_ms;
        reasoned = inr (r.2 refl);
      }

      go : (stage : Stage) → Reasoned w.watch w.signal stage → IsReasoned (resume_stage stage w)
      go watch_first r = behind_first (w.watch.promises 0) refl
      go (debouncing p s won) r = behind_race won r.0 r.2
      go acquiring r = h
      go (failed e) r = h
