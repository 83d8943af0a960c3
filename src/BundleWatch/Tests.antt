-- ===== src/BundleWatch/Tests.antt =====
-- Runs of a BundleWatch on short sequences of calls.
use signet_clients.Prelude.{◌≡◌, refl, List, [], ◌∷◌, Bool, true, false, some, arith}
use signet_clients.Runtime.{settle, settle_all}
use signet_clients.BundleWatch.{
  new_watch, signal_change, close, next, Call, signals, closes, asks, step, run,
}
use signet_clients.BundleWatch.Wakeups.{
  run-answers, signal_change-wakes_waiter, signal_change-kept, close-settles,
}

-- Two changes coalesce, the third is seen by a request that already waits.
abbrev burst : List Call
burst = signals ∷ signals ∷ asks ∷ asks ∷ signals ∷ asks ∷ closes ∷ []

burst_answers :
    ((run new_watch burst).promises 0 ≡ some true)
    × ((run new_watch burst).promises 1 ≡ some true)
    × ((run new_watch burst).promises 2 ≡ some false)
unfolding new_watch run step settle settle_all
burst_answers = (refl, refl, refl)

run-answers_example : (run new_watch burst).promises 2 ≡ some false
run-answers_example = run-answers burst 2

abbrev one_waiting : List Call
one_waiting = asks ∷ []

signal_change-wakes_waiter_run : (signal_change (run new_watch one_waiting)).promises 0 ≡ some true
unfolding new_watch run step
signal_change-wakes_waiter_run = signal_change-wakes_waiter one_waiting 0 [] refl refl

abbrev nobody_waiting : List Call
nobody_waiting = signals ∷ asks ∷ []

signal_change-kept_run :
    (next (signal_change (run new_watch nobody_waiting))).promises
      (run new_watch nobody_waiting).asked
    ≡ some true
unfolding new_watch run step
signal_change-kept_run = signal_change-kept nobody_waiting refl refl

close-settles_run : (v : Bool) × ((close (run new_watch one_waiting)).promises 0 ≡ some v)
unfolding new_watch run step
close-settles_run = close-settles one_waiting 0 (omega arith)
