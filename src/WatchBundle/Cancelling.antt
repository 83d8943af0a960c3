-- ===== src/WatchBundle/Cancelling.antt =====
-- The signal cancels the stream of a dial.
use signet_clients.Prelude.{◌≡◌, refl, List, [], ◌∷◌, if◌then◌else◌}
use signet_clients.Runtime.{JsValue, Signal, no_abort, live, aborted, is_aborted}
use signet_clients.WatchBundle.{Dialled, tie_signal, on_signal, run_aborts}

module _ {T : Type 0} where
  -- Once the signal has fired, or if there is none, aborting changes nothing.
  aborted-stays :
      (reason : JsValue) (d : Dialled T) (reasons : List JsValue)
      → run_aborts (aborted reason, d) reasons ≡ (aborted reason, d)
  unfolding run_aborts
  aborted-stays reason d [] = refl
  aborted-stays reason d (r ∷ reasons) = aborted-stays reason d reasons

  unsignalled-stays :
      (d : Dialled T) (reasons : List JsValue) → run_aborts (no_abort, d) reasons ≡ (no_abort, d)
  unfolding run_aborts
  unsignalled-stays d [] = refl
  unsignalled-stays d (r ∷ reasons) = unsignalled-stays d reasons

-- However often the signal's controller aborts, and whether it did so before the dial or after it,
-- the stream is cancelled once if the signal has fired, and otherwise never.
pub run_aborts-cancels :
    (T : Type 0) (signal : Signal) (reasons : List JsValue)
    → let r = run_aborts {T = T} (signal, tie_signal signal) reasons in
      r.1.cancels ≡ (if is_aborted r.0 then 1 else 0)
unfolding tie_signal
run_aborts-cancels T no_abort reasons =
    rw (unsignalled-stays (tie_signal {T = T} no_abort) reasons) refl
run_aborts-cancels T (aborted first) reasons =
    rw (aborted-stays first (tie_signal {T = T} (aborted first)) reasons) refl
run_aborts-cancels T live [] = unfold run_aborts in refl
run_aborts-cancels T live (reason ∷ reasons) =
    unfold run_aborts on_signal in
    rw (aborted-stays reason (on_signal (tie_signal {T = T} live)) reasons) refl
