-- ===== src/WaitForRestart/Tests.antt =====
-- Three changes in a row, a quiet interval, and an abort.
use signet_clients.Prelude.{ℕ, ◌≡◌, refl, inr, none, [], ◌∷◌, arith}
use signet_clients.Runtime.{codes, JsValue, other, NonError, live, aborted}
use signet_clients.WatchLoop.{sleep_or_aborted}
use signet_clients.WaitForRestart.{
  debouncing, acquiring, failed, changes, elapses, resumes, aborts, run, wait_for_restart,
  aborted_wait,
}
use signet_clients.WaitForRestart.Debounce.{burst, burst-debounced, burst-aborted}
use signet_clients.WaitForRestart.Reasons.{HasReason, run-HasReason}

burst-debounced_example :
    let w = run (wait_for_restart 500 live) (burst 3) in
    ((p : ℕ) × (w.stage ≡ debouncing p (sleep_or_aborted 500 live) none))
    × ((run w (elapses ∷ resumes ∷ [])).stage ≡ acquiring)
burst-debounced_example = burst-debounced 500 live 2 (inr refl) (omega arith)

abbrev shutdown : JsValue
shutdown = other (NonError.string (codes "shutdown"))

burst-aborted_run :
    (run (run (wait_for_restart 500 live) (burst 3)) (aborts shutdown ∷ resumes ∷ [])).stage
    ≡ failed (aborted_wait (aborted shutdown))
burst-aborted_run = burst-aborted 500 2 shutdown (omega arith)

-- The signal fires while the quiet interval is awaited.
run-HasReason_example :
    let w = run (wait_for_restart 500 live) (changes ∷ resumes ∷ aborts shutdown ∷ resumes ∷ []) in
    HasReason 500 (changes ∷ resumes ∷ aborts shutdown ∷ resumes ∷ []) w w.stage
run-HasReason_example = run-HasReason 500 live (changes ∷ resumes ∷ aborts shutdown ∷ resumes ∷ [])
