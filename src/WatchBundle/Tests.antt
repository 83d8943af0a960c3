-- ===== src/WatchBundle/Tests.antt =====
-- A dial whose signal fires twice.
use signet_clients.Prelude.{◌≡◌, List, [], ◌∷◌, if◌then◌else◌}
use signet_clients.Runtime.{codes, JsValue, other, NonError, live, is_aborted}
use signet_clients.WatchBundle.{tie_signal, run_aborts}
use signet_clients.WatchBundle.Cancelling.{run_aborts-cancels}

abbrev twice : List JsValue
twice = other (NonError.string (codes "a")) ∷ other (NonError.string (codes "b")) ∷ []

run_aborts-cancels_run :
    let r = run_aborts {T = Unit {0}} (live, tie_signal live) twice in
    r.1.cancels ≡ (if is_aborted r.0 then 1 else 0)
run_aborts-cancels_run = run_aborts-cancels (Unit {0}) live twice
