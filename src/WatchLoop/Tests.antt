-- ===== src/WatchLoop/Tests.antt =====
-- Runs of the watch loop: failed dials, a response, and an abort.
use signet_clients.Prelude.{◌≡◌, refl, List, [], ◌∷◌, true, none, arith}
use signet_clients.Runtime.{codes, JsValue, other, string, resolved, rejected, live, is_aborted}
use signet_clients.Errors.{race_abort, on_abort, on_settle, is_abort_race}
use signet_clients.BundleWatch.{new_watch}
use signet_clients.WatchLoop.{
  Options, run_watch_loop, Event, opens, elapses, aborts, resumes, step, run, abort, resume,
  on_timer, sleep_or_aborted, next_backoff,
}
use signet_clients.WatchLoop.Backoff.{run-backoff}
use signet_clients.WatchLoop.Failures.{delay, failures, Lasts}
use signet_clients.WatchLoop.Shutdown.{is_finished, run-closed}
use signet_clients.WatchLoop.Cancellation.{abort-stops}
use signet_clients.WatchLoop.Persistence.{finished-aborted}

abbrev defaults : Options
defaults = record { backoff_min_ms = none; backoff_max_ms = none }

abbrev down : JsValue
down = other (string (codes "down"))

-- Two dials fail, the third stream answers and breaks.
abbrev flaky : List Event
flaky =
    opens (rejected down)
    ∷ resumes
    ∷ elapses
    ∷ resumes
    ∷ opens (rejected down)
    ∷ resumes
    ∷ elapses
    ∷ resumes
    ∷ []

flaky_backoff : (run (run_watch_loop defaults live new_watch) flaky).backoff ≡ 4000
unfolding run_watch_loop run step next_backoff on_settle race_abort is_abort_race on_timer
    sleep_or_aborted
flaky_backoff = refl

run-backoff_example :
    let l = run (run_watch_loop defaults live new_watch) flaky in
    let ms = delay defaults (failures 0 (run_watch_loop defaults live new_watch) flaky) in
    (l.backoff ≡ ms) × Lasts l.await ms
run-backoff_example = run-backoff defaults live new_watch flaky (omega arith)

run-closed_example :
    let l = run (run_watch_loop defaults live new_watch) flaky in
    is_finished l.await ≡ l.watch.closed
unfolding new_watch
run-closed_example = run-closed defaults live new_watch flaky refl

abort-stops_example :
    let l = abort (run (run_watch_loop defaults live new_watch) flaky) down in
    is_finished (resume (resume l)).await ≡ true
abort-stops_example = abort-stops defaults live new_watch flaky down refl

abbrev cancelled : List Event
cancelled = opens (resolved tt) ∷ resumes ∷ aborts down ∷ resumes ∷ []

finished-aborted_example :
    is_aborted (run (run_watch_loop defaults live new_watch) cancelled).signal ≡ true
unfolding run_watch_loop run step race_abort on_abort on_settle is_abort_race
finished-aborted_example =
    finished-aborted defaults live new_watch cancelled (tt, (tt, (tt, (tt, tt)))) refl
