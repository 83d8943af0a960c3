-- ===== src/WatchLoop/Failures.antt =====
-- The failures since the last response, and the delay that they make.
use native.Mathlib.Nat.{pow-suc}
use signet_clients.Prelude.{
  ℕ, suc, ◌*◌, ◌^◌, ◌≤◌, ◌≡◌, refl, sym, ap, ◌∙◌, min, List, [], ◌∷◌, Bool, true, false, Option,
  none, some, arith,
}
use signet_clients.Runtime.{Outcome, resolved, rejected, Signal, no_abort, live, aborted}
use signet_clients.WatchLoop.{
  EventType, Options, backoff_min, backoff_max, next_backoff, sleep_or_aborted, Await, opening,
  receiving, sleeping, finished, Loop, Event, opens, receives, elapses, aborts, resumes, asks, step,
}

-- The failures since the last response, as the loop goes on from an await: a sleep that ran out
-- is one more, a response resets the count.
abbrev pub count_open : ℕ → Option (Outcome EventType) → ℕ
count_open f (some (resolved event)) = 0
count_open f (some (rejected e)) = f
count_open f none = f

abbrev pub count_sleep : ℕ → Option Bool → ℕ
count_sleep f (some true) = suc f
count_sleep f (some false) = f
count_sleep f none = f

abbrev pub count_resume : ℕ → Await → ℕ
count_resume f (opening r) = f
count_resume f (receiving r) = count_open f r.result
count_resume f (sleeping s) = count_sleep f s.slept
count_resume f finished = f

abbrev pub count_step : ℕ → Loop → Event → ℕ
count_step f l resumes = count_resume f l.await
count_step f l (opens o) = f
count_step f l (receives o) = f
count_step f l elapses = f
count_step f l (aborts reason) = f
count_step f l asks = f

-- The failures counted over a run.
abbrev pub failures : ℕ → Loop → List Event → ℕ
failures f l [] = f
failures f l (ev ∷ evs) = failures (count_step f l ev) (step l ev) evs

-- The formula: doubled with each failure, and capped.
abbrev pub delay : Options → ℕ → ℕ
delay o f = min (backoff_min o * 2 ^ f) (backoff_max o)

abbrev pub Lasts : Await → ℕ → Type 0
Lasts (sleeping s) ms = s.ms ≡ ms
Lasts (opening r) ms = Unit {0}
Lasts (receiving r) ms = Unit {0}
Lasts finished ms = Unit {0}

pub record IsPaced (o : Options) (f : ℕ) (l : Loop) : Type 0 where
  pub same_options : l.options ≡ o
  pub paced : l.backoff ≡ delay o f
  pub slept_for : Lasts l.await l.backoff

min_once : (m most : ℕ) → m ≤ most → m ≡ min (m * 2 ^ 0) most
min_once m most h = omega arith

min_twice : (m p most : ℕ) → min (min (m * p) most * 2) most ≡ min (m * (p * 2)) most
min_twice m p most = omega arith

pub delay-zero : (o : Options) → backoff_min o ≤ backoff_max o → backoff_min o ≡ delay o 0
delay-zero o h = min_once (backoff_min o) (backoff_max o) h

pub delay-suc : (o : Options) (f : ℕ) → next_backoff (delay o f) (backoff_max o) ≡ delay o (suc f)
unfolding next_backoff
delay-suc o f =
    min_twice (backoff_min o) (2 ^ f) (backoff_max o)
    ∙ ap (λ p. min (backoff_min o * p) (backoff_max o)) (sym (pow-suc 2 f))

pub sleep_or_aborted-ms : (ms : ℕ) (signal : Signal) → (sleep_or_aborted ms signal).ms ≡ ms
unfolding sleep_or_aborted
sleep_or_aborted-ms ms no_abort = refl
sleep_or_aborted-ms ms live = refl
sleep_or_aborted-ms ms (aborted reason) = refl
