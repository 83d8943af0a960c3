-- ===== src/BundleWatch/Wakeups.antt =====
-- What a consumer of a BundleWatch can rely on, after any sequence of calls.
use signet_clients.Prelude.{
  ◌||◌, ℕ, suc, ◌+◌, ◌-◌, ◌≤◌, ◌<◌, ◌≡◌, refl, sym, ap, ◌∙◌, inl, inr, List, [], ◌∷◌, Bool, true,
  false, some, ltb, Bool-cases, arith, range_from, range_from-nil, range_from-cons, if_cases,
}
use signet_clients.BundleWatch.{
  BundleWatch, new_watch, signal_change, close, next, Call, signals, closes, asks, step, run,
}
use signet_clients.BundleWatch.Changes.{
  Changes, observe, history, start, reply, unanswered, Refines,
}
use signet_clients.BundleWatch.Refinement.{signal_change-Refines, close-Refines, next-Refines}

step-Refines :
    (b : BundleWatch) (s : Changes) (c : Call) → Refines b s → Refines (step b c) (observe s c)
unfolding step
step-Refines b s signals r = signal_change-Refines b s r
step-Refines b s closes r = close-Refines b s r
step-Refines b s asks r = next-Refines b s r

run-Refines :
    (b : BundleWatch) (s : Changes) (cs : List Call)
    → Refines b s
    → Refines (run b cs) (history s cs)
unfolding run
run-Refines b s [] r = r
run-Refines b s (c ∷ cs) r = run-Refines (step b c) (observe s c) cs (step-Refines b s c r)

new_watch-Refines : Refines new_watch start
unfolding new_watch
new_watch-Refines = record {
  at_most_one = omega arith;
  same_requests = refl;
  same_end = refl;
  kept = ground arith;
  waiting = refl;
  replies = λ i. ground arith;
}

-- After any calls on a new watch, in any order: the first requests, as many as there were changes
-- that did not coalesce, have been answered true, all others false once the watch is closed, and
-- none before.
pub run-answers :
    (cs : List Call) (i : ℕ) → (run new_watch cs).promises i ≡ reply (history start cs) i
run-answers cs = (run-Refines new_watch start cs new_watch-Refines).replies

follows : (cs : List Call) → Refines (run new_watch cs) (history start cs)
follows cs = run-Refines new_watch start cs new_watch-Refines

module _ (b : BundleWatch) (s : Changes) (r : Refines b s) (still : b.closed ≡ false) where
  open_waiters : b.waiters ≡ range_from s.granted (s.requests - s.granted)
  open_waiters = r.waiting ∙ ap (unanswered s) (sym r.same_end ∙ still)

  woken : (i : ℕ) (ws : List ℕ) → b.waiters ≡ i ∷ ws → (signal_change b).promises i ≡ some true
  woken i ws some_one =
      let (first, behind, _) = range_from-cons _ _ i ws (sym open_waiters ∙ some_one) in
      (signal_change-Refines b s r).replies i ∙ ground (arith, first, behind, r.same_end)

  remembered : b.waiters ≡ [] → (next (signal_change b)).promises b.asked ≡ some true
  remembered no_one =
      let caught_up : s.requests ≤ s.granted =
        omega (arith, range_from-nil _ _ (sym open_waiters ∙ no_one)) in
      (next-Refines _ _ (signal_change-Refines b s r)).replies b.asked
      ∙ ground (arith, r.same_end, r.same_requests, caught_up)

-- After any calls that leave the watch open, a change answers the longest waiter true.
pub signal_change-wakes_waiter :
    (cs : List Call) (i : ℕ) (ws : List ℕ)
    → (run new_watch cs).closed ≡ false
    → (run new_watch cs).waiters ≡ i ∷ ws
    → (signal_change (run new_watch cs)).promises i ≡ some true
signal_change-wakes_waiter cs i ws still some_one = woken _ _ (follows cs) still i ws some_one

-- After any calls that leave the watch open and nobody waiting, a change is kept: the request that
-- follows it is answered true at once.
pub signal_change-kept :
    (cs : List Call)
    → (run new_watch cs).closed ≡ false
    → (run new_watch cs).waiters ≡ []
    → (next (signal_change (run new_watch cs))).promises (run new_watch cs).asked ≡ some true
signal_change-kept cs still no_one = remembered _ _ (follows cs) still no_one

abbrev pub signals_in : List Call → ℕ
signals_in [] = 0
signals_in (signals ∷ cs) = suc (signals_in cs)
signals_in (closes ∷ cs) = signals_in cs
signals_in (asks ∷ cs) = signals_in cs

granted-le : (s : Changes) (cs : List Call) → (history s cs).granted ≤ s.granted + signals_in cs
granted-le s [] = omega arith
granted-le s (signals ∷ cs) =
    if_cases (λ t. (history t cs).granted ≤ s.granted + suc (signals_in cs))
      (s.stopped || ltb s.requests s.granted) {x = s} {y = record s { granted = suc s.granted }}
      (λ _. omega (arith, granted-le s cs))
      (λ _. omega (arith, granted-le (record s { granted = suc s.granted }) cs))
granted-le s (closes ∷ cs) = granted-le (observe s closes) cs
granted-le s (asks ∷ cs) = granted-le (observe s asks) cs

-- There are at most as many answers true as there were changes: only the first requests, as many
-- as the changes signalled, can be answered true.
pub true-lt-signals :
    (cs : List Call) (i : ℕ) → (run new_watch cs).promises i ≡ some true → i < signals_in cs
true-lt-signals cs i h =
    let granted : i < (history start cs).granted = ground (arith, (follows cs).replies i) in
    omega (arith, granted, granted-le start cs)

-- After any calls, closing the watch leaves none of the promises that it has handed out pending.
pub close-settles :
    (cs : List Call) (i : ℕ)
    → i < (run new_watch cs).asked
    → (v : Bool) × ((close (run new_watch cs)).promises i ≡ some v)
close-settles cs i h =
    let r = follows cs in
    let closed = (close-Refines _ _ r).replies i in
    elim (Bool-cases (ltb i (history start cs).granted)) [
      | inl early ↦ (true, closed ∙ ground (arith, r.same_requests))
      | inr late ↦ (false, closed ∙ ground (arith, r.same_requests))
    ]
