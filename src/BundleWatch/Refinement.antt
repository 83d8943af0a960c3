-- ===== src/BundleWatch/Refinement.antt =====
-- Every call keeps a watch in step with its history.
use signet_clients.Prelude.{
  ℕ, suc, ◌+◌, ◌-◌, ◌≤◌, ◌<◌, ◌≡◌, refl, sym, ap, ap₂, ◌∙◌, inl, inr, List, [], ◌∷◌, ◌++◌, Bool,
  true, false, ◌||◌, none, some, ◌==◌, ==_iff, Bool-cases, arith, range_from, range_from-snoc,
  range_from-nil, range_from-cons, ltb→lt, ltb-false, if_both, if_cases,
}
use signet_clients.Runtime.{settle, settle_all, settle-at, settle-other, settle_all-range}
use signet_clients.BundleWatch.{
  BundleWatch, wake, signal_change, close, answer_now, next, signals, closes, asks,
}
use signet_clients.BundleWatch.Changes.{Changes, observe, reply, unanswered, Refines}

module _ (b : BundleWatch) (s : Changes) (r : Refines b s) where
  waiters_open : s.stopped ≡ false → b.waiters ≡ range_from s.granted (s.requests - s.granted)
  waiters_open e = r.waiting ∙ ap (unanswered s) e

  waiters_closed : s.stopped ≡ true → b.waiters ≡ []
  waiters_closed e = r.waiting ∙ ap (unanswered s) e

  abbrev one_granted : Changes
  one_granted = record s { granted = suc s.granted }

  waiters_granted :
      s.stopped ≡ false
      → unanswered one_granted s.stopped ≡ range_from (suc s.granted) (s.requests - suc s.granted)
  waiters_granted e = ap (unanswered one_granted) e

  keep-Refines :
      b.waiters ≡ [] → s.stopped ≡ false → s.granted ≤ s.requests → Refines (wake b []) one_granted
  unfolding wake
  keep-Refines no_one e up =
      let caught_up : s.requests ≤ s.granted =
        omega (arith, range_from-nil _ _ (sym (waiters_open e) ∙ no_one)) in
      let none_left : s.requests - suc s.granted ≡ 0 = omega arith in
      record {
        at_most_one = omega arith;
        same_requests = r.same_requests;
        same_end = r.same_end;
        kept = ground arith;
        waiting = no_one ∙ sym (waiters_granted e ∙ ap (range_from (suc s.granted)) none_left);
        replies = λ i. ground (arith, r.replies i);
      }

  wake_reply :
      (w : ℕ)
      → w ≡ s.granted
      → s.granted < s.requests
      → s.stopped ≡ false
      → (i : ℕ) → settle w true b.promises i ≡ reply one_granted i
  wake_reply w first behind e i =
      let pending : b.promises w ≡ none = ground (arith, r.replies w) in
      elim (Bool-cases (i == w)) [
        | inl same ↦ rw ((==_iff i w).0 same) (settle-at w true b.promises pending ∙ ground arith)
        | inr other ↦ settle-other w i true b.promises (ground arith) ∙ r.replies i ∙ ground arith
      ]

  wake_first-Refines :
      (w : ℕ) (ws : List ℕ)
      → b.waiters ≡ w ∷ ws
      → s.stopped ≡ false
      → Refines (wake b (w ∷ ws)) one_granted
  unfolding wake
  wake_first-Refines w ws some_one e =
      let (first, behind, rest) = range_from-cons _ _ w ws (sym (waiters_open e) ∙ some_one) in
      let one_less : s.requests - suc s.granted ≡ s.requests - s.granted - 1 = omega arith in
      record {
        at_most_one = omega arith;
        same_requests = r.same_requests;
        same_end = r.same_end;
        kept = r.kept ∙ ground arith;
        waiting = rest ∙ sym (waiters_granted e ∙ ap (range_from (suc s.granted)) one_less);
        replies = wake_reply w first (omega arith) e;
      }

  wake-Refines :
      (ws : List ℕ)
      → b.waiters ≡ ws
      → s.stopped ≡ false
      → s.granted ≤ s.requests
      → Refines (wake b ws) one_granted
  wake-Refines [] h e up = keep-Refines h e up
  wake-Refines (w ∷ ws) h e up = wake_first-Refines w ws h e

  pub signal_change-Refines : Refines (signal_change b) (observe s signals)
  unfolding signal_change
  signal_change-Refines =
      if_both Refines (b.closed || b.pending) _ (ap₂ ◌||◌ r.same_end r.kept) (λ _. r)
        (λ counted.
          wake-Refines b.waiters refl (ground (arith, r.same_end)) (ground (arith, r.kept)))

  shut_reply :
      s.stopped ≡ false
      → (i : ℕ) → settle_all b.waiters false b.promises i ≡ reply (record s { stopped = true }) i
  shut_reply e i = rw (waiters_open e) (
      settle_all-range s.granted (s.requests - s.granted) false b.promises i
        (λ j above below. ground (arith, r.replies j))
      ∙ ground (arith, r.replies i))

  pub close-Refines : Refines (close b) (observe s closes)
  unfolding close
  close-Refines =
      if_cases (λ c. Refines c (observe s closes)) b.closed
        (λ shut. record {
          at_most_one = r.at_most_one;
          same_requests = r.same_requests;
          same_end = shut;
          kept = r.kept;
          waiting = waiters_closed (sym r.same_end ∙ shut);
          replies = λ i. ground (arith, r.replies i, r.same_end);
        })
        (λ still. record {
          at_most_one = r.at_most_one;
          same_requests = r.same_requests;
          same_end = refl;
          kept = r.kept;
          waiting = refl;
          replies = shut_reply (sym r.same_end ∙ still);
        })

  abbrev one_more : Changes
  one_more = record s { requests = suc s.requests }

  answer_reply :
      (v : Bool)
      → reply one_more s.requests ≡ some v
      → (i : ℕ) → settle b.asked v b.promises i ≡ reply one_more i
  answer_reply v h i =
      let pending : b.promises b.asked ≡ none =
        r.replies b.asked ∙ ground (arith, r.same_requests) in
      elim (Bool-cases (i == b.asked)) [
        | inl same ↦
            rw ((==_iff i b.asked).0 same) (
              settle-at b.asked v b.promises pending
              ∙ sym (ap (reply one_more) r.same_requests ∙ h))
        | inr other ↦
            settle-other b.asked i v b.promises (ground arith)
            ∙ ground (arith, r.replies i, r.same_requests)
      ]

  queue_up :
      s.stopped ≡ false
      → s.granted ≤ s.requests
      → b.waiters ++ b.asked ∷ [] ≡ unanswered one_more s.stopped
  queue_up e caught_up =
      let behind = s.requests - s.granted in
      let last : b.asked ≡ s.granted + behind = omega (arith, r.same_requests) in
      let longer : suc s.requests - s.granted ≡ suc behind = omega arith in
      ap₂ (λ ws w. ws ++ w ∷ []) (waiters_open e) last
      ∙ sym (range_from-snoc s.granted behind)
      ∙ sym (ap (unanswered one_more) e ∙ ap (range_from s.granted) longer)

  nobody : (end : Bool) → s.requests < s.granted → unanswered s end ≡ unanswered one_more end
  nobody true behind = refl
  nobody false behind =
      let before : s.requests - s.granted ≡ 0 = omega arith in
      let after : suc s.requests - s.granted ≡ 0 = omega arith in
      ap (range_from s.granted) (before ∙ sym after)

  -- A kept change answers the request.
  next_kept-Refines :
      b.pending ≡ true → Refines (answer_now (record b { pending = false }) true) one_more
  unfolding answer_now
  next_kept-Refines here =
      let behind : s.requests < s.granted = ltb→lt _ _ (sym r.kept ∙ here) in
      record {
        at_most_one = omega (arith, r.at_most_one);
        same_requests = ap suc r.same_requests;
        same_end = r.same_end;
        kept = sym (ltb-false _ _ (omega arith));
        waiting = r.waiting ∙ nobody s.stopped behind;
        replies = answer_reply true (ground arith);
      }

  next_closed-Refines : b.pending ≡ false → b.closed ≡ true → Refines (answer_now b false) one_more
  unfolding answer_now
  next_closed-Refines none_here shut =
      let stop : s.stopped ≡ true = sym r.same_end ∙ shut in
      let caught_up : s.granted ≤ s.requests = ground (arith, r.kept) in
      record {
        at_most_one = omega arith;
        same_requests = ap suc r.same_requests;
        same_end = r.same_end;
        kept = r.kept ∙ ground arith;
        waiting = waiters_closed stop ∙ sym (ap (unanswered one_more) stop);
        replies = answer_reply false (ground arith);
      }

  next_waits-Refines :
      b.pending ≡ false
      → b.closed ≡ false
      → Refines (record b { asked = suc b.asked; waiters = b.waiters ++ b.asked ∷ [] }) one_more
  next_waits-Refines none_here still =
      let going : s.stopped ≡ false = sym r.same_end ∙ still in
      let caught_up : s.granted ≤ s.requests = ground (arith, r.kept) in
      record {
        at_most_one = omega arith;
        same_requests = ap suc r.same_requests;
        same_end = r.same_end;
        kept = r.kept ∙ ground arith;
        waiting = queue_up going caught_up;
        replies = λ i. ground (arith, r.replies i);
      }

  pub next-Refines : Refines (next b) (observe s asks)
  unfolding next
  next-Refines =
      if_cases (λ c. Refines c one_more) b.pending next_kept-Refines
        (λ none_here.
          if_cases (λ c. Refines c one_more) b.closed (next_closed-Refines none_here)
            (next_waits-Refines none_here))
