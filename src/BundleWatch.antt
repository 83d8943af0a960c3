-- ===== src/BundleWatch.antt =====
-- typescript/src/restart.ts, class BundleWatch: "at least one change happened", to a consumer that
-- awaits `next`. A call of `next` returns the number of a promise.
pub mod Changes
pub mod Refinement
pub mod Closing
pub mod Wakeups
pub mod Awaited
pub mod Answers
pub mod Tests
use signet_clients.Prelude.{ℕ, suc, List, [], ◌∷◌, ◌++◌, Bool, true, false, ◌||◌, if◌then◌else◌}
use signet_clients.Runtime.{Promises, no_promises, settle, settle_all}

pub record BundleWatch : Type 0 where
  pub pending : Bool
  pub closed : Bool
  pub waiters : List ℕ
  -- How many promises `next` has handed out.
  pub asked : ℕ
  pub promises : Promises Bool

unfoldable pub new_watch : BundleWatch
new_watch = record {
  pending = false;
  closed = false;
  waiters = [];
  asked = 0;
  promises = no_promises;
}

-- `const waiter = waiters.shift(); if (waiter) waiter(true) else pending = true`.
wake : BundleWatch → List ℕ → BundleWatch
wake b [] = record b { pending = true }
wake b (w ∷ ws) = record b { waiters = ws; promises = settle w true b.promises }

pub signal_change : BundleWatch → BundleWatch
unfolding wake
signal_change b = if b.closed || b.pending then b else wake b b.waiters

pub close : BundleWatch → BundleWatch
close b =
    if b.closed
    then b
    else record b { closed = true; waiters = []; promises = settle_all b.waiters false b.promises }

-- A new promise, settled at once.
answer_now : BundleWatch → Bool → BundleWatch
answer_now b v = record b { asked = suc b.asked; promises = settle b.asked v b.promises }

-- The promise handed out is number `b.asked`.
pub next : BundleWatch → BundleWatch
unfolding answer_now
next b =
    if b.pending
    then answer_now (record b { pending = false }) true
    else if b.closed
    then answer_now b false
    else record b { asked = suc b.asked; waiters = b.waiters ++ b.asked ∷ [] }

-- What the watch loop and the consumer do.
pub data Call : Type 0 where
  signals closes asks : Call

pub step : BundleWatch → Call → BundleWatch
unfolding signal_change close next
step b signals = signal_change b
step b closes = close b
step b asks = next b

pub run : BundleWatch → List Call → BundleWatch
run b [] = b
run b (c ∷ cs) = run (step b c) cs
