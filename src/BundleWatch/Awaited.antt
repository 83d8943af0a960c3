-- ===== src/BundleWatch/Awaited.antt =====
-- A watch with one consumer, who awaits the latest promise.
use signet_clients.Prelude.{ℕ, suc, ◌≤◌, ◌≡◌, ◌∙◌, refl, true, false, none, some, [], ◌∷◌, arith}
use signet_clients.Runtime.{settle-at, settle-other}
use signet_clients.BundleWatch.{BundleWatch, new_watch, wake, signal_change, answer_now, next}

-- A watch whose only waiter is promise number `p`, the last one handed out.
pub record IsAwaited (p : ℕ) (b : BundleWatch) : Type 0 where
  pub idle : b.pending ≡ false
  pub going : b.closed ≡ false
  pub alone : b.waiters ≡ p ∷ []
  pub latest : b.asked ≡ suc p
  pub unsettled : (i : ℕ) → p ≤ i → b.promises i ≡ none

pub new-IsAwaited : IsAwaited 0 (next new_watch)
unfolding next answer_now new_watch
new-IsAwaited = record {
  idle = refl;
  going = refl;
  alone = refl;
  latest = refl;
  unsettled = λ i _. refl;
}

module _ (p : ℕ) (b : BundleWatch) (h : IsAwaited p b) where
  pub change-settles : (signal_change b).promises p ≡ some true
  unfolding signal_change wake
  change-settles =
      rw (h.going, h.idle, h.alone)
        (settle-at p true b.promises (h.unsettled p (let e : p ≤ p = omega arith in e)))

  pub change-asked : (signal_change b).asked ≡ suc p
  unfolding signal_change wake
  change-asked = rw (h.going, h.idle, h.alone) h.latest

  pub change-IsAwaited : IsAwaited (suc p) (next (signal_change b))
  unfolding signal_change wake next answer_now
  change-IsAwaited =
      rw (h.going, h.idle, h.alone)
        (record {
          idle = refl;
          going = refl;
          alone = rw h.latest refl;
          latest = rw h.latest refl;
          unsettled = λ i above.
              settle-other p i true b.promises (omega arith) ∙ h.unsettled i (omega arith);
        })
