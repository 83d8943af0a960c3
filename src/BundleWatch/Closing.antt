-- ===== src/BundleWatch/Closing.antt =====
-- Which calls close a BundleWatch.
use signet_clients.Prelude.{◌≡◌, refl, List, [], ◌∷◌, true, ◌||◌, if_cases}
use signet_clients.BundleWatch.{BundleWatch, wake, signal_change, close, answer_now, next}

pub close-closed : (b : BundleWatch) → (close b).closed ≡ true
unfolding close
close-closed b = if_cases (λ (c : BundleWatch). c.closed ≡ true) b.closed (λ shut. shut) (λ _. refl)

wake-closed : (b : BundleWatch) (ws : List _) → (wake b ws).closed ≡ b.closed
unfolding wake
wake-closed b [] = refl
wake-closed b (w ∷ ws) = refl

pub signal_change-closed : (b : BundleWatch) → (signal_change b).closed ≡ b.closed
unfolding signal_change
signal_change-closed b =
    if_cases (λ (c : BundleWatch). c.closed ≡ b.closed) (b.closed || b.pending) (λ _. refl)
      (λ _. wake-closed b b.waiters)

pub next-closed : (b : BundleWatch) → (next b).closed ≡ b.closed
unfolding next answer_now
next-closed b =
    if_cases (λ (c : BundleWatch). c.closed ≡ b.closed) b.pending (λ _. refl)
      (λ _. if_cases (λ (c : BundleWatch). c.closed ≡ b.closed) b.closed (λ _. refl) (λ _. refl))
