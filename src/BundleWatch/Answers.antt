-- ===== src/BundleWatch/Answers.antt =====
-- What a watch's answers say of it, and keep saying.
use signet_clients.Prelude.{
  ℕ, ◌==◌, ◌||◌, ◌≡◌, refl, Bool, true, false, Option, none, some, List, [], ◌∷◌, if_cases,
}
use signet_clients.Runtime.{settle, settle_all, or_else, Promises}
use signet_clients.BundleWatch.{BundleWatch, wake, signal_change, close, answer_now, next}

settle-stays :
    (p i : ℕ) (v w : Bool) (ps : Promises Bool) → ps i ≡ some w → settle p v ps i ≡ some w
unfolding settle
settle-stays p i v w ps h = rw h (if_cases (λ x. x ≡ some w) (i == p) (λ _. refl) (λ _. refl))

settle_all-stays :
    (is : List ℕ) (i : ℕ) (v w : Bool) (ps : Promises Bool)
    → ps i ≡ some w
    → settle_all is v ps i ≡ some w
unfolding settle_all
settle_all-stays [] i v w ps h = h
settle_all-stays (p ∷ is) i v w ps h =
    settle_all-stays is i v w (settle p v ps) (settle-stays p i v w ps h)

or_else-false : (o : Option Bool) → or_else o true ≡ some false → o ≡ some false
or_else-false (some b) h = h
or_else-false none h = absurd (cc)

settle-false : (p i : ℕ) (ps : Promises Bool) → settle p true ps i ≡ some false → ps i ≡ some false
unfolding settle
settle-false p i ps =
    if_cases (λ x. x ≡ some false → ps i ≡ some false) (i == p) (λ _. or_else-false (ps i))
      (λ _ h. h)

-- Only a closed watch answers false; a promise that has settled stays so, and so does the closing.
abbrev pub IsHonest : BundleWatch → Type 0
IsHonest b = (i : ℕ) → b.promises i ≡ some false → b.closed ≡ true

pub record Follows (b b' : BundleWatch) : Type 0 where
  pub honest : IsHonest b → IsHonest b'
  pub stays : b.promises 0 ≡ some true → b'.promises 0 ≡ some true
  pub shut : b.closed ≡ true → b'.closed ≡ true

pub same-Follows : (b : BundleWatch) → Follows b b
same-Follows b = record { honest = λ h. h; stays = λ h. h; shut = λ h. h }

pub signal_change-Follows : (b : BundleWatch) → Follows b (signal_change b)
unfolding signal_change
signal_change-Follows b =
    if_cases (Follows b) (b.closed || b.pending) (λ _. same-Follows b) (λ _. woken b.waiters)
  where
    woken : (ws : List ℕ) → Follows b (wake b ws)
    woken [] = record { honest = λ h. h; stays = λ h. h; shut = λ h. h }
    woken (w ∷ ws) = record {
      honest = λ h i e. h i (settle-false w i b.promises e);
      stays = settle-stays w 0 true true b.promises;
      shut = λ h. h;
    }

pub close-Follows : (b : BundleWatch) → Follows b (close b)
unfolding close
close-Follows b =
    if_cases (Follows b) b.closed (λ _. same-Follows b)
      (λ _. record {
        honest = λ h i e. refl;
        stays = settle_all-stays b.waiters 0 false true b.promises;
        shut = λ h. refl;
      })

pub next-Follows : (b : BundleWatch) → Follows b (next b)
unfolding next answer_now
next-Follows b =
    if_cases (Follows b) b.pending
      (λ _. record {
        honest = λ h i e. h i (settle-false b.asked i b.promises e);
        stays = settle-stays b.asked 0 true true b.promises;
        shut = λ h. h;
      })
      (λ _.
        if_cases (Follows b) b.closed
          (λ shut. record {
            honest = λ h i e. shut;
            stays = settle-stays b.asked 0 false true b.promises;
            shut = λ h. h;
          })
          (λ _. record { honest = λ h. h; stays = λ h. h; shut = λ h. h }))
