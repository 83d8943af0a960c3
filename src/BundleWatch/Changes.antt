-- ===== src/BundleWatch/Changes.antt =====
-- What a BundleWatch promises, as three numbers: `granted` counts the changes that were not
-- coalesced, and the first `granted` requests are answered true.
use signet_clients.Prelude.{
  ℕ, suc, ◌-◌, ◌≤◌, ◌≡◌, List, [], ◌∷◌, Bool, true, false, ◌||◌, Option, none, some, if◌then◌else◌,
  ltb, range_from,
}
use signet_clients.BundleWatch.{BundleWatch, Call, signals, closes, asks}

pub record Changes : Type 0 where
  pub requests : ℕ
  pub granted : ℕ
  pub stopped : Bool

-- A change counts unless the watch has stopped or an earlier change still waits for a consumer.
abbrev pub observe : Changes → Call → Changes
observe s signals =
    if s.stopped || ltb s.requests s.granted then s else record s { granted = suc s.granted }
observe s closes = record s { stopped = true }
observe s asks = record s { requests = suc s.requests }

abbrev pub history : Changes → List Call → Changes
history s [] = s
history s (c ∷ cs) = history (observe s c) cs

abbrev pub start : Changes
start = record { requests = 0; granted = 0; stopped = false }

-- What request `i` has been answered by now.
abbrev pub reply : Changes → ℕ → Option Bool
reply s i =
    if ltb i s.requests
    then (if ltb i s.granted then some true else if s.stopped then some false else none)
    else none

abbrev pub unanswered : Changes → Bool → List ℕ
unanswered s true = []
unanswered s false = range_from s.granted (s.requests - s.granted)

pub record Refines (b : BundleWatch) (s : Changes) : Type 0 where
  pub at_most_one : s.granted ≤ suc s.requests
  pub same_requests : b.asked ≡ s.requests
  pub same_end : b.closed ≡ s.stopped
  pub kept : b.pending ≡ ltb s.requests s.granted
  pub waiting : b.waiters ≡ unanswered s s.stopped
  pub replies : (i : ℕ) → b.promises i ≡ reply s i
