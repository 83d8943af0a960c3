-- ===== src/Workload/Credentials/Authorizing.antt =====
-- typescript/src/workload.ts: whose certificates the credentials of workloadChannelCredentials
-- accept, and what they present.
use signet_clients.Prelude.{ℕ, zero, suc, ◌+◌, ◌≤◌, ◌<◌, ◌≡◌, ◌⊎◌, inl, inr, arith}
use signet_clients.Runtime.{JsValue, Outcome, resolved, rejected}
use signet_clients.Workload.{
  Retried, after_failure, after_probe, retry_from, latest, retry_until_identity_issued, slept_first,
}

module _ {T : Type 0} (probe : ℕ → Outcome T) (v : T) where
  -- One of the calls of the probe has given the value.
  abbrev GivenBetween : ℕ → ℕ → Type 0
  GivenBetween low high = (i : ℕ) × (low ≤ i) × (i < high) × (probe i ≡ resolved v)

  failed-resolved :
      (err : JsValue) (attempt : ℕ) (next : Retried T)
      → (after_failure err attempt next).outcome ≡ resolved v
      → next.outcome ≡ resolved v
  unfolding after_failure slept_first
  failed-resolved err attempt next h = ground arith

  probed-resolved :
      (o : Outcome T) (attempt : ℕ) (next : Retried T)
      → (after_probe o attempt next).outcome ≡ resolved v
      → (o ≡ resolved v) ⊎ (next.outcome ≡ resolved v)
  unfolding after_probe
  probed-resolved (resolved w) attempt next h = inl h
  probed-resolved (rejected err) attempt next h = inr (failed-resolved err attempt next h)

  retry_from-resolved :
      (left attempt : ℕ) (last_err : JsValue)
      → (retry_from probe left attempt last_err).outcome ≡ resolved v
      → GivenBetween attempt (attempt + left)
  unfolding retry_from
  retry_from-resolved zero attempt last_err h = absurd (cc)
  retry_from-resolved (suc left) attempt last_err h =
      elim (probed-resolved (probe attempt) attempt _ h) [
        | inl now ↦ (attempt, omega arith, omega arith, now)
        | inr later ↦
            let (i, above, below, given) =
              retry_from-resolved left (suc attempt) (latest last_err (probe attempt)) later in
            (i, omega arith, omega arith, given)
      ]

  -- What the retries give, one of the five calls has given.
  pub retry-resolved : (retry_until_identity_issued probe).outcome ≡ resolved v → GivenBetween 0 5
  unfolding retry_until_identity_issued
  retry-resolved h = retry_from-resolved 5 0 _ h
