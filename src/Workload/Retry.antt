-- ===== src/Workload/Retry.antt =====
-- How often the probe is called, how long the dial sleeps in between, and what it ends with.
use signet_clients.Prelude.{
  ℕ, suc, zero, ◌+◌, ◌-◌, ◌≤◌, ◌<◌, ◌≡◌, refl, sym, ap, ◌∙◌, subst, true, false, [], ◌∷◌, ◌==◌, ltb,
  drop, take, length, get_elem?, arith, Bool-cases, inl, inr,
}
use signet_clients.Runtime.{JsValue, Outcome, resolved, rejected}
use signet_clients.Workload.{
  workload_dial_backoff_ms, is_no_identity_issued_err, gave_up, slept_first, delay_ms, latest,
  after_failure, after_probe, retry_from, retry_until_identity_issued,
}

module _ {T : Type 0} where
  -- A call that fails because no identity has been issued.
  abbrev pub IsUnissued : Outcome T → Type 0
  IsUnissued (resolved v) = ⊥
  IsUnissued (rejected err) = is_no_identity_issued_err err ≡ true

  -- What ends the retries: success, or another error.
  abbrev pub IsDecisive : Outcome T → Type 0
  IsDecisive (resolved v) = Unit {0}
  IsDecisive (rejected err) = is_no_identity_issued_err err ≡ false

  -- What the dial gives when the last attempt has failed like the others.
  abbrev pub exhausted : Outcome T → Outcome T
  exhausted (resolved v) = resolved v
  exhausted (rejected err) = gave_up err

schedule-drop :
    (attempt : ℕ)
    → attempt < 4
    → drop attempt workload_dial_backoff_ms
      ≡ delay_ms (get_elem? workload_dial_backoff_ms attempt)
        ∷ drop (suc attempt) workload_dial_backoff_ms
unfolding delay_ms
schedule-drop attempt h = ground arith

schedule-last : (attempt : ℕ) → attempt < 4 → (attempt == length workload_dial_backoff_ms) ≡ false
schedule-last attempt h = ground arith

module _ {T : Type 0} (probe : ℕ → Outcome T) where
  -- One more attempt, after an unissued one that is not the last.
  retry-unissued :
      (left attempt : ℕ) (last_err : JsValue) (o : Outcome T)
      → o ≡ probe attempt
      → IsUnissued o
      → attempt < 4
      → (err : JsValue) × (retry_from probe (suc left) attempt last_err
          ≡ slept_first
              (delay_ms (get_elem? workload_dial_backoff_ms attempt))
              (retry_from probe left (suc attempt) err))
  unfolding retry_from after_probe after_failure latest
  retry-unissued left attempt last_err (resolved v) e u h = absurd u
  retry-unissued left attempt last_err (rejected err) e u h =
      (err, rw (sym e, u, schedule-last attempt h) refl)

  retry-decisive :
      (left attempt : ℕ) (last_err : JsValue) (o : Outcome T)
      → o ≡ probe attempt
      → IsDecisive o
      → retry_from probe (suc left) attempt last_err
        ≡ record { outcome = o; probes = suc attempt; slept = [] }
  unfolding retry_from after_probe after_failure
  retry-decisive left attempt last_err (resolved v) e u = rw (sym e) refl
  retry-decisive left attempt last_err (rejected err) e u = rw (sym e, u) refl

  retry-last :
      (left : ℕ) (last_err : JsValue) (o : Outcome T)
      → o ≡ probe 4
      → IsUnissued o
      → retry_from probe (suc left) 4 last_err
        ≡ record { outcome = exhausted o; probes = 5; slept = [] }
  unfolding retry_from after_probe after_failure
  retry-last left last_err (resolved v) e u = absurd u
  retry-last left last_err (rejected err) e u = rw (sym e, u) refl

  shorter :
      (attempt n : ℕ)
      → attempt < 4
      → attempt < n
      → delay_ms (get_elem? workload_dial_backoff_ms attempt)
          ∷ take (n - suc attempt) (drop (suc attempt) workload_dial_backoff_ms)
        ≡ take (n - attempt) (drop attempt workload_dial_backoff_ms)
  shorter attempt n low more =
      rw (schedule-drop attempt low, let e : n - attempt ≡ suc (n - suc attempt) = omega arith in e)
        refl

  decisive-from :
      (left attempt n : ℕ) (last_err : JsValue)
      → attempt + left ≡ 5
      → attempt ≤ n
      → n < 5
      → ((i : ℕ) → attempt ≤ i → i < n → IsUnissued (probe i))
      → IsDecisive (probe n)
      → retry_from probe left attempt last_err ≡ record {
        outcome = probe n;
        probes = suc n;
        slept = take (n - attempt) (drop attempt workload_dial_backoff_ms);
      }
  unfolding slept_first
  decisive-from zero attempt n last_err five low high u d = absurd (omega arith)
  decisive-from (suc left) attempt n last_err five low high u d =
      elim (Bool-cases (ltb attempt n)) [
        | inl more ↦
            let below : attempt < 4 = ground arith in
            let (err, failed_once) =
              retry-unissued left attempt last_err (probe attempt) refl
                (u attempt (omega arith) (ground arith)) below in
            failed_once
            ∙ ap (slept_first (delay_ms (get_elem? workload_dial_backoff_ms attempt))) (
                decisive-from left (suc attempt) n err (omega arith) (ground arith) high
                  (λ i a b. u i (omega arith) b) d)
            ∙ ap (λ ms. record { outcome = probe n; probes = suc n; slept = ms })
                (shorter attempt n below (ground arith))
        | inr done ↦
            let same : attempt ≡ n = ground arith in
            retry-decisive left attempt last_err (probe attempt) refl
              (subst (λ i. IsDecisive (probe i)) (sym same) d)
            ∙ rw (same, let e : n - n ≡ 0 = omega arith in e) refl
      ]

  unissued-from :
      (left attempt : ℕ) (last_err : JsValue)
      → attempt + left ≡ 5
      → attempt ≤ 4
      → ((i : ℕ) → attempt ≤ i → i ≤ 4 → IsUnissued (probe i))
      → retry_from probe left attempt last_err ≡ record {
        outcome = exhausted (probe 4);
        probes = 5;
        slept = take (4 - attempt) (drop attempt workload_dial_backoff_ms);
      }
  unfolding slept_first
  unissued-from zero attempt last_err five low u = absurd (omega arith)
  unissued-from (suc left) attempt last_err five low u = elim (Bool-cases (ltb attempt 4)) [
    | inl more ↦
        let below : attempt < 4 = ground arith in
        let (err, failed_once) =
          retry-unissued left attempt last_err (probe attempt) refl
            (u attempt (omega arith) (omega arith)) below in
        failed_once
        ∙ ap (slept_first (delay_ms (get_elem? workload_dial_backoff_ms attempt))) (
            unissued-from left (suc attempt) err (omega arith) (omega arith)
              (λ i a b. u i (omega arith) b))
        ∙ ap (λ ms. record { outcome = exhausted (probe 4); probes = 5; slept = ms })
            (shorter attempt 4 below below)
    | inr done ↦
        let same : attempt ≡ 4 = ground arith in
        rw same (retry-last left last_err (probe 4) refl (u 4 (omega arith) (omega arith)))
  ]

-- If the first n attempts, fewer than five, fail because no identity has been issued, and the next
-- one succeeds or fails for another reason, then the call ends as that attempt does: it has probed
-- no more often, and slept the first n delays of the schedule.
pub retry-decides :
    {T : Type 0} (probe : ℕ → Outcome T) (n : ℕ)
    → n < 5
    → ((i : ℕ) → i < n → IsUnissued (probe i))
    → IsDecisive (probe n)
    → retry_until_identity_issued probe
      ≡ record { outcome = probe n; probes = suc n; slept = take n workload_dial_backoff_ms }
unfolding retry_until_identity_issued
retry-decides probe n few u d =
    decisive-from probe 5 0 n _ refl (omega arith) few (λ i _ b. u i b) d
    ∙ rw (let e : n - 0 ≡ n = omega arith in e) refl

-- If all five attempts fail because no identity has been issued, then the call rejects with an
-- error that names the last failure, after five probes and all four delays.
pub retry-exhausts :
    {T : Type 0} (probe : ℕ → Outcome T)
    → ((i : ℕ) → i ≤ 4 → IsUnissued (probe i))
    → retry_until_identity_issued probe
      ≡ record { outcome = exhausted (probe 4); probes = 5; slept = 1000 ∷ 2000 ∷ 4000 ∷ 8000 ∷ [] }
unfolding retry_until_identity_issued
retry-exhausts probe u = unissued-from probe 5 0 _ refl (omega arith) (λ i _ b. u i b)
