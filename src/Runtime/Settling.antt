-- ===== src/Runtime/Settling.antt =====
-- The promises that a component has handed out, by number, with what each has settled to.
-- Settling a promise a second time does nothing.
use signet_clients.Prelude.{
  ℕ, zero, suc, ◌+◌, ◌≤◌, ◌<◌, ◌≡◌, ◌≢◌, ◌==◌, if◌then◌else◌, ltb, leb, ◌&&◌, List, [], ◌∷◌, Option,
  none, some, arith, range_from, Bool-cases, ==_iff, inl, inr,
}

abbrev pub Promises {ℓ} : Type ℓ → Type ℓ
Promises A = ℕ → Option A

abbrev pub no_promises {ℓ} : {A : Type ℓ} → Promises A
no_promises i = none

abbrev pub or_else {ℓ} : {A : Type ℓ} → Option A → A → Option A
or_else (some w) v = some w
or_else none v = some v

module _ {ℓ} {A : Type ℓ} where
  unfoldable pub settle : ℕ → A → Promises A → Promises A
  settle i v p j = if j == i then or_else (p j) v else p j

  -- `while (waiters.length > 0) waiters.shift()!(v)`.
  unfoldable pub settle_all : List ℕ → A → Promises A → Promises A
  settle_all [] v p = p
  settle_all (i ∷ is) v p = settle_all is v (settle i v p)

  pub settle-at : (i : ℕ) (v : A) (p : Promises A) → p i ≡ none → settle i v p i ≡ some v
  unfolding settle
  settle-at i v p h = ground arith

  pub settle-other : (i j : ℕ) (v : A) (p : Promises A) → j ≢ i → settle i v p j ≡ p j
  unfolding settle
  settle-other i j v p h = ground arith

  -- One promise settled, then the ones after it.
  settle-range_step :
      (n k : ℕ) (v : A) (p : Promises A) (j : ℕ)
      → p n ≡ none
      → (if leb (suc n) j && ltb j (suc n + k) then some v else settle n v p j)
        ≡ (if leb n j && ltb j (n + suc k) then some v else p j)
  settle-range_step n k v p j e = elim (Bool-cases (j == n)) [
    | inl same ↦ let at_n = (==_iff j n).0 same in rw (at_n, settle-at n v p e) (ground arith)
    | inr apart ↦ let other : j ≢ n = ground arith in rw (settle-other n j v p other) (ground arith)
  ]

  -- Settling consecutive pending promises settles exactly those.
  pub settle_all-range :
      (n k : ℕ) (v : A) (p : Promises A) (j : ℕ)
      → ((i : ℕ) → n ≤ i → i < n + k → p i ≡ none)
      → settle_all (range_from n k) v p j ≡ (if leb n j && ltb j (n + k) then some v else p j)
  unfolding settle_all
  settle_all-range n zero v p j h = ground arith
  settle_all-range n (suc k) v p j h =
      rw
        (settle_all-range (suc n) k v (settle n v p) j
          (λ i lo hi. rw (settle-other n i v p (omega arith)) (h i (omega arith) (omega arith))))
        (settle-range_step n k v p j (h n (omega arith) (omega arith)))
