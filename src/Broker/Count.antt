-- ===== src/Broker/Count.antt =====
-- How many of the first `n` processes stand at a place of a kind.
use m_kernel.Prelude.{
  ℕ, suc, ◌<◌, ◌≤◌, arith, update, ◌+◌, ◌≡◌, ap, dec_lt, zero, ℕ_discrete, update_ne, update_self,
  refl,
}
use m_kernel.Broker.{Place}

module _ (f : Place → ℕ) where
  pub count : ℕ → (ℕ → Place) → ℕ
  count zero at = 0
  count (suc n) at = f (at n) + count n at

  pub count-update_out :
      (n i : ℕ) (at : ℕ → Place) (p : Place) → n ≤ i → count n (update at i p) ≡ count n at
  unfolding count
  count-update_out zero i at p h = refl
  count-update_out (suc n) i at p h =
      omega
        (arith, ap f (update_ne at i n p (omega arith)), count-update_out n i at p (omega arith))

  pub count-update :
      (n i : ℕ) (at : ℕ → Place) (p : Place)
      → i < n
      → count n (update at i p) + f (at i) ≡ count n at + f p
  unfolding count
  count-update zero i at p h = absurd (omega arith)
  count-update (suc n) i at p h = elim (ℕ_discrete i n) [
    | yes e ↦
        rw e (omega (arith, ap f (update_self at n p), count-update_out n n at p (omega arith)))
    | no ne ↦ omega (arith, ap f (update_ne at i n p ne), count-update n i at p (omega arith))
  ]

  -- A process at the place has its share of the number.
  pub count-ge : (n i : ℕ) (at : ℕ → Place) → i < n → f (at i) ≤ count n at
  unfolding count
  count-ge zero i at h = absurd (omega arith)
  count-ge (suc n) i at h = elim (ℕ_discrete i n) [
    | yes e ↦ rw e (omega arith)
    | no ne ↦ omega (arith, count-ge n i at (omega arith))
  ]

  module _ (small : (p : Place) → f p ≤ 1) where
    pub count-le : (n : ℕ) (at : ℕ → Place) → count n at ≤ n
    unfolding count
    count-le zero at = omega arith
    count-le (suc n) at = omega (arith, small (at n), count-le n at)

    pub count-full : (n i : ℕ) (at : ℕ → Place) → count n at ≡ n → i < n → f (at i) ≡ 1
    unfolding count
    count-full zero i at h lt = absurd (omega arith)
    count-full (suc n) i at h lt =
        let one : f (at n) ≡ 1 = omega (arith, small (at n), count-le n at) in
        elim (ℕ_discrete i n) [
          | yes e ↦ rw e one
          | no ne ↦ count-full n i at (omega arith) (omega arith)
        ]

  -- Some process stands there if the number is not zero.
  pub count-some : (n : ℕ) (at : ℕ → Place) → 0 < count n at → (i : ℕ) × (i < n) × (0 < f (at i))
  unfolding count
  count-some zero at h = absurd (omega arith)
  count-some (suc n) at h = elim (dec_lt 0 (f (at n))) [
    | yes here ↦ (n, omega arith, here)
    | no not_here ↦ let (i, low, found) = count-some n at (omega arith) in (i, omega arith, found)
  ]

  pub count-all : (n : ℕ) (at : ℕ → Place) → ((j : ℕ) → j < n → f (at j) ≡ 1) → count n at ≡ n
  unfolding count
  count-all zero at h = refl
  count-all (suc n) at h =
      omega (arith, h n (omega arith), count-all n at (λ j low. h j (omega arith)))

  pub count-none : (n : ℕ) (at : ℕ → Place) → ((j : ℕ) → j < n → f (at j) ≡ 0) → count n at ≡ 0
  unfolding count
  count-none zero at h = refl
  count-none (suc n) at h =
      omega (arith, h n (omega arith), count-none n at (λ j low. h j (omega arith)))
