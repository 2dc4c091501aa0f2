-- ===== src/Base/Families.antt =====
-- A family of values indexed by core: the sum of a weight over the first `n` members.
use Prim.Native.Nat.{ℕ, zero, suc, ◌+◌, ◌≤◌, ◌<◌}
use mathlib.Core.Path.{◌≡◌, refl, ap}
use mathlib.Core.Logic.{◌≢◌}
use native.Mathlib.Omega.{arith}
use native.Mathlib.Decide.{dec_lt, ℕ_discrete}
use tomato.Base.Lists.{update}

module _ {ℓ} {A : Type ℓ} (weight : A → ℕ) where
  pub sum_upto : ℕ → (ℕ → A) → ℕ
  sum_upto zero f = 0
  sum_upto (suc k) f = weight (f k) + sum_upto k f

  -- An index out of range changes no sum.
  sum_upto-update_above :
      (k i : ℕ) (f : ℕ → A) (a : A) → k ≤ i → sum_upto k (update f i a) ≡ sum_upto k f
  unfolding sum_upto
  sum_upto-update_above zero i f a h = refl
  sum_upto-update_above (suc k) i f a h = ground (arith, sum_upto-update_above k i f a)

  -- A new value at one index replaces its weight in the sum.
  pub sum_upto-update :
      (k i : ℕ) (f : ℕ → A) (a : A)
      → i < k
      → sum_upto k (update f i a) + weight (f i) ≡ weight a + sum_upto k f
  unfolding sum_upto
  sum_upto-update zero i f a h = absurd (omega arith)
  sum_upto-update (suc k) i f a h = elim (dec_lt i k) [
    | yes p ↦ ground (arith, sum_upto-update k i f a p)
    | no p ↦ ground (arith, sum_upto-update_above k i f a)
  ]

  pub sum_upto-zero : (k : ℕ) (f : ℕ → A) → ((i : ℕ) → weight (f i) ≡ 0) → sum_upto k f ≡ 0
  unfolding sum_upto
  sum_upto-zero zero f h = refl
  sum_upto-zero (suc k) f h = omega (arith, h k, sum_upto-zero k f h)

  -- Two members weigh no more than the whole.
  pub sum_upto-le : (k i : ℕ) (f : ℕ → A) → i < k → weight (f i) ≤ sum_upto k f
  unfolding sum_upto
  sum_upto-le zero i f h = absurd (omega arith)
  sum_upto-le (suc k) i f h = elim (dec_lt i k) [
    | yes p ↦ omega (arith, sum_upto-le k i f p)
    | no p ↦ let e : i ≡ k = omega arith in omega (arith, ap (λ j. weight (f j)) e)
  ]

  pub sum_upto-le_two :
      (k i j : ℕ) (f : ℕ → A) → i < k → j < k → i ≢ j → weight (f i) + weight (f j) ≤ sum_upto k f
  unfolding sum_upto
  sum_upto-le_two zero i j f hi hj n = absurd (omega arith)
  sum_upto-le_two (suc k) i j f hi hj n = elim (ℕ_discrete i k) [
    | yes e ↦ omega (arith, sum_upto-le k j f (omega arith), ap (λ l. weight (f l)) e)
    | no a ↦ elim (ℕ_discrete j k) [
      | yes e ↦ omega (arith, sum_upto-le k i f (omega arith), ap (λ l. weight (f l)) e)
      | no b ↦ omega (arith, sum_upto-le_two k i j f (omega arith) (omega arith) n)
    ]
  ]
