-- ===== src/Mem/Phys/FreeLists.antt =====
-- The free lists of the buddy allocator, and what they weigh: a sum over the levels.
use tomato.Base.{
  ap, update_ne, ℕ, zero, suc, ◌+◌, ◌*◌, ◌≤◌, ◌<◌, ◌≡◌, refl, Bool, true, false, ◌||◌, List, [],
  ◌∷◌, ◌==◌, if◌then◌else◌, length, update, arith,
}
use native.Mathlib.Decide.{dec_lt}

-- `hlist_del` of a node that is on the list
abbrev pub hlist_del : ℕ → List ℕ → List ℕ
hlist_del a [] = []
hlist_del a (x ∷ xs) = if a == x then xs else x ∷ hlist_del a xs

-- The list holds the block.
abbrev pub has : ℕ → List ℕ → Bool
has a [] = false
has a (x ∷ xs) = a == x || has a xs

pub length-hlist_del :
    (a : ℕ) (xs : List ℕ) → has a xs ≡ true → length xs ≡ suc (length (hlist_del a xs))
length-hlist_del a [] h = ground arith
length-hlist_del a (x ∷ xs) h = ground (arith, length-hlist_del a xs)

-- The blocks of the first `n` levels, each with the weight of its level.
unfoldable pub sum_levels : (weight : ℕ → ℕ) (n : ℕ) → (ℕ → List ℕ) → ℕ
sum_levels w zero levels = 0
sum_levels w (suc n) levels = length (levels n) * w n + sum_levels w n levels

module _ (w : ℕ → ℕ) (levels : ℕ → List ℕ) (k : ℕ) (xs : List ℕ) where
  sum_levels-update_above :
      (n : ℕ) → n ≤ k → sum_levels w n (update levels k xs) ≡ sum_levels w n levels
  unfolding sum_levels
  sum_levels-update_above zero h = refl
  sum_levels-update_above (suc n) h = ground (arith, sum_levels-update_above n)

  sum_levels-update :
      (n : ℕ)
      → k < n
      → sum_levels w n (update levels k xs) + length (levels k) * w k
        ≡ sum_levels w n levels + length xs * w k
  unfolding sum_levels
  sum_levels-update zero h = absurd (omega arith)
  sum_levels-update (suc n) h = elim (dec_lt k n) [
    | yes p ↦ rw (update_ne levels k n xs (omega arith)) (omega (arith, sum_levels-update n p))
    | no p ↦
        let e : k ≡ n = omega arith in
        let here : update levels k xs n ≡ xs = ground arith in
        rw here (
          omega (
            arith,
            sum_levels-update_above n (omega arith),
            ap (λ j. length (levels j) * w j) e,
            ap (λ j. length xs * w j) e,
          ))
  ]

-- A block put on a list adds its weight, and one taken from its list removes it.
pub sum_levels-cons :
    (w : ℕ → ℕ) (levels : ℕ → List ℕ) (k n a : ℕ)
    → k < n
    → sum_levels w n (update levels k (a ∷ levels k)) ≡ sum_levels w n levels + w k
sum_levels-cons w levels k n a h = omega (arith, sum_levels-update w levels k (a ∷ levels k) n h)

pub sum_levels-hlist_del :
    (w : ℕ → ℕ) (levels : ℕ → List ℕ) (k n a : ℕ)
    → k < n
    → has a (levels k) ≡ true
    → sum_levels w n (update levels k (hlist_del a (levels k))) + w k ≡ sum_levels w n levels
sum_levels-hlist_del w levels k n a h m = omega (
  arith,
  sum_levels-update w levels k (hlist_del a (levels k)) n h,
  ap (λ j. j * w k) (length-hlist_del a (levels k) m),
)

-- Lists that are empty, or weigh nothing, make up nothing.
pub sum_levels-zero :
    (w : ℕ → ℕ) (levels : ℕ → List ℕ) (n : ℕ)
    → ((j : ℕ) → j < n → length (levels j) * w j ≡ 0)
    → sum_levels w n levels ≡ 0
unfolding sum_levels
sum_levels-zero w levels zero h = refl
sum_levels-zero w levels (suc n) h =
    omega (arith, h n (omega arith), sum_levels-zero w levels n (λ j p. h j (omega arith)))
