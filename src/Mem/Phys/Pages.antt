-- ===== src/Mem/Phys/Pages.antt =====
-- The whole pages on the free lists, which the accounting counts as available or reserved.
use tomato.Base.{
  ℕ, zero, suc, ◌+◌, ◌-◌, ◌/◌, ◌^◌, ◌≤◌, ◌<◌, ◌≡◌, refl, true, leb, if◌then◌else◌, ap, arith,
}
use tomato.Mem.Phys.{Phys, block_size, split, put_block, take_block, set_block_free, max_level}
use tomato.Mem.Phys.FreeLists.{sum_levels, sum_levels-cons, sum_levels-hlist_del, has}
use native.Mathlib.Nat.{pow-suc}
use native.Mathlib.Decide.{dec_le, ℕ_discrete}

-- The pages of a block of the level; a piece of a page counts for none.
unfoldable pub page_weight : ℕ → ℕ
page_weight level = if leb 6 level then 2 ^ (level - 6) else 0

-- The weight of all that is on the free lists.
abbrev pub weigh : (ℕ → ℕ) → Phys → ℕ
weigh w s = sum_levels w max_level s.levels

abbrev pub free_pages : Phys → ℕ
free_pages = weigh page_weight

pub page_weight-suc : (k : ℕ) → 6 ≤ k → page_weight (suc k) ≡ page_weight k + page_weight k
unfolding page_weight
page_weight-suc k h =
    let e : suc k - 6 ≡ suc (k - 6) = omega arith in
    ground (arith, ap (λ (j : ℕ). 2 ^ j) e, pow-suc 2 (k - 6))

-- The whole pages that leave the lists when a block of level `k` is split down to level `e`.
abbrev pub pages_taken : (e k : ℕ) → ℕ
pages_taken e k = if leb 6 e then page_weight e else if leb 6 k then 1 else 0

pub pages_taken_self : (k : ℕ) → pages_taken k k ≡ page_weight k
unfolding page_weight
pages_taken_self k = ground arith

-- Splitting one level higher gives up twice the weight of the upper half, or the page itself.
pages_taken-suc :
    (e k : ℕ)
    → e ≤ k
    → pages_taken e k + page_weight (suc k)
      ≡ pages_taken e (suc k) + (page_weight k + page_weight k)
unfolding page_weight
pages_taken-suc e k h = elim (dec_le 6 k) [
  | yes p ↦ ground (arith, page_weight-suc k p)
  | no p ↦ elim (ℕ_discrete k 5) [ yes five ↦ rw five (ground arith) | no n ↦ ground arith ]
]

module _ (w : ℕ → ℕ) (k b : ℕ) (s : Phys) (lt : k < max_level) where
  pub weigh-put_block : weigh w (put_block k b s) ≡ weigh w s + w k
  unfolding put_block set_block_free
  weigh-put_block = sum_levels-cons w s.levels k max_level b lt

  pub weigh-take_block : has b (s.levels k) ≡ true → weigh w (take_block k b s) + w k ≡ weigh w s
  unfolding take_block
  weigh-take_block m = sum_levels-hlist_del w s.levels k max_level b lt m

split-zero : (k b : ℕ) (s : Phys) → split zero k b s ≡ s
unfolding split
split-zero k b s = refl

split-suc :
    (d k b : ℕ) (s : Phys)
    → split (suc d) (suc k) b s ≡ split d k b (put_block k (b + block_size (suc k) / 2) s)
unfolding split
split-suc d k b s =
    let down : suc k - 1 ≡ k = omega arith in
    ap (λ j. split d j b (put_block j (b + block_size (suc k) / 2) s)) down

pub split-pages :
    (d e k b : ℕ) (s : Phys)
    → e + d ≡ k
    → k < max_level
    → free_pages (split d k b s) + pages_taken e k ≡ free_pages s + page_weight k
split-pages zero e k b s h lt =
    let same : e ≡ k = omega arith in
    rw (split-zero k b s, same) (ap (λ j. free_pages s + j) (pages_taken_self k))
split-pages (suc d) e zero b s h lt = absurd (omega arith)
split-pages (suc d) e (suc k) b s h lt =
    let upper = b + block_size (suc k) / 2 in
    rw (split-suc d k b s) (
      omega (
        arith,
        split-pages d e k b (put_block k upper s) (omega arith) (omega arith),
        weigh-put_block page_weight k upper s (omega arith),
        pages_taken-suc e k (omega arith),
      ))
