-- ===== src/Mem/Phys/Search.antt =====
-- src/mem/phys.c, `phys_alloc_internal`: the search for a free list that is not empty.
use native.Mathlib.Decide.{ℕ_discrete, dec_le}
use tomato.Base.{ℕ, zero, suc, ◌+◌, ◌≤◌, ◌<◌, ◌≡◌, ◌≢◌, inl, inr, List, [], ◌∷◌, List-cases, arith}
use tomato.Mem.Phys.{Phys, find_level, max_level, page_level}
use tomato.Mem.Phys.FreeLists.{sum_levels-zero}
use tomato.Mem.Phys.Pages.{page_weight, free_pages}

pub find_level-nil :
    (r : ℕ) (levels : ℕ → List ℕ) (k : ℕ)
    → levels k ≡ []
    → find_level (suc r) levels k ≡ find_level r levels (k + 1)
unfolding find_level
find_level-nil r levels k e = ground arith

pub find_level-cons :
    (r : ℕ) (levels : ℕ → List ℕ) (k : ℕ) {b : ℕ} {rest : List ℕ}
    → levels k ≡ b ∷ rest
    → find_level (suc r) levels k ≡ k
unfolding find_level
find_level-cons r levels k e = ground arith

-- The first level from `k` up whose list is not empty, or the end of the range.
pub record IsFirst (r : ℕ) (levels : ℕ → List ℕ) (k f : ℕ) : Type 0 where
  pub from : k ≤ f
  pub to : f ≤ k + r
  pub full : f < k + r → levels f ≢ []
  pub skipped : (j : ℕ) → k ≤ j → j < f → levels j ≡ []

pub find_level-IsFirst :
    (r : ℕ) (levels : ℕ → List ℕ) (k : ℕ) → IsFirst r levels k (find_level r levels k)
unfolding find_level
find_level-IsFirst zero levels k = record {
  from = omega arith;
  to = omega arith;
  full = λ h. absurd (omega arith);
  skipped = λ j p q. absurd (omega arith);
}
find_level-IsFirst (suc r) levels k = elim (List-cases (levels k)) [
  | inl e ↦ rw (find_level-nil r levels k e) (
      let ih = find_level-IsFirst r levels (k + 1) in
      record {
        from = omega (arith, ih.from);
        to = omega (arith, ih.to);
        full = λ h. ih.full (omega arith);
        skipped = λ j p q. elim (ℕ_discrete k j) [
          | yes same ↦ rw (← same) e
          | no other ↦ ih.skipped j (omega arith) q
        ];
      })
  | inr (b, rest, e) ↦ rw (find_level-cons r levels k e) (record {
    from = omega arith;
    to = omega arith;
    full = λ h z. cc;
    skipped = λ j p q. absurd (omega arith);
  })
]

-- Without a free page from `page_level` up there is none.
pub free_pages-zero :
    (s : Phys) → ((j : ℕ) → page_level ≤ j → j < max_level → s.levels j ≡ []) → free_pages s ≡ 0
unfolding page_weight
free_pages-zero s none_left = sum_levels-zero page_weight s.levels max_level (λ j h.
    elim (dec_le 6 j) [
      | yes p ↦ rw (none_left j p h) (omega arith)
      | no p ↦ let low : page_weight j ≡ 0 = ground arith in rw low (omega arith)
    ])
