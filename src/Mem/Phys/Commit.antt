-- ===== src/Mem/Phys/Commit.antt =====
-- src/mem/phys.c: the pages that an allocation commits, and when the counters agree with the lists.
use tomato.Base.{
  ℕ, ◌+◌, ◌-◌, ◌^◌, ◌≤◌, ◌<◌, ◌≡◌, ◌≢◌, Bool, true, false, ◌⊎◌, inl, inr, List, [], ◌∷◌, ok, ltb,
  leb, Bool-cases, arith,
}
use tomato.Mem.Accounting.{Accounting, commit, commit_reserved}
use tomato.Mem.Accounting.Balance.{IsBalanced}
use tomato.Mem.Phys.{Phys, commit_for, max_level, page_level, get_page_count_by_level}
use tomato.Mem.Phys.Pages.{page_weight, free_pages, pages_taken}

-- The counters balance, and every whole page on the free lists is available or reserved.
pub record IsAccounted (s : Phys) : Type 0 where
  pub balance : IsBalanced s.acct
  pub pages : free_pages s ≡ s.acct.available + s.acct.reserved

-- The header of the first block of a list, if there is one, holds the level.
abbrev pub FirstTagged : (ℕ → ℕ) → ℕ → List ℕ → Type 0
FirstTagged header k [] = Unit
FirstTagged header k (b ∷ _) = header b ≡ k

abbrev pub IsTagged : Phys → Type 0
IsTagged s = (k : ℕ) → k < max_level → FirstTagged s.header k (s.levels k)

-- A reserved allocation takes whole pages, and its owner has reserved them.
abbrev pub HasReserved : (level : ℕ) → Bool → Accounting → Type 0
HasReserved level true a = (page_level ≤ level) × (2 ^ (level - 6) ≤ a.reserved)
HasReserved level false a = Unit

-- `n` pages more are committed, and `n` fewer are available or reserved.
pub record Commits (n : ℕ) (a a' : Accounting) : Type 0 where
  pub balance : IsBalanced a'
  pub gone : a'.available + a'.reserved + n ≡ a.available + a.reserved
  pub committed : a'.committed ≡ a.committed + n
  pub total : a'.total ≡ a.total

pub commit_for_lem :
    (level k : ℕ) (reserved : Bool) (a : Accounting)
    → IsBalanced a
    → HasReserved level reserved a
    → (commit_for level k reserved a ≡ ok (false, a))
      ⊎ ((a' : Accounting) × (commit_for level k reserved a ≡ ok (true, a'))
          × Commits (pages_taken level k) a a')
unfolding commit_for commit commit_reserved page_weight get_page_count_by_level
commit_for_lem level k true a b h = inr (
  record a { reserved = a.reserved - 2 ^ (level - 6); committed = a.committed + 2 ^ (level - 6) },
  ground arith,
  ground arith,
)
commit_for_lem level k false a b h = elim (Bool-cases (leb 6 level)) [
  | inl big ↦ elim (Bool-cases (ltb a.available (2 ^ (level - 6)))) [
    | inl short ↦ inl (ground arith)
    | inr fits ↦ inr (
      record a {
        available = a.available - 2 ^ (level - 6);
        committed = a.committed + 2 ^ (level - 6);
      },
      ground arith,
      ground arith,
    )
  ]
  | inr piece ↦ elim (Bool-cases (leb 6 k)) [
    | inl whole ↦ elim (Bool-cases (ltb a.available 1)) [
      | inl short ↦ inl (ground arith)
      | inr fits ↦ inr (
        record a { available = a.available - 1; committed = a.committed + 1 },
        ground arith,
        ground arith,
      )
    ]
    | inr part ↦ inr (a, ground arith, ground arith)
  ]
]

-- Taking reserved pages is never refused.
pub commit_for-reserved : (k : ℕ) (a : Accounting) → commit_for page_level k true a ≢ ok (false, a)
unfolding commit_for commit_reserved get_page_count_by_level
commit_for-reserved k a e = ground arith

pub pages_taken_whole :
    (level k : ℕ) → page_level ≤ level → pages_taken level k ≡ 2 ^ (level - page_level)
unfolding page_weight
pages_taken_whole level k h = ground arith

pub pages_taken_piece :
    (level k : ℕ) → level < page_level → (pages_taken level k ≡ 0) ⊎ (pages_taken level k ≡ 1)
pages_taken_piece level k h = ground arith
