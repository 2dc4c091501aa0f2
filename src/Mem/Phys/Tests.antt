-- ===== src/Mem/Phys/Tests.antt =====
-- Runs of the buddy allocator, and the theorems at concrete states.
use tomato.Base.{
  ℕ, ◌+◌, ◌-◌, ◌/◌, ◌^◌, ◌≤◌, ◌<◌, ◌≡◌, refl, true, false, Run, ok, Returns, ◌>>=◌, ◌⊎◌, some, none,
  [], ◌∷◌, List, Option, update, update-cases, inl, inr, ◌==◌, if◌then◌else◌, arith,
}
use tomato.Mem.Accounting.{Accounting, commit, uncommit, add_total}
use tomato.Mem.Phys.{
  Phys, add_memory, add_blocks, get_best_level_for_block, best_level_below, alloc, free,
  alloc_reserved, alloc_internal, free_internal, free_block, mark_freed, merge, split, put_block,
  take_block, take_first, find_level, commit_for, uncommit_for, zero_range, is_block_free,
  set_block_free, set_block_allocated, max_level, max_size, min_order, page_level,
  get_level_by_size, unit_of,
}
use tomato.Mem.Phys.Bitmap.{bit_at, bit_set, bit_clear}
use tomato.Mem.Phys.Sizes.{bit_length, get_level_by_size-least}
use tomato.Mem.Phys.FreeLists.{sum_levels}
use tomato.Mem.Phys.Pages.{page_weight}
use tomato.Mem.Phys.Commit.{IsAccounted, IsTagged}
use tomato.Mem.Phys.Alloc.{Allocated, Took, alloc_internal-Allocated, alloc_reserved-page}
use tomato.Mem.Phys.Cuts.{Cuts}
use tomato.Mem.Phys.Regions.{IsBest, get_best_level_for_block-IsBest}
use tomato.Mem.Phys.Rounds.{add_blocks-returns}
use tomato.Mem.Phys.Blocks.{is_block_free-set}

abbrev empty : Phys
empty = record {
  levels = λ _. [];
  header = λ _. 0;
  bitmap = λ _. 0;
  direct_base = 0;
  acct = record { available = 0; total = 0; committed = 0; reserved = 0 };
}

-- What the runs below look at.
abbrev View : Type 0
View = Option ℕ × (List ℕ × (List ℕ × (List ℕ × Accounting)))

abbrev view : Option ℕ → Phys → View
view p s = (p, (s.levels 1, (s.levels 6, (s.levels 7, s.acct))))

-- 12 KiB from 4 KiB on are a page and a block of two.
add_runs :
    (add_memory 4096 16384 empty >>= λ s. ok (view none s))
    ≡ ok (
      none,
      (
        [],
        (4096 ∷ [], (8192 ∷ [], record { available = 3; total = 3; committed = 0; reserved = 0 })),
      ),
    )
unfolding add_memory add_blocks get_best_level_for_block best_level_below free_internal mark_freed
    merge put_block take_block set_block_free is_block_free bit_at bit_set zero_range add_total
add_runs = refl

-- 100 bytes split the page, and their free merges it again.
alloc_then_free : Run (View × View)
alloc_then_free = do
  s ← add_memory 4096 16384 empty
  (p, t) ← alloc 100 s
  u ← free 4096 100 t
  ok (view p t, view none u)

alloc_free_runs :
    alloc_then_free
    ≡ ok (
      (
        some 4096,
        (
          4224 ∷ [],
          ([], (8192 ∷ [], record { available = 2; total = 3; committed = 1; reserved = 0 })),
        ),
      ),
      (
        none,
        (
          [],
          (
            4096 ∷ [],
            (8192 ∷ [], record { available = 3; total = 3; committed = 0; reserved = 0 }),
          ),
        ),
      ),
    )
unfolding alloc_then_free add_memory add_blocks get_best_level_for_block best_level_below
    free_internal mark_freed merge put_block take_block set_block_free is_block_free bit_at bit_set
    bit_clear zero_range add_total alloc get_level_by_size bit_length alloc_internal find_level
    commit_for take_first split set_block_allocated free free_block uncommit_for commit uncommit
alloc_free_runs = refl

get_level_by_size-least_example :
    ((max_size < 100) × (get_level_by_size 100 ≡ none))
    ⊎ ((level : ℕ) × (get_level_by_size 100 ≡ some level)
        × (level < max_level)
        × (100 ≤ 2 ^ (level + min_order))
        × ((level ≡ 0) ⊎ (2 ^ (level - 1 + min_order) < 100)))
get_level_by_size-least_example = get_level_by_size-least 100

get_best_level_for_block-IsBest_example :
    IsBest 4096 16384 max_level (get_best_level_for_block 4096 16384)
get_best_level_for_block-IsBest_example = get_best_level_for_block-IsBest 4096 16384 (omega arith)

is_block_free-set_example :
    (is_block_free 4096 (set_block_free 4096 empty)
      ≡ (if unit_of 4096 empty == unit_of 4096 empty then true else is_block_free 4096 empty))
    × (is_block_free 4096 (set_block_allocated 4096 empty)
        ≡ (if unit_of 4096 empty == unit_of 4096 empty then false else is_block_free 4096 empty))
is_block_free-set_example = is_block_free-set 4096 4096 empty (λ i. omega arith)

-- Two free pages at 4 KiB and 16 KiB, one reserved, and one page committed at 20 KiB.
abbrev pages : Phys
pages = record {
  levels = update (λ _. []) 6 (4096 ∷ 16384 ∷ []);
  header = update (update (λ _. 0) 4096 6) 16384 6;
  bitmap = update (update (λ _. 0) 8 1) 32 1;
  direct_base = 0;
  acct = record { available = 1; total = 3; committed = 1; reserved = 1 };
}

pages-IsAccounted : IsAccounted pages
unfolding sum_levels page_weight
pages-IsAccounted = record { balance = omega arith; pages = refl }

pages-IsTagged : IsTagged pages
pages-IsTagged k h = elim (update-cases {A = List ℕ} (λ _. []) 6 (4096 ∷ 16384 ∷ []) k) [
  | inl (e, u) ↦ rw u e
  | inr (_, u) ↦ rw u tt
]

alloc_internal-Allocated_example : Returns (Allocated 2 pages) (alloc_internal 2 false pages)
alloc_internal-Allocated_example =
    alloc_internal-Allocated 2 false pages (omega arith) pages-IsAccounted pages-IsTagged tt

alloc_reserved-page_example :
    (b : ℕ) × (t : Phys) × (alloc_reserved 4096 pages ≡ ok (some b, t))
    × Took page_level pages t
    × Cuts page_level b pages t
alloc_reserved-page_example =
    alloc_reserved-page pages pages-IsAccounted pages-IsTagged (omega arith)

-- Three pages, and many rounds.
add_blocks-returns_example :
    (t : Phys) × (t.acct ≡ empty.acct)
    × ((rounds : ℕ)
        → (16384 - 4096) / 4096 ≤ rounds
        → add_blocks rounds 4096 16384 empty ≡ ok (some t))
add_blocks-returns_example = add_blocks-returns 4096 16384 empty refl refl (omega arith)
