-- ===== src/Mem/Phys.antt =====
-- src/mem/phys.c: the buddy allocator. Addresses are numbers, a free list is the sequence of the
-- block addresses on it, first block first, and a halted run is a failed `ASSERT`. The functions run
-- under `m_phys_buddy_lock`, so a run of one is not interleaved with another.
pub mod Sizes
pub mod Bitmap
pub mod FreeLists
pub mod Pages
pub mod Commit
pub mod Search
pub mod Cuts
pub mod Alloc
pub mod Placed
pub mod Blocks
pub mod Regions
pub mod Rounds
mod Tests
unfoldable pub use Sizes.{
  max_size, max_level, min_order, page_level, get_level_by_size, get_page_level_by_size,
  get_page_count_by_level,
}
use FreeLists.{hlist_del}
use Bitmap.{bit_at, bit_set, bit_clear}
use tomato.Base.{
  ℕ, zero, suc, ◌+◌, ◌-◌, ◌/◌, ◌%◌, ◌^◌, Bool, true, false, not, ◌&&◌, ◌||◌, Option, none, some,
  List, [], ◌∷◌, Run, ok, halt, ◌>>=◌, ◌>>◌, assert, ltb, leb, ◌==◌, if◌then◌else◌, update, add_u64,
  sub_u64,
}
use tomato.Mem.Accounting.{
  Accounting, commit, commit_reserved, uncommit, uncommit_to_reserved, add_total,
}

pub record Phys : Type 0 where
  -- `m_phys_buddy_levels`
  pub levels : ℕ → List ℕ
  -- the byte of memory at which the block at an address keeps its level while it is free
  pub header : ℕ → ℕ
  -- the bytes at `g_buddy_bitmap_mapping.base`
  pub bitmap : ℕ → ℕ
  -- `g_direct_map.base`
  pub direct_base : ℕ
  pub acct : Accounting

-- The size in bytes of a block.
abbrev pub block_size : ℕ → ℕ
block_size level = 2 ^ (level + 6)

-- `direct_to_phys(ptr) >> PHYS_BUDDY_MIN_ORDER`
abbrev pub unit_of : ℕ → Phys → ℕ
unit_of ptr s = sub_u64 ptr s.direct_base / 2 ^ 6

unfoldable pub is_block_free : ℕ → Phys → Bool
is_block_free ptr s = let addr = unit_of ptr s in bit_at (s.bitmap (addr / 8)) (addr % 8)

unfoldable pub set_block_allocated : ℕ → Phys → Phys
set_block_allocated ptr s =
    let addr = unit_of ptr s in
    record s { bitmap = update s.bitmap (addr / 8) (bit_clear (s.bitmap (addr / 8)) (addr % 8)) }

unfoldable pub set_block_free : ℕ → Phys → Phys
set_block_free ptr s =
    let addr = unit_of ptr s in
    record s { bitmap = update s.bitmap (addr / 8) (bit_set (s.bitmap (addr / 8)) (addr % 8)) }

-- The search for the first free list from `level` up that is not empty: `max_level` if there is none.
unfoldable pub find_level : (rounds : ℕ) → (ℕ → List ℕ) → (level : ℕ) → ℕ
find_level zero levels level = level
find_level (suc r) levels level =
    let above = find_level r levels (level + 1) in
    elim (levels level) [ [] ↦ above | _ ∷ _ ↦ level ]

-- The pages are committed before they are taken; false if there are not enough.
unfoldable pub commit_for :
    (level block_at_level : ℕ) (reserved : Bool) → Accounting → Run (Bool × Accounting)
unfolding get_page_count_by_level
commit_for level block_at_level reserved a =
    if leb page_level level
    then (if reserved
        then (do a' ← commit_reserved (get_page_count_by_level level) a; ok (true, a'))
        else ok (commit (get_page_count_by_level level) a))
    else if leb page_level block_at_level
    then ok (commit 1 a)
    else ok (true, a)

-- `block->level = level; hlist_add(&m_phys_buddy_levels[level], &block->node); buddy_set_block_free(block)`
unfoldable pub put_block : (level block : ℕ) → Phys → Phys
unfolding set_block_free
put_block level block s = set_block_free block (record s {
  header = update s.header block level;
  levels = update s.levels level (block ∷ s.levels level);
})

-- `hlist_del(&block->node); *block = (buddy_free_page_t){};` for a block of the level
unfoldable pub take_block : (level block : ℕ) → Phys → Phys
take_block level block s = record s {
  header = update s.header block 0;
  levels = update s.levels level (hlist_del block (s.levels level));
}

-- The loop that splits a block down by `rounds` levels, and frees each upper half.
unfoldable pub split : (rounds block_at_level block : ℕ) → Phys → Phys
split zero k block s = s
split (suc d) k block s = split d (k - 1) block (put_block (k - 1) (block + block_size k / 2) s)

-- The first block of the level, split down to `level` and marked as allocated.
unfoldable pub take_first : (level block_at_level : ℕ) → Phys → Run (Option ℕ × Phys)
take_first level k s = elim (s.levels k) [
  | [] ↦ halt
  | page ∷ _ ↦ do
    assert (s.header page == k)
    ok (some page, set_block_allocated page (split (k - level) k page (take_block k page s)))
]

unfoldable pub alloc_internal : (level : ℕ) (reserved : Bool) → Phys → Run (Option ℕ × Phys)
alloc_internal level reserved s =
    let k = find_level (max_level - level) s.levels level in
    if k == max_level
    then (do assert (not reserved || not (level == page_level)); ok (none, s))
    else (do
      (enough, acct') ← commit_for level k reserved s.acct
      let t : Phys = record s { acct = acct' }
      if enough then take_first level k t else ok (none, t))

unfoldable pub alloc : (size : ℕ) → Phys → Run (Option ℕ × Phys)
alloc size s = elim (get_level_by_size size) [
  | none ↦ ok (none, s)
  | some level ↦ alloc_internal level false s
]

unfoldable pub alloc_reserved : (size : ℕ) → Phys → Run (Option ℕ × Phys)
alloc_reserved size s = elim (get_page_level_by_size size) [
  | none ↦ halt
  | some level ↦ alloc_internal level true s
]

-- `ptr ^ block_size`: the bit of the size is toggled.
abbrev pub neighbor_of : (level ptr : ℕ) → ℕ
neighbor_of level ptr =
    if ptr / block_size level % 2 == 0 then ptr + block_size level else ptr - block_size level

-- The lower of the two.
abbrev pub merged : (ptr neighbor : ℕ) → ℕ
merged ptr neighbor = if ltb neighbor ptr then neighbor else ptr

-- The loop that merges a free block with its free neighbors, up to level 15.
unfoldable pub merge : (rounds level ptr : ℕ) → Phys → (ℕ × ℕ × Phys)
merge zero level ptr s = (level, ptr, s)
merge (suc r) level ptr s =
    let neighbor = neighbor_of level ptr in
    let next = merge r (level + 1) (merged ptr neighbor) (take_block level neighbor s) in
    if not (is_block_free neighbor s)
    then (level, ptr, s)
    else if not (s.header neighbor == level)
    then (level, ptr, s)
    else next

-- `check_allocated`
unfoldable pub mark_freed : (check_allocated : Bool) (ptr : ℕ) → Phys → Run Phys
mark_freed true ptr s = do assert (not (is_block_free ptr s)); ok (set_block_free ptr s)
mark_freed false ptr s = ok s

-- Returns the level of the block after merging it.
unfoldable pub free_internal : (ptr level : ℕ) (check_allocated : Bool) → Phys → Run (ℕ × Phys)
free_internal ptr level check_allocated s = do
  assert (ptr % block_size level == 0)
  s' ← mark_freed check_allocated ptr s
  let (level', ptr', t) = merge (max_level - 1 - level) level ptr s'
  ok (level', put_block level' ptr' t)

-- `memset(ptr, 0, size)`, of which the model keeps the header bytes.
unfoldable pub zero_range : (ptr size : ℕ) → Phys → Phys
zero_range ptr size s = record s {
  header = λ a. if leb ptr a && ltb a (ptr + size) then 0 else s.header a;
}

-- The accounting of a block that was freed and merged up to `merged_level`.
unfoldable pub uncommit_for :
    (level merged_level : ℕ) (reserved : Bool) → Accounting → Run Accounting
unfolding get_page_count_by_level
uncommit_for level merged_level reserved a =
    if leb page_level level
    then (if reserved
        then uncommit_to_reserved (get_page_count_by_level level) a
        else uncommit (get_page_count_by_level level) a)
    else if leb page_level merged_level
    then uncommit 1 a
    else ok a

unfoldable pub free_block : (ptr level : ℕ) (reserved : Bool) → Phys → Run Phys
free_block ptr level reserved s = do
  (merged_level, t) ← free_internal ptr level true (zero_range ptr (block_size level) s)
  acct' ← uncommit_for level merged_level reserved t.acct
  ok (record t { acct = acct' })

-- `NULL` is 0.
unfoldable pub free : (ptr size : ℕ) → Phys → Run Phys
free ptr size s =
    if ptr == 0
    then ok s
    else elim (get_level_by_size size) [ none ↦ halt | some level ↦ free_block ptr level false s ]

unfoldable pub free_reserved : (ptr size : ℕ) → Phys → Run Phys
free_reserved ptr size s = if ptr == 0 then ok s else elim (get_page_level_by_size size) [
  | none ↦ halt
  | some level ↦ free_block ptr level true s
]

-- The levels below `i`, from the top down: the first that is aligned and fits.
unfoldable pub best_level_below : (i start end : ℕ) → Option ℕ
best_level_below zero start end = none
best_level_below (suc i) start end =
    let lower = best_level_below i start end in
    if ltb end (add_u64 start (block_size i))
    then lower
    else if start % block_size i == 0
    then some i
    else lower

unfoldable pub get_best_level_for_block : (start end : ℕ) → Option ℕ
unfolding best_level_below
get_best_level_for_block start end = best_level_below max_level start end

-- The loop of `phys_add_memory`: `none` when its fuel runs out before it ends.
unfoldable pub add_blocks : (fuel start end : ℕ) → Phys → Run (Option Phys)
add_blocks zero start end s = if ltb start end then ok none else ok (some s)
add_blocks (suc f) start end s =
    if ltb start end
    then elim (get_best_level_for_block start end) [
      | none ↦ halt
      | some level ↦
          free_internal start level false s >>= λ r. add_blocks f (start + block_size level) end r.1
    ]
    else ok (some s)

-- With its memory, the pages of the range are counted.
abbrev pub count_added : (page_count : ℕ) → Option Phys → Run Phys
count_added page_count none = halt
count_added page_count (some s) = ok (record s { acct = add_total page_count s.acct })

-- One round for each page of the range.
unfoldable pub add_memory : (start end : ℕ) → Phys → Run Phys
add_memory start end s = do
  assert (start % 4096 == 0 && end % 4096 == 0)
  let page_count = sub_u64 end start / 4096
  t ← add_blocks page_count start end (zero_range start (sub_u64 end start) s)
  count_added page_count t
