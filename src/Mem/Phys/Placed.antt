-- ===== src/Mem/Phys/Placed.antt =====
-- src/mem/phys.c, `phys_free_internal`: where a freed block ends up, and which blocks it merges with.
use tomato.Base.{
  ℕ, ◌+◌, ◌-◌, ◌*◌, ◌/◌, ◌%◌, ◌≤◌, ◌<◌, ◌≡◌, ◌≢◌, ◌⊎◌, ◌∷◌, true, ◌==◌, if◌then◌else◌,
}
use tomato.Mem.Phys.{Phys, block_size, is_block_free, max_level}
use tomato.Mem.Phys.FreeLists.{hlist_del}

-- The block of the level that an address lies in.
abbrev pub block_around : (level ptr : ℕ) → ℕ
block_around level ptr = ptr / block_size level * block_size level

-- The other half of the block of the next level.
abbrev pub IsOtherHalf : (level ptr half : ℕ) → Type 0
IsOtherHalf level ptr half =
    (half % block_size level ≡ 0)
    × (half ≢ block_around level ptr)
    × (block_around (level + 1) half ≡ block_around (level + 1) ptr)

-- A multiple of `b`, its half among the multiples of `b * 2`, and its neighbor.
module _ (b ptr : ℕ) (some_byte : 1 ≤ b) (a : ptr % b ≡ 0) where
  abbrev quotient : ℕ
  quotient = ptr / b

  abbrev toggled : ℕ
  toggled = if quotient % 2 == 0 then ptr + b else ptr - b

-- The block at a level joins the other half, which is taken off the list of the level.
abbrev pub Joins : (level ptr : ℕ) → Phys → Phys → Type 0
Joins level ptr s t =
    (half : ℕ) × IsOtherHalf level ptr half
    × (is_block_free half s ≡ true)
    × (t.levels level ≡ hlist_del half (s.levels level))

-- Where the loop of the merging ends.
record IsMerged (level ptr top : ℕ) (s : Phys) (result : ℕ × ℕ × Phys) : Type 0 where
  up : level ≤ result.0
  below : result.0 ≤ top
  block : result.1 ≡ block_around result.0 ptr
  joins : (j : ℕ) → level ≤ j → j < result.0 → Joins j ptr s result.2
  others : (j : ℕ) → (j < level) ⊎ (result.0 ≤ j) → result.2.levels j ≡ s.levels j

-- What a free does to the lists: the block of the level that is returned, around the freed one, is the first on the list of that
-- level and has the level in its header. On the way up to it the other half of each level was free,
-- and has left its list.
pub record IsPut (level ptr : ℕ) (s : Phys) (result : ℕ × Phys) : Type 0 where
  pub up : level ≤ result.0
  pub below : result.0 < max_level
  pub put : result.1.levels result.0 ≡ block_around result.0 ptr ∷ s.levels result.0
  pub tagged : result.1.header (block_around result.0 ptr) ≡ result.0
  pub joins : (j : ℕ) → level ≤ j → j < result.0 → Joins j ptr s result.1
  pub others : (j : ℕ) → (j < level) ⊎ (result.0 < j) → result.1.levels j ≡ s.levels j
