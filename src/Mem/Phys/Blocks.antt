-- ===== src/Mem/Phys/Blocks.antt =====
-- src/mem/phys.c: the bitmap as a set of free blocks, by the 64-byte unit that a block starts at.
use tomato.Base.{
  ℕ, ◌/◌, ◌%◌, ◌<◌, ◌≡◌, true, false, ◌==◌, if◌then◌else◌, update, update-cases, ap, inl, inr,
  arith,
}
use tomato.Mem.Phys.{Phys, is_block_free, set_block_free, set_block_allocated, unit_of}
use tomato.Mem.Phys.Bitmap.{bit_at, bit_set, bit_clear, bit_at-bit_set, bit_at-bit_clear}

-- The bitmap is made of bytes.
abbrev pub IsBytes : Phys → Type 0
IsBytes s = (i : ℕ) → s.bitmap i < 256

module _ (f : ℕ → ℕ) (u v : ℕ) (bytes : (i : ℕ) → f i < 256) where
  read-set :
      bit_at (update f (u / 8) (bit_set (f (u / 8)) (u % 8)) (v / 8)) (v % 8)
      ≡ (if u == v then true else bit_at (f (v / 8)) (v % 8))
  read-set = elim (update-cases f (u / 8) (bit_set (f (u / 8)) (u % 8)) (v / 8)) [
    | inl (e, here) ↦ rw here (
        ground (
          arith,
          bit_at-bit_set (f (u / 8)) (u % 8) (v % 8) (bytes (u / 8)) (omega arith) (omega arith),
          ap f e,
        ))
    | inr (n, there) ↦ rw there (ground arith)
  ]

  read-clear :
      bit_at (update f (u / 8) (bit_clear (f (u / 8)) (u % 8)) (v / 8)) (v % 8)
      ≡ (if u == v then false else bit_at (f (v / 8)) (v % 8))
  read-clear = elim (update-cases f (u / 8) (bit_clear (f (u / 8)) (u % 8)) (v / 8)) [
    | inl (e, here) ↦ rw here (
        ground (
          arith,
          bit_at-bit_clear (f (u / 8)) (u % 8) (v % 8) (bytes (u / 8)) (omega arith) (omega arith),
          ap f e,
        ))
    | inr (n, there) ↦ rw there (ground arith)
  ]

-- On a bitmap of bytes, marking a block as free or as allocated changes the answer for the unit it starts at, and for no
-- other: the bitmap is a set of units.
pub is_block_free-set :
    (p q : ℕ) (s : Phys)
    → IsBytes s
    → (is_block_free p (set_block_free q s)
        ≡ (if unit_of q s == unit_of p s then true else is_block_free p s))
      × (is_block_free p (set_block_allocated q s)
          ≡ (if unit_of q s == unit_of p s then false else is_block_free p s))
unfolding is_block_free set_block_free set_block_allocated
is_block_free-set p q s bytes = (
  read-set s.bitmap (unit_of q s) (unit_of p s) bytes,
  read-clear s.bitmap (unit_of q s) (unit_of p s) bytes,
)
