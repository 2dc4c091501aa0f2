-- ===== src/Boot/Bitmap.antt =====
-- src/boot/virt.c: the part of the bitmap that `early_create_buddy_bitmap` maps for an entry.
use tomato.Base.{ℕ, ◌+◌, ◌*◌, ◌/◌, ◌≤◌, ◌<◌, ◌≡◌, u64_mod, arith}
use tomato.Boot.Tables.{bitmap_page_count, bitmap_start, bitmap_end, max_block, min_block}

-- For a byte `ptr` of an entry, the byte of the bitmap of every block in the same max-sized block, the
-- buddies that a merge looks at among them, lies in the pages that are mapped for the entry; and it
-- lies in the pages that the bitmap has, where the entry lies in a direct map that ends at least such a
-- block below 2 ^ 64.
pub bitmap_covers_buddies :
    (base length page_count ptr block : ℕ)
    → base ≤ ptr
    → ptr < base + length
    → base + length ≤ page_count * 4096
    → page_count * 4096 + max_block ≤ u64_mod
    → block / max_block ≡ ptr / max_block
    → (bitmap_start base ≤ block / min_block / 8)
      × (block / min_block / 8 < bitmap_end base length)
      × (block / min_block / 8 < bitmap_page_count page_count * 4096)
unfolding bitmap_start bitmap_end bitmap_page_count
bitmap_covers_buddies base length page_count ptr block low high fits bounded same =
    (omega arith, omega arith, omega arith)
