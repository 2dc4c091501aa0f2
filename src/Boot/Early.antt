-- ===== src/Boot/Early.antt =====
-- src/boot/virt.c: the allocator of single pages that the boot uses, over the memory map of the
-- bootloader, and the handover of the rest to the physical allocator. The map is there, as the asserts on
-- the bootloader's answer check.
use tomato.Base.{
  ℕ, ◌+◌, ◌%◌, ◌==◌, ltb, List, [], ◌∷◌, Run, ok, halt, ◌>>=◌, ◌>>◌, assert, if◌then◌else◌, add_u64,
  sub_u64,
}
use tomato.Mem.Accounting.{add_committed}
use tomato.Mem.Phys.{Phys, add_memory}

-- An entry by its type: `LIMINE_MEMMAP_USABLE`, `LIMINE_MEMMAP_BOOTLOADER_RECLAIMABLE`, or another one.
pub data MemmapEntry : Type 0 where
  usable reclaimable reserved : (base length : ℕ) → MemmapEntry

-- `m_early_alloc_top`, `m_early_alloc_size` and `m_early_alloc_page_count`
pub record EarlyAlloc : Type 0 where
  pub top : ℕ
  pub size : ℕ
  pub page_count : ℕ

-- The first usable entry from the top on.
unfoldable pub early_alloc_find_next_entry : List MemmapEntry → EarlyAlloc → Run EarlyAlloc
early_alloc_find_next_entry [] e = halt
early_alloc_find_next_entry (usable base length ∷ rest) e =
    let later = early_alloc_find_next_entry rest e in
    if ltb base e.top
    then later
    else assert (base % 4096 == 0)
      >> assert (length % 4096 == 0)
      >> ok (record e { top = base; size = length })
early_alloc_find_next_entry (reclaimable _ _ ∷ rest) e = early_alloc_find_next_entry rest e
early_alloc_find_next_entry (reserved _ _ ∷ rest) e = early_alloc_find_next_entry rest e

abbrev pub take_top : EarlyAlloc → ℕ × EarlyAlloc
take_top e = (
  e.top,
  record e {
    top = add_u64 e.top 4096;
    size = sub_u64 e.size 4096;
    page_count = add_u64 e.page_count 1;
  },
)

-- The physical address of the page; `clear_page` of the page tables is its `memset`.
unfoldable pub early_phys_alloc_page : List MemmapEntry → EarlyAlloc → Run (ℕ × EarlyAlloc)
early_phys_alloc_page memmap e =
    (if e.size == 0 then early_alloc_find_next_entry memmap e else ok e) >>= λ found.
    ok (take_top found)

module _ (direct_base : ℕ) where
  unfoldable pub add_entries : List MemmapEntry → (top : ℕ) → Phys → Run Phys
  add_entries [] top m = ok m
  add_entries (usable base length ∷ rest) top m =
      let end = add_u64 base length in
      if ltb end top
      then add_entries rest top m
      else add_memory (direct_base + (if ltb base top then top else base)) (direct_base + end) m
        >>= λ added. add_entries rest top added
  add_entries (reclaimable _ _ ∷ rest) top m = add_entries rest top m
  add_entries (reserved _ _ ∷ rest) top m = add_entries rest top m

  unfoldable pub early_phys_add_memory : List MemmapEntry → EarlyAlloc → Phys → Run Phys
  early_phys_add_memory memmap e m = add_entries memmap e.top m >>= λ added.
      ok (record added { acct = add_committed e.page_count added.acct })
