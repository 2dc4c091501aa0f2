-- ===== src/Boot/Tables.antt =====
-- src/boot/virt.c: the first page tables, with the kernel, the direct map and the bitmap of the buddy
-- allocator in them. The address `page` of a new page is physical. A flag that is added to an address of
-- a page is a sum.
use tomato.Base.{
  ℕ, zero, suc, ◌+◌, ◌-◌, ◌*◌, ◌/◌, ◌%◌, ◌^◌, ◌==◌, ltb, leb, ◌&&◌, List, [], ◌∷◌, Run, ok, halt,
  ◌>>=◌, ◌>>◌, assert, if◌then◌else◌, add_u64, sub_u64, u64_mod,
}
use tomato.Mem.Virt.{Paging, store, is_present, frame_of, entry_at}
use tomato.Boot.Early.{
  MemmapEntry, usable, reclaimable, reserved, EarlyAlloc, early_phys_alloc_page,
}

-- The `memset` of a new page
abbrev pub clear_page : (page : ℕ) → Paging → Paging
clear_page page p = record p {
  word = λ a. if leb page a && ltb a (page + 4096) then 0 else p.word a;
}

-- The end of the last entry that the direct map holds, from the end of the map on.
unfoldable pub top_address : List MemmapEntry → (below : ℕ) → ℕ
top_address [] below = below
top_address (usable base length ∷ rest) below = top_address rest (base + length)
top_address (reclaimable base length ∷ rest) below = top_address rest (base + length)
top_address (reserved _ _ ∷ rest) below = top_address rest below

-- `g_direct_map.page_count`
unfoldable pub init_direct_map : List MemmapEntry → ℕ
init_direct_map memmap = top_address memmap 0 / 4096

abbrev pub align_up : (x align : ℕ) → ℕ
align_up x align = add_u64 x (align - 1) / align * align

abbrev pub align_down : (x align : ℕ) → ℕ
align_down x align = x / align * align

abbrev pub div_round_up : (a b : ℕ) → ℕ
div_round_up a b = add_u64 a (b - 1) / b

-- `PHYS_BUDDY_MAX_SIZE`, and 2 to the `PHYS_BUDDY_MIN_ORDER`
abbrev pub max_block : ℕ
max_block = 2097152

abbrev pub min_block : ℕ
min_block = 64

unfoldable pub bitmap_page_count : (page_count : ℕ) → ℕ
bitmap_page_count page_count =
    div_round_up (div_round_up (align_up (page_count * 4096 % u64_mod) max_block / min_block) 8)
      4096

-- The offsets into the bitmap of the blocks of an entry.
unfoldable pub bitmap_start : (base : ℕ) → ℕ
bitmap_start base = align_down (align_down base max_block / min_block / 8) 4096

unfoldable pub bitmap_end : (base length : ℕ) → ℕ
bitmap_end base length =
    align_up (div_round_up (align_up (add_u64 base length) max_block / min_block) 8) 4096

-- `vm_perm_t`
pub data VmPerm : Type 0 where
  perm_ro perm_rw perm_rx : VmPerm

-- `IA32_PG_G`, with `IA32_PG_D | IA32_PG_RW` for data and `IA32_PG_NX` for all but code
abbrev pub vmar_flags : VmPerm → ℕ
vmar_flags perm_ro = 256 + 2 ^ 63
vmar_flags perm_rw = 256 + (64 + 2) + 2 ^ 63
vmar_flags perm_rx = 256

-- Where the bootloader has put the kernel.
pub record Executable : Type 0 where
  pub physical_base : ℕ
  pub virtual_base : ℕ

-- A part of the kernel: `base` and `page_count` of its vmar.
pub record Section : Type 0 where
  pub base : ℕ
  pub page_count : ℕ

-- `g_kernel_limine_requests_mapping` and the others that `early_map_kernel` maps
pub record KernelSections : Type 0 where
  pub limine_requests : Section
  pub init_text : Section
  pub init_rodata : Section
  pub init_data : Section
  pub text : Section
  pub rodata : Section
  pub late_rodata : Section
  pub data_ : Section

module _ (memmap : List MemmapEntry) where
  abbrev pub World : Type 0
  World = EarlyAlloc × Paging

  -- A new page, zeroed.
  unfoldable pub early_page : World → Run (ℕ × World)
  early_page (e, p) = early_phys_alloc_page memmap e >>= λ got.
      ok (got.0, (got.1, clear_page (p.direct_base + got.0) p))

  -- The entry and its table, once there is a page for it.
  abbrev pub set_table : (entry : ℕ) → ℕ × World → ℕ × World
  set_table entry (page, (e, p)) =
      let p' = store entry (page + 3) p in (frame_of p' (p'.word entry), (e, p'))

  unfoldable pub early_virt_get_next_level : (entry : ℕ) → World → Run (ℕ × World)
  early_virt_get_next_level entry (e, p) =
      if is_present (p.word entry)
      then ok (frame_of p (p.word entry), (e, p))
      else early_page (e, p) >>= λ got. ok (set_table entry got)

  -- The loop of `early_virt_get_pte`, from a level down.
  unfoldable pub early_walk : (level virt table : ℕ) → World → Run (ℕ × World)
  early_walk zero virt table w = ok (entry_at 0 virt table, w)
  early_walk (suc level) virt table w =
      early_virt_get_next_level (entry_at (suc level) virt table) w >>= λ next.
      early_walk level virt next.0 next.1

  abbrev pub early_walk_from : (levels virt table : ℕ) → World → Run (ℕ × World)
  early_walk_from zero virt table w = halt
  early_walk_from (suc top) virt table w = early_walk top virt table w

  unfoldable pub early_virt_get_pte : (virt : ℕ) → World → Run (ℕ × World)
  early_virt_get_pte virt (e, p) = early_walk_from p.page_table_levels virt p.page_table (e, p)

  abbrev pub set_entry : (value : ℕ) → ℕ × World → Run World
  set_entry value (pte, (e, p)) = assert (p.word pte == 0) >> ok (e, store pte value p)

  unfoldable pub early_virt_map : (num_pages virt phys flags : ℕ) → World → Run World
  early_virt_map zero virt phys flags w = ok w
  early_virt_map (suc num_pages) virt phys flags w = early_virt_get_pte virt w >>= λ found.
      set_entry (phys + (1 + 32) + flags) found >>= λ set.
      early_virt_map num_pages (virt + 4096) (phys + 4096) flags set

  unfoldable pub early_map_vmar : Executable → Section → VmPerm → World → Run World
  early_map_vmar executable vmar perms w =
      early_virt_map vmar.page_count vmar.base
        (add_u64 (sub_u64 vmar.base executable.virtual_base) executable.physical_base)
        (vmar_flags perms) w

  -- One part of the kernel after the other, each with its permissions.
  unfoldable pub early_map_sections : Executable → List (Section × VmPerm) → World → Run World
  early_map_sections executable [] w = ok w
  early_map_sections executable ((vmar, perms) ∷ rest) w =
      early_map_vmar executable vmar perms w >>= λ mapped. early_map_sections executable rest mapped

  unfoldable pub early_map_kernel : Executable → KernelSections → World → Run World
  early_map_kernel executable kernel w =
      early_map_sections executable
        ((kernel.limine_requests, perm_ro)
          ∷ (kernel.init_text, perm_rx)
          ∷ (kernel.init_rodata, perm_ro)
          ∷ (kernel.init_data, perm_rw)
          ∷ (kernel.text, perm_rx)
          ∷ (kernel.rodata, perm_ro)
          ∷ (kernel.late_rodata, perm_rw)
          ∷ (kernel.data_, perm_rw)
          ∷ [])
        w

  abbrev pub map_entry : (base length : ℕ) → World → Run World
  map_entry base length (e, p) =
      early_virt_map (length / 4096) (p.direct_base + base) base (2 + 64 + 2 ^ 63) (e, p)

  unfoldable pub early_map_direct_map : List MemmapEntry → World → Run World
  early_map_direct_map [] w = ok w
  early_map_direct_map (usable base length ∷ rest) w =
      map_entry base length w >>= λ mapped. early_map_direct_map rest mapped
  early_map_direct_map (reclaimable base length ∷ rest) w =
      map_entry base length w >>= λ mapped. early_map_direct_map rest mapped
  early_map_direct_map (reserved _ _ ∷ rest) w = early_map_direct_map rest w

  -- `IA32_PG_P | IA32_PG_RW | IA32_PG_NX | IA32_PG_G | IA32_PG_D | IA32_PG_A`
  abbrev pub set_bitmap : (pte : ℕ) → ℕ × World → World
  set_bitmap pte (page, (e, p)) = (e, store pte (page + (1 + 2 + 2 ^ 63) + 256 + (64 + 32)) p)

  abbrev pub bitmap_page : ℕ × World → Run World
  bitmap_page (pte, (e, p)) =
      if is_present (p.word pte)
      then ok (e, p)
      else early_page (e, p) >>= λ got. ok (set_bitmap pte got)

  -- The pages of the bitmap from an address on.
  unfoldable pub map_bitmap : (rounds bitmap_ptr : ℕ) → World → Run World
  map_bitmap zero bitmap_ptr w = ok w
  map_bitmap (suc rounds) bitmap_ptr w = early_virt_get_pte bitmap_ptr w >>= λ found.
      bitmap_page found >>= λ mapped. map_bitmap rounds (bitmap_ptr + 4096) mapped

  abbrev pub map_entry_bitmap : (bitmap_base base length : ℕ) → World → Run World
  map_entry_bitmap bitmap_base base length w =
      map_bitmap ((bitmap_end base length - bitmap_start base) / 4096)
        (bitmap_base + bitmap_start base) w

  -- The loop of `early_create_buddy_bitmap`, once the bitmap has its place.
  unfoldable pub create_bitmap : (bitmap_base : ℕ) → List MemmapEntry → World → Run World
  create_bitmap bitmap_base [] w = ok w
  create_bitmap bitmap_base (usable base length ∷ rest) w =
      map_entry_bitmap bitmap_base base length w >>= λ mapped. create_bitmap bitmap_base rest mapped
  create_bitmap bitmap_base (reclaimable base length ∷ rest) w =
      map_entry_bitmap bitmap_base base length w >>= λ mapped. create_bitmap bitmap_base rest mapped
  create_bitmap bitmap_base (reserved _ _ ∷ rest) w = create_bitmap bitmap_base rest w
