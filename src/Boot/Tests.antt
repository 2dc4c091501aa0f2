-- ===== src/Boot/Tests.antt =====
-- Runs of src/boot.
use tomato.Base.{
  add_u64, ℕ, ltb, if◌then◌else◌, true, false, Option, some, none, ◌==◌, success, ◌+◌, ◌*◌, ◌/◌,
  ◌≤◌, ◌<◌, ◌≡◌, refl, List, [], ◌∷◌, Run, ok, Returns, ◌>>=◌, arith, inl, inr,
}
use tomato.Boot.Early.{
  MemmapEntry, usable, reclaimable, reserved, EarlyAlloc, early_phys_alloc_page,
  early_alloc_find_next_entry, early_phys_add_memory, add_entries,
}
use tomato.Mem.Accounting.{add_total, add_committed}
use tomato.Mem.Phys.Bitmap.{bit_at, bit_set}
use tomato.Mem.Phys.{
  Phys, add_memory, add_blocks, get_best_level_for_block, best_level_below, free_internal,
  mark_freed, merge, put_block, take_block, set_block_free, is_block_free, zero_range,
}
use tomato.Boot.Next.{IsMap, usable_bytes, below}
use tomato.Boot.Handed.{IsEarly, Handed, early_phys_alloc_page-Handed}
use tomato.Boot.Tables.{bitmap_page_count, bitmap_start, bitmap_end, min_block}
use tomato.Boot.Tables.{early_virt_get_pte, map_entry_bitmap}
use tomato.Mem.Virt.{Paging, Frames, virt_get_pte}
use tomato.Mem.Virt.Populate.{IsMapped}
use tomato.Boot.Walk.{IsPhysical, IsBooting}
use tomato.Boot.Filled.{early_virt_get_pte-virt_get_pte}
use tomato.Boot.Covered.{map_entry_bitmap-IsMapped}
use tomato.Boot.Cores.{start_cores, occurrences, core_count, start_cores-numbers}
use tomato.Boot.Bitmap.{bitmap_covers_buddies}
use tomato.Boot.Account.{early_phys_add_memory-total}

-- Two usable pages, a hole, and three usable pages behind memory of the bootloader.
abbrev memmap : List MemmapEntry
memmap = usable 4096 8192 ∷ reserved 12288 4096 ∷ reclaimable 16384 4096 ∷ usable 20480 12288 ∷ []

memmap-IsMap : IsMap 0 memmap
memmap-IsMap = (
  record {
    sorted = omega arith;
    aligned = refl;
    pages = refl;
    some_page = omega arith;
    bounded = omega arith;
  },
  (
    record {
      sorted = omega arith;
      aligned = refl;
      pages = refl;
      some_page = omega arith;
      bounded = omega arith;
    },
    tt,
  ),
)

-- Before the first page, and at the end of the first entry.
abbrev fresh : EarlyAlloc
fresh = record { top = 0; size = 0; page_count = 0 }

abbrev spent : EarlyAlloc
spent = record { top = 12288; size = 0; page_count = 2 }

spent-IsEarly : IsEarly memmap spent
unfolding below
spent-IsEarly = record {
  stands = inr (inr (omega arith, inl (refl, omega arith)));
  counted = refl;
  aligned = refl;
  pages = refl;
}

early_phys_alloc_page-Handed_example :
    Returns (λ r. Handed memmap spent r.0 r.1) (early_phys_alloc_page memmap spent)
unfolding usable_bytes
early_phys_alloc_page-Handed_example =
    early_phys_alloc_page-Handed memmap spent memmap-IsMap spent-IsEarly (omega arith)

-- No memory yet.
abbrev nothing : Phys
nothing = record {
  levels = λ _. [];
  header = λ _. 0;
  bitmap = λ _. 0;
  direct_base = 1048576;
  acct = record { available = 0; total = 0; committed = 0; reserved = 0 };
}

early_phys_add_memory-total_example :
    Returns
      (λ m. m.acct.total ≡ add_u64 0 (usable_bytes memmap / 4096))
      (early_phys_add_memory 1048576 memmap spent nothing)
early_phys_add_memory-total_example =
    early_phys_add_memory-total 1048576 memmap spent nothing refl (omega arith) memmap-IsMap
      (omega arith, (omega arith, tt)) spent-IsEarly

-- Three pages, and then the total.
abbrev boot : Run (ℕ × ℕ × ℕ × ℕ)
unfolding early_phys_alloc_page early_alloc_find_next_entry early_phys_add_memory add_entries
boot = early_phys_alloc_page memmap fresh >>= λ first.
    early_phys_alloc_page memmap first.1 >>= λ second.
    early_phys_alloc_page memmap second.1 >>= λ third.
    early_phys_add_memory 1048576 memmap third.1 nothing >>= λ m.
    ok (first.0, second.0, third.0, m.acct.total)

run_boot : boot ≡ ok (4096, 8192, 20480, 5)
unfolding early_phys_alloc_page early_alloc_find_next_entry early_phys_add_memory add_entries
    add_memory add_blocks get_best_level_for_block best_level_below free_internal mark_freed merge
    put_block take_block set_block_free is_block_free bit_at bit_set zero_range add_total
    add_committed
run_boot = refl

-- The second byte of the last entry, and the block at the start of memory.
bitmap_covers_buddies_example :
    (bitmap_start 20480 ≤ 0 / min_block / 8)
    × (0 / min_block / 8 < bitmap_end 20480 12288)
    × (0 / min_block / 8 < bitmap_page_count 8 * 4096)
bitmap_covers_buddies_example =
    bitmap_covers_buddies 20480 12288 8 20481 0 (omega arith) (omega arith) (omega arith)
      (omega arith) refl

-- Forty usable pages, the first of which is the root of four levels of tables.
abbrev large : List MemmapEntry
large = usable 4096 163840 ∷ []

large-IsMap : IsMap 0 large
large-IsMap = (
  record {
    sorted = omega arith;
    aligned = refl;
    pages = refl;
    some_page = omega arith;
    bounded = omega arith;
  },
  tt,
)

large-IsPhysical : IsPhysical large
large-IsPhysical = (omega arith, tt)

abbrev root : ℕ
root = 1052672

abbrev rooted : EarlyAlloc × Paging
rooted = (
  record { top = 8192; size = 159744; page_count = 1 },
  record {
    page_table = root;
    page_table_levels = 4;
    direct_base = 1048576;
    user_end = 0;
    word = λ _. 0;
  },
)

abbrev root_level : ℕ → Option ℕ
root_level t = if t == root then some 3 else none

rooted-IsBooting : IsBooting large large-IsMap large-IsPhysical 3 root_level rooted
unfolding below
rooted-IsBooting = record {
  tables = record {
    aligned = λ t k e. ground arith;
    below = λ t k e. ground arith;
    root = refl;
    levels = refl;
    base = refl;
    next = λ t i k e h present. let clash : false ≡ true = present in cc clash;
  };
  early = record {
    stands = inr (inl (omega arith, refl));
    counted = refl;
    aligned = refl;
    pages = refl;
  };
}

-- The pages of the kernel's allocator are not asked for.
abbrev no_frames : Frames ℕ
no_frames = record {
  phys_alloc_page = λ m. (none, m);
  phys_alloc_reserved_page = λ m. (none, m);
  phys_free_page = λ page m. m;
  mem_acct_reserve = λ n m. (success, m);
  mem_acct_unreserve = λ n m. m;
}

early_virt_get_pte-virt_get_pte_example :
    Returns
      (λ t.
        virt_get_pte no_frames (λ _. none) 140737488355328 false (t.1.1, 0)
        ≡ ok (some t.0, t.1.1, 0))
      (early_virt_get_pte large 140737488355328 rooted)
unfolding usable_bytes
early_virt_get_pte-virt_get_pte_example =
    early_virt_get_pte-virt_get_pte large large-IsMap large-IsPhysical 3 no_frames (λ _. none) false
      0 root_level 140737488355328 rooted rooted-IsBooting (omega arith)

-- The bitmap of the block that ends the first max-sized block.
map_entry_bitmap-IsMapped_example :
    Returns
      (λ v. IsMapped v.1 (140737488355328 + 2097088 / min_block / 8 / 4096 * 4096))
      (map_entry_bitmap large 140737488355328 4096 163840 rooted)
unfolding usable_bytes bitmap_start bitmap_end
map_entry_bitmap-IsMapped_example =
    map_entry_bitmap-IsMapped large large-IsMap large-IsPhysical 3 root_level 140737488355328 4096
      163840 5000 2097088 rooted rooted-IsBooting (omega arith) (omega arith) (omega arith)
      (omega arith) refl

-- The second of three cores boots.
start_cores-numbers_example :
    occurrences 2 (start_cores 7 (some (3 ∷ 7 ∷ 9 ∷ [])))
    ≡ (if ltb 2 (core_count (3 ∷ 7 ∷ 9 ∷ [])) then 1 else 0)
unfolding occurrences
start_cores-numbers_example = start_cores-numbers 7 2 (3 ∷ 7 ∷ 9 ∷ []) refl
