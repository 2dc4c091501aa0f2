-- ===== src/Mem/Virt/Tests.antt =====
-- Runs of the page tables of src/mem/virt.c, with a small allocator.
use tomato.Base.{
  List, [], ◌∷◌, ℕ, ◌+◌, ◌-◌, ◌*◌, ◌^◌, ◌%◌, ◌≡◌, refl, false, Option, none, some, Run, ok, ltb,
  leb, ◌==◌, if◌then◌else◌, arith, Err, success, out_of_resources, ◌>>=◌, update,
}
use tomato.Mem.Vmar.{Tree, Store, Kind, Sign}
use tomato.Mem.Vmar.Place.{new_vmar}
use tomato.Mem.Virt.{
  reserve_tables, walk, virt_get_next_level, exchange, each_page, with_pte, populate_page,
  invalidate, free_page, Frames, Paging, virt_get_pte, virt_reserve_page_tables, virt_populate,
  virt_free,
}
use mathlib.Core.List.{Mem}
use tomato.Mem.Phys.{Phys, alloc_reserved}
use tomato.Mem.Virt.Walk.{StoresTables, IsSound}

-- The pages that are available, the pages that are reserved, and the pages that were handed out.
pub record Pool : Type 0 where
  pub available : ℕ
  pub reserved : ℕ
  pub used : ℕ

abbrev pub direct : ℕ
direct = 1048576

abbrev take_page : Pool → Option ℕ × Pool
take_page a =
    if ltb 0 a.available
    then (
      some (direct + a.used * 4096),
      record a { available = a.available - 1; used = a.used + 1 },
    )
    else (none, a)

abbrev take_reserved : Pool → Option ℕ × Pool
take_reserved a =
    if ltb 0 a.reserved
    then (some (direct + a.used * 4096), record a { reserved = a.reserved - 1; used = a.used + 1 })
    else (none, a)

abbrev keep_pages : ℕ → Pool → Err × Pool
keep_pages n a =
    if leb n a.available
    then (success, record a { available = a.available - n; reserved = a.reserved + n })
    else (out_of_resources, a)

abbrev pub pool : Frames Pool
pool = record {
  phys_alloc_page = take_page;
  phys_alloc_reserved_page = take_reserved;
  phys_free_page = λ page a. record a { available = a.available + 1 };
  mem_acct_reserve = keep_pages;
  mem_acct_unreserve = λ n a. record a { available = a.available + n; reserved = a.reserved - n };
}

take_page-aligned :
    (m m' : Pool) (page : ℕ) → take_page m ≡ (some page, m') → (page - direct) % 4096 ≡ 0
take_page-aligned m m' page e = ground arith

pub pool-IsSound : IsSound pool direct (λ m. m.reserved)
pool-IsSound = record {
  aligned = take_page-aligned;
  alloc_keeps = λ m. ground arith;
  free_keeps = λ page m. refl;
  reserve = λ n m m' e. ground arith;
  refuse = λ n m m' err e f. ground arith;
  unreserve = λ n m h. omega arith;
  alloc_reserved = λ m h. (
    direct + m.used * 4096,
    record m { reserved = m.reserved - 1; used = m.used + 1 },
    ground arith,
    ground arith,
    ground arith,
  );
}

-- Four levels, and a root without entries.
abbrev empty : Paging
empty = record {
  page_table = direct;
  page_table_levels = 4;
  direct_base = direct;
  user_end = 2 ^ 47;
  word = λ _. 0;
}

abbrev ten : Pool
ten = record { available = 10; reserved = 0; used = 1 }

-- Another core fills the first entry of the root.
abbrev other_core : ℕ → Option ℕ
other_core e = if e == direct then some (20480 + 7) else none

other_core-StoresTables : StoresTables other_core
other_core-StoresTables e v h = ground arith

abbrev pub no_race : ℕ → Option ℕ
no_race _ = none

-- Two levels, with one table of pages.
abbrev pub tabled : Paging
tabled = record empty { page_table_levels = 2; word = update (λ _. 0) direct (8192 + 7) }

abbrev pub two_reserved : Pool
two_reserved = record { available = 3; reserved = 2; used = 3 }

-- After a reservation for one page, the page is mapped, and freed again.
abbrev there_and_back : Run (ℕ × ℕ × ℕ)
unfolding virt_reserve_page_tables reserve_tables virt_get_pte walk virt_get_next_level exchange
    virt_populate virt_free each_page with_pte populate_page invalidate free_page
there_and_back = virt_reserve_page_tables pool no_race 4096 2 (empty, ten) >>= λ r.
    virt_populate pool no_race 4096 1 false (r.1, r.2) >>= λ w.
    virt_free pool no_race 4096 2 w >>= λ (_, m). ok (m.available, m.reserved, m.used)

run_there_and_back : there_and_back ≡ ok (7, 0, 5)
unfolding virt_reserve_page_tables reserve_tables virt_get_pte walk virt_get_next_level exchange
    virt_populate virt_free each_page with_pte populate_page invalidate free_page
run_there_and_back = refl

abbrev equals : (ℕ → Sign) → List ℕ → Option ℕ
equals cmp [] = none
equals cmp (x ∷ xs) = let rest = equals cmp xs in elim (cmp x) [ Sign.equal ↦ some x | _ ↦ rest ]

-- A tree that is the sequence of its nodes, without changes to it.
abbrev pub listed : Tree
listed = record {
  rb_find = equals;
  rb_find_add = λ cmp x xs. (equals cmp xs, x ∷ xs);
  rb_find_first_fit = λ fits xs. none;
  rb_erase = λ x xs. xs;
}

-- The user region is vmar 0 with the mapping 2 of two pages at 4096, the kernel region is vmar 1.
abbrev pub vmars : Store
vmars =
    update
      (update (λ _. new_vmar Kind.region) 0
        (record (new_vmar Kind.region) { page_count = 2 ^ 20; children = 2 ∷ [] }))
      2
      (record (new_vmar Kind.mapping) {
        base = 4096;
        page_count = 2;
        parent = some 0;
        ref_count = 1;
      })

abbrev pub no_vmar : Paging × Pool → Option ℕ × (Paging × Pool)
no_vmar w = (none, w)

abbrev pub drop_vmar : ℕ → Paging × Pool → Paging × Pool
drop_vmar x w = w

-- One page in the direct map, which is free and reserved.
abbrev reserved_page : Phys
reserved_page = record {
  levels = update (λ _. []) 6 (1114112 ∷ []);
  header = update (λ _. 0) 1114112 6;
  bitmap = λ _. 0;
  direct_base = direct;
  acct = record { available = 0; total = 1; committed = 0; reserved = 1 };
}

-- Two pages, both reserved.
abbrev reserved_pages : Phys
reserved_pages = record reserved_page {
  levels = update (λ _. []) 6 (1114112 ∷ 1179648 ∷ []);
  header = update (update (λ _. 0) 1114112 6) 1179648 6;
  acct = record { available = 0; total = 2; committed = 0; reserved = 2 };
}
