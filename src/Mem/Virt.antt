-- ===== src/Mem/Virt.antt =====
-- src/mem/virt.c: the page tables. A table is its words in the direct map, a word is 64 bits, and a
-- flag that is added to a frame's address, which is a multiple of 4096, is a sum. What the code asks
-- of phys.c and accounting.c is the argument `frames`. Another core may store into an entry between
-- the load and the exchange of a walk: `race` says what it stores there, if anything. The words of a
-- page that phys.c holds are read as the zeros that it hands the page out with. The `DEBUG_ASSERT` of
-- `virt_populate` is not compiled in.
pub mod Walk
pub mod Reserve
pub mod Populate
pub mod Fault
pub mod Resolve
pub mod Kernel
pub mod Tests
use tomato.Base.{
  ℕ, zero, suc, ◌+◌, ◌-◌, ◌*◌, ◌/◌, ◌%◌, ◌^◌, ◌≡◌, Bool, true, false, not, Option, none, some, Run,
  ok, halt, ◌>>=◌, ◌>>◌, assert, if◌then◌else◌, leb, ◌==◌, update, Err, success, out_of_resources,
}

pub record Frames (State : Type 0) : Type 0 where
  -- `phys_alloc(PAGE_SIZE)`, `phys_alloc_reserved(PAGE_SIZE)` and `phys_free(page, PAGE_SIZE)`
  pub phys_alloc_page : State → Option ℕ × State
  pub phys_alloc_reserved_page : State → Option ℕ × State
  pub phys_free_page : ℕ → State → State
  pub mem_acct_reserve : ℕ → State → Err × State
  pub mem_acct_unreserve : ℕ → State → State

-- `g_page_table`, `g_page_table_levels`, the base of the direct map, `vmar_end(&g_user_region)`, and the
-- words of the tables
pub record Paging : Type 0 where
  pub page_table : ℕ
  pub page_table_levels : ℕ
  pub direct_base : ℕ
  pub user_end : ℕ
  pub word : ℕ → ℕ

abbrev pub store : (entry value : ℕ) → Paging → Paging
store entry value p = record p { word = update p.word entry value }

-- `value & IA32_PG_P`
abbrev pub is_present : ℕ → Bool
is_present value = value % 2 == 1

-- `value & IA32_PG_G`
abbrev pub is_global : ℕ → Bool
is_global value = value / 256 % 2 == 1

-- `value & PAGING_4K_ADDRESS_MASK`
abbrev pub address_of : ℕ → ℕ
address_of value = value % 2 ^ 52 / 4096 * 4096

-- `phys_to_direct(value & PAGING_4K_ADDRESS_MASK)`
abbrev pub frame_of : Paging → ℕ → ℕ
frame_of p value = p.direct_base + address_of value

abbrev pub virt_is_user_address : Paging → ℕ → Bool
virt_is_user_address p addr = leb addr p.user_end

-- The entry for a new table: `IA32_PG_P | IA32_PG_RW`, and `IA32_PG_U` for the user.
abbrev pub table_entry : (user : Bool) → (page direct_base : ℕ) → ℕ
table_entry user page direct_base = page - direct_base + (if user then 7 else 3)

-- `IA32_PG_P | IA32_PG_A | IA32_PG_RW | IA32_PG_D | IA32_PG_NX`, and `IA32_PG_G`, `IA32_PG_U`
abbrev pub page_flags : (global user : Bool) → ℕ
page_flags global user =
    2 ^ 63 + 64 + 32 + 2 + 1 + (if global then 256 else 0) + (if user then 4 else 0)

-- `(virt >> shift) & PAGING_INDEX_MASK`, for the shift of the level
abbrev pub index_at : (level virt : ℕ) → ℕ
index_at level virt = virt / 2 ^ (9 * level + 12) % 512

-- `&table[index]`
abbrev pub entry_at : (level virt table : ℕ) → ℕ
entry_at level virt table = table + 8 * index_at level virt

-- `base + i * PAGE_SIZE`
abbrev pub page_at : (base i : ℕ) → ℕ
page_at base i = base + i * 4096

module _ {State : Type 0} (frames : Frames State) (race : ℕ → Option ℕ) where
  abbrev pub World : Type 0
  World = Paging × State

  abbrev pub Found : Type 0
  Found = Option ℕ × Paging × State

  -- The compare-exchange of the new entry, which the other core's store makes fail.
  unfoldable pub exchange : (entry page new_entry : ℕ) → Option ℕ → World → Run Found
  exchange entry page new_entry none (p, m) =
      assert (is_present new_entry) >> ok (some (frame_of p new_entry), store entry new_entry p, m)
  exchange entry page new_entry (some value) (p, m) =
      assert (is_present value)
      >> ok (some (frame_of p value), store entry value p, frames.phys_free_page page m)

  -- With the page for a new table, if there is one.
  abbrev pub new_level : (entry : ℕ) (user : Bool) → Paging → Option ℕ × State → Run Found
  new_level entry user p (none, m) = ok (none, p, m)
  new_level entry user p (some phys, m) =
      exchange entry phys (table_entry user phys p.direct_base) (race entry) (p, m)

  unfoldable pub virt_get_next_level : (entry : ℕ) (alloc user : Bool) → World → Run Found
  virt_get_next_level entry alloc user (p, m) =
      if is_present (p.word entry)
      then ok (some (frame_of p (p.word entry)), p, m)
      else assert alloc >> new_level entry user p (frames.phys_alloc_page m)

  -- The loop of `virt_get_pte`, from a level down.
  unfoldable pub walk : (level virt : ℕ) (alloc user : Bool) (table : ℕ) → World → Run Found
  walk zero virt alloc user table (p, m) = ok (some (entry_at 0 virt table), p, m)
  walk (suc level) virt alloc user table w =
      virt_get_next_level (entry_at (suc level) virt table) alloc user w >>= λ found. elim found.0 [
        | none ↦ ok (none, found.1, found.2)
        | some next ↦ walk level virt alloc user next (found.1, found.2)
      ]

  abbrev pub walk_from : (levels virt : ℕ) (alloc user : Bool) (table : ℕ) → World → Run Found
  walk_from zero virt alloc user table w = halt
  walk_from (suc top) virt alloc user table w = walk top virt alloc user table w

  unfoldable pub virt_get_pte : (virt : ℕ) (alloc : Bool) → World → Run Found
  virt_get_pte virt alloc (p, m) =
      walk_from p.page_table_levels virt alloc (virt_is_user_address p virt) p.page_table (p, m)

  -- `virt_get_pte(addr, false)` with its check for null
  unfoldable pub with_pte : (virt : ℕ) → (ℕ → World → Run World) → World → Run World
  with_pte virt body w = virt_get_pte virt false w >>= λ found. elim found.0 [
    | none ↦ halt
    | some pte ↦ body pte (found.1, found.2)
  ]

  -- A loop over pages, from the page `i` on.
  unfoldable pub each_page : (rounds base i : ℕ) → (ℕ → World → Run World) → World → Run World
  each_page zero base i body w = ok w
  each_page (suc rounds) base i body w =
      with_pte (page_at base i) body w >>= λ next. each_page rounds base (suc i) body next

  unfoldable pub make_global : (pte : ℕ) → World → Run World
  make_global pte (p, m) =
      let value = p.word pte in
      ok (
        (if is_present value
            then store pte (if is_global value then value else value + 256) p
            else p),
        m,
      )

  unfoldable pub virt_make_global : (base page_count : ℕ) → World → Run World
  virt_make_global base page_count w = each_page page_count base 0 make_global w

  -- The loop of `virt_reserve_page_tables`, which stops at the first page that has no entry.
  unfoldable pub reserve_tables : (rounds base i : ℕ) → World → Run (Err × Paging × State)
  reserve_tables zero base i (p, m) = ok (success, p, m)
  reserve_tables (suc rounds) base i w = virt_get_pte (page_at base i) true w >>= λ found.
      elim found.0 [
        | none ↦ ok (out_of_resources, found.1, found.2)
        | some pte ↦ reserve_tables rounds base (suc i) (found.1, found.2)
      ]

  -- An error gives the reservation back.
  abbrev pub keep_reserved : ℕ → Err × Paging × State → Err × Paging × State
  keep_reserved page_count (success, p, m) = (success, p, m)
  keep_reserved page_count (err, p, m) = (err, p, frames.mem_acct_unreserve page_count m)

  abbrev pub reserve_from :
      (base page_count : ℕ) → Paging → Err × State → Run (Err × Paging × State)
  reserve_from base page_count p (success, m) =
      reserve_tables page_count base 0 (p, m) >>= λ result. ok (keep_reserved page_count result)
  reserve_from base page_count p (err, m) = ok (err, p, m)

  unfoldable pub virt_reserve_page_tables :
      (base page_count : ℕ) → World → Run (Err × Paging × State)
  virt_reserve_page_tables base page_count (p, m) =
      reserve_from base page_count p (frames.mem_acct_reserve page_count m)

  abbrev pub fill_page : (global user : Bool) (pte : ℕ) → Paging → Option ℕ × State → Run World
  fill_page global user pte p (none, m) = halt
  fill_page global user pte p (some phys, m) =
      ok (store pte (phys - p.direct_base + page_flags global user) p, m)

  -- The body of the loop of `virt_populate`.
  unfoldable pub populate_page : (global user : Bool) (pte : ℕ) → World → Run World
  populate_page global user pte (p, m) =
      if is_present (p.word pte)
      then ok (p, m)
      else fill_page global user pte p (frames.phys_alloc_reserved_page m)

  unfoldable pub virt_populate : (base page_count : ℕ) (global : Bool) → World → Run World
  virt_populate base page_count global (p, m) =
      each_page page_count base 0 (populate_page global (virt_is_user_address p base)) (p, m)

  -- The first loop of `virt_free`: the present bit goes, the address stays, and the pages that were
  -- never populated are counted.
  unfoldable pub invalidate : (rounds base i early_unreserve : ℕ) → World → Run (ℕ × Paging × State)
  invalidate zero base i early_unreserve (p, m) = ok (early_unreserve, p, m)
  invalidate (suc rounds) base i early_unreserve w =
      virt_get_pte (page_at base i) false w >>= λ found. elim found.0 [
        | none ↦ halt
        | some pte ↦
            let value = found.1.word pte in
            assert (not (is_global value))
            >> (if value == 0
                then invalidate rounds base (suc i) (early_unreserve + 1) (found.1, found.2)
                else invalidate rounds base (suc i) early_unreserve
                    (store pte (address_of value) found.1, found.2))
      ]

  -- The body of the second loop.
  unfoldable pub free_page : (pte : ℕ) → World → Run World
  free_page pte (p, m) =
      let value = p.word pte in
      if value == 0
      then ok (p, m)
      else assert (address_of value == value)
        >> ok (store pte 0 p, frames.phys_free_page (frame_of p value) m)

  unfoldable pub virt_free : (base page_count : ℕ) → World → Run World
  virt_free base page_count w = invalidate page_count base 0 0 w >>= λ gone.
      each_page page_count base 0 free_page (gone.1, frames.mem_acct_unreserve gone.0 gone.2)
