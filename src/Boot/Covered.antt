-- ===== src/Boot/Covered.antt =====
-- src/boot/virt.c: after `early_create_buddy_bitmap` the bitmap of the blocks of an entry is mapped.
use tomato.Base.{
  ℕ, ◌^◌, zero, suc, ◌+◌, ◌-◌, ◌*◌, ◌/◌, ◌≤◌, ◌<◌, ◌≡◌, sym, subst, Option, arith, Run, ok, halt,
  Returns, ◌>>=◌, List,
}
use tomato.Mem.Virt.{Paging}
use tomato.Mem.Virt.Reserve.{LeadsFrom}
use tomato.Mem.Virt.Populate.{IsMapped}
use tomato.Boot.Early.{MemmapEntry, EarlyAlloc}
use tomato.Boot.Next.{IsMap, usable_bytes}
use tomato.Boot.Tables.{
  bitmap_page, map_bitmap, map_entry_bitmap, bitmap_start, bitmap_end, max_block, min_block,
}
use tomato.Boot.Bitmap.{bitmap_covers_buddies}
use tomato.Boot.Walk.{IsPhysical, IsBooting, After, after_none, after_both, Walked}
use tomato.Boot.Filled.{
  IsFilled, IsFilled-After, Mapped, bitmap_page-Mapped, early_virt_get_pte-Walked,
}

module _ (memmap : List MemmapEntry) (is_map : IsMap 0 memmap) (physical : IsPhysical memmap)
    (top : ℕ) where
  -- The pages from an address on are mapped.
  abbrev AllFilled : (lv : ℕ → Option ℕ) → Paging → (rounds ptr : ℕ) → Type 0
  AllFilled lv p zero ptr = Unit
  AllFilled lv p (suc rounds) ptr =
      IsFilled memmap is_map physical top lv p ptr × AllFilled lv p rounds (ptr + 4096)

  AllFilled-at :
      (lv : ℕ → Option ℕ) (p : Paging) (rounds ptr i : ℕ)
      → i < rounds
      → AllFilled lv p rounds ptr
      → IsFilled memmap is_map physical top lv p (ptr + i * 4096)
  AllFilled-at lv p zero ptr i h a = absurd (omega arith)
  AllFilled-at lv p (suc rounds) ptr zero h (f, a) =
      let same : ptr ≡ ptr + 0 * 4096 = omega arith in
      subst (IsFilled memmap is_map physical top lv p) same f
  AllFilled-at lv p (suc rounds) ptr (suc i) h (f, a) =
      let same : ptr + 4096 + i * 4096 ≡ ptr + suc i * 4096 = omega arith in
      subst (IsFilled memmap is_map physical top lv p) same
        (AllFilled-at lv p rounds (ptr + 4096) i (omega arith) a)

  record MappedAll (lv : ℕ → Option ℕ) (rounds ptr : ℕ) (w v : EarlyAlloc × Paging) : Type 0 where
    after : After memmap is_map physical top lv (rounds * suc top) w v
    filled : AllFilled after.now v.1 rounds ptr

  MappedAll-after :
      (lv : ℕ → Option ℕ) (rounds ptr : ℕ) (w v : EarlyAlloc × Paging)
      (r : Run (EarlyAlloc × Paging))
      → (f : Mapped memmap is_map physical top lv ptr w v)
      → Returns (MappedAll f.after.now rounds (ptr + 4096) v) r
      → Returns (MappedAll lv (suc rounds) ptr w) r
  MappedAll-after lv rounds ptr w v halt f m = m
  MappedAll-after lv rounds ptr w v (ok u) f m = record {
    after =
        after_both memmap is_map physical top lv (suc top) (rounds * suc top) (suc rounds * suc top)
          w v u f.after m.after (omega arith);
    filled = (
      IsFilled-After memmap is_map physical top f.after.now (rounds * suc top) ptr v u f.after.ready
          m.after f.filled,
      m.filled,
    );
  }

  map-step :
      (lv : ℕ → Option ℕ) (rounds ptr : ℕ) (w : EarlyAlloc × Paging) (r : Run (EarlyAlloc × Paging))
      → (w.0.page_count + suc rounds * suc top) * 4096 ≤ usable_bytes memmap
      → ((lv' : ℕ → Option ℕ) (v : EarlyAlloc × Paging)
          → IsBooting memmap is_map physical top lv' v
          → (v.0.page_count + rounds * suc top) * 4096 ≤ usable_bytes memmap
          → Returns (MappedAll lv' rounds (ptr + 4096) v) (map_bitmap memmap rounds (ptr + 4096) v))
      → Returns (Mapped memmap is_map physical top lv ptr w) r
      → Returns
          (MappedAll lv (suc rounds) ptr w)
          (r >>= λ mapped. map_bitmap memmap rounds (ptr + 4096) mapped)
  map-step lv rounds ptr w halt room later f = f
  map-step lv rounds ptr w (ok v) room later f =
      let spent = f.after.spent in
      MappedAll-after lv rounds ptr w v _ f (later f.after.now v f.after.ready (omega arith))

  found-step :
      (lv : ℕ → Option ℕ) (rounds ptr : ℕ) (w : EarlyAlloc × Paging)
      (r : Run (ℕ × (EarlyAlloc × Paging)))
      → (w.0.page_count + suc rounds * suc top) * 4096 ≤ usable_bytes memmap
      → ((lv' : ℕ → Option ℕ) (v : EarlyAlloc × Paging)
          → IsBooting memmap is_map physical top lv' v
          → (v.0.page_count + rounds * suc top) * 4096 ≤ usable_bytes memmap
          → Returns (MappedAll lv' rounds (ptr + 4096) v) (map_bitmap memmap rounds (ptr + 4096) v))
      → Returns (Walked memmap is_map physical top lv top ptr w.1.page_table w) r
      → Returns (MappedAll lv (suc rounds) ptr w) (
          r >>= λ found.
          bitmap_page memmap found >>= λ mapped. map_bitmap memmap rounds (ptr + 4096) mapped)
  found-step lv rounds ptr w halt room later k = k
  found-step lv rounds ptr w (ok (pte, (e, p))) room later k =
      let spent = k.after.spent in
      map-step lv rounds ptr w _ room later
        (bitmap_page-Mapped memmap is_map physical top lv ptr pte w e p k (omega arith))

  map_bitmap-MappedAll :
      (rounds ptr : ℕ) (lv : ℕ → Option ℕ) (w : EarlyAlloc × Paging)
      → IsBooting memmap is_map physical top lv w
      → (w.0.page_count + rounds * suc top) * 4096 ≤ usable_bytes memmap
      → Returns (MappedAll lv rounds ptr w) (map_bitmap memmap rounds ptr w)
  unfolding map_bitmap
  map_bitmap-MappedAll zero ptr lv w b room = record {
    after = after_none memmap is_map physical top lv (0 * suc top) w b;
    filled = tt;
  }
  map_bitmap-MappedAll (suc rounds) ptr lv w b room =
      found-step lv rounds ptr w _ room (map_bitmap-MappedAll rounds (ptr + 4096))
        (early_virt_get_pte-Walked memmap is_map physical top lv ptr w b (omega arith))

  IsFilled-IsMapped :
      (lv : ℕ → Option ℕ) (virt : ℕ) (w : EarlyAlloc × Paging)
      → IsBooting memmap is_map physical top lv w
      → IsFilled memmap is_map physical top lv w.1 virt
      → IsMapped w.1 virt
  IsFilled-IsMapped lv virt w b f = (
    f.pte,
    subst (λ n. LeadsFrom w.1 n virt w.1.page_table f.pte) (sym b.tables.levels) f.leads,
    f.present,
  )

  covered :
      (lv : ℕ → Option ℕ) (rounds ptr i : ℕ) (w : EarlyAlloc × Paging)
      (r : Run (EarlyAlloc × Paging))
      → i < rounds
      → Returns (MappedAll lv rounds ptr w) r
      → Returns (λ v. IsMapped v.1 (ptr + i * 4096)) r
  covered lv rounds ptr i w halt h m = m
  covered lv rounds ptr i w (ok v) h m =
      IsFilled-IsMapped m.after.now (ptr + i * 4096) v m.after.ready
        (AllFilled-at m.after.now v.1 rounds ptr i h m.filled)

  -- On a sorted map of whole usable pages below 2 ^ 52, with tables in the state that the boot keeps them
  -- in and a page left for each page of the bitmap and for each level above it: the loop of
  -- `early_create_buddy_bitmap` returns for an entry that ends at or below 2 ^ 52, and the page of the bitmap that has the bit of a block is then mapped,
  -- for every block of a max-sized block that the entry meets, as the buddies are that a merge looks at.
  pub map_entry_bitmap-IsMapped :
      (lv : ℕ → Option ℕ) (bitmap_base base length ptr block : ℕ) (w : EarlyAlloc × Paging)
      → IsBooting memmap is_map physical top lv w
      → (w.0.page_count + (bitmap_end base length - bitmap_start base) / 4096 * suc top) * 4096
        ≤ usable_bytes memmap
      → base ≤ ptr
      → ptr < base + length
      → base + length ≤ 2 ^ 52
      → block / max_block ≡ ptr / max_block
      → Returns
          (λ v. IsMapped v.1 (bitmap_base + block / min_block / 8 / 4096 * 4096))
          (map_entry_bitmap memmap bitmap_base base length w)
  unfolding bitmap_start bitmap_end
  map_entry_bitmap-IsMapped lv bitmap_base base length ptr block w b room low high physical_end
        same =
      let (from, to, _) =
        bitmap_covers_buddies base length ((base + length + 4095) / 4096) ptr block low high
          (omega arith) (omega arith) same in
      let rounds = (bitmap_end base length - bitmap_start base) / 4096 in
      let i = block / min_block / 8 / 4096 - bitmap_start base / 4096 in
      let at : bitmap_base + bitmap_start base + i * 4096
          ≡ bitmap_base + block / min_block / 8 / 4096 * 4096 =
        omega arith in
      let inside : i < rounds = omega arith in
      subst (λ a. Returns (λ v. IsMapped v.1 a) (map_entry_bitmap memmap bitmap_base base length w))
        at
        (covered lv rounds (bitmap_base + bitmap_start base) i w _ inside
          (map_bitmap-MappedAll rounds (bitmap_base + bitmap_start base) lv w b room))
