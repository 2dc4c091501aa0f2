-- ===== src/Boot/Next.antt =====
-- src/boot/virt.c: the memory map as the boot allocator relies on it, and the search for the next entry.
use tomato.Base.{
  ℕ, ◌+◌, ◌-◌, ◌%◌, ◌≤◌, ◌<◌, ◌≡◌, ◌⊎◌, inl, inr, refl, ltb, true, false, List, [], ◌∷◌, Run, ok,
  halt, Returns, arith, if◌then◌else◌, u64_mod,
}
use tomato.Boot.Early.{
  MemmapEntry, usable, reclaimable, reserved, EarlyAlloc, early_alloc_find_next_entry,
}

-- A usable entry of the map, from an address on: whole pages, at least one, below 2 ^ 64.
pub record IsUsable (from base length : ℕ) : Type 0 where
  pub sorted : from ≤ base
  pub aligned : base % 4096 ≡ 0
  pub pages : length % 4096 ≡ 0
  pub some_page : 4096 ≤ length
  pub bounded : base + length < u64_mod

-- The usable entries are sorted by address and do not overlap.
abbrev pub IsMap : (from : ℕ) → List MemmapEntry → Type 0
IsMap from [] = Unit
IsMap from (usable base length ∷ rest) = IsUsable from base length × IsMap (base + length) rest
IsMap from (reclaimable _ _ ∷ rest) = IsMap from rest
IsMap from (reserved _ _ ∷ rest) = IsMap from rest

-- The bytes of the usable entries, and those of them that lie below an address.
unfoldable pub usable_bytes : List MemmapEntry → ℕ
usable_bytes [] = 0
usable_bytes (usable base length ∷ rest) = length + usable_bytes rest
usable_bytes (reclaimable _ _ ∷ rest) = usable_bytes rest
usable_bytes (reserved _ _ ∷ rest) = usable_bytes rest

unfoldable pub below : (top : ℕ) → List MemmapEntry → ℕ
below top [] = 0
below top (usable base length ∷ rest) =
    (if ltb (base + length) top then length else top - base) + below top rest
below top (reclaimable _ _ ∷ rest) = below top rest
below top (reserved _ _ ∷ rest) = below top rest

-- The allocator stands before the entries that are left, in an entry that ends `size` bytes further,
-- or behind an entry.
abbrev pub Stands : (top size : ℕ) → List MemmapEntry → Type 0
Stands top size [] = size ≡ 0
Stands top size (usable base length ∷ rest) =
    ((size ≡ 0) × (top ≤ base))
    ⊎ (((base ≤ top) × (top + size ≡ base + length))
        ⊎ ((base + length ≤ top) × Stands top size rest))
Stands top size (reclaimable _ _ ∷ rest) = Stands top size rest
Stands top size (reserved _ _ ∷ rest) = Stands top size rest

-- A range of addresses lies in a usable entry.
abbrev pub InUsable : (start end : ℕ) → List MemmapEntry → Type 0
InUsable start end [] = ⊥
InUsable start end (usable base length ∷ rest) =
    ((base ≤ start) × (end ≤ base + length)) ⊎ InUsable start end rest
InUsable start end (reclaimable _ _ ∷ rest) = InUsable start end rest
InUsable start end (reserved _ _ ∷ rest) = InUsable start end rest

-- Entries that are further on have nothing below, and the allocator stands before them.
pub below-ahead :
    (from top : ℕ) (map : List MemmapEntry) → IsMap from map → top ≤ from → below top map ≡ 0
unfolding below
below-ahead from top [] m h = refl
below-ahead from top (usable base length ∷ rest) (u, m) h =
    let sorted = u.sorted in
    let some_page = u.some_page in
    ground (arith, below-ahead (base + length) top rest m (omega arith))
below-ahead from top (reclaimable _ _ ∷ rest) m h = below-ahead from top rest m h
below-ahead from top (reserved _ _ ∷ rest) m h = below-ahead from top rest m h

Stands-ahead :
    (from top : ℕ) (map : List MemmapEntry) → IsMap from map → top ≤ from → Stands top 0 map
Stands-ahead from top [] m h = refl
Stands-ahead from top (usable base length ∷ rest) (u, m) h =
    let sorted = u.sorted in inl (refl, omega arith)
Stands-ahead from top (reclaimable _ _ ∷ rest) m h = Stands-ahead from top rest m h
Stands-ahead from top (reserved _ _ ∷ rest) m h = Stands-ahead from top rest m h

-- An allocator with a page left, reached from one without: the same pages lie below it.
pub record Found (map : List MemmapEntry) (e e' : EarlyAlloc) : Type 0 where
  pub stands : Stands e'.top e'.size map
  pub same : below e'.top map ≡ below e.top map
  pub page : 4096 ≤ e'.size
  pub aligned : e'.top % 4096 ≡ 0
  pub pages : e'.size % 4096 ≡ 0
  pub count : e'.page_count ≡ e.page_count
  pub further : e.top ≤ e'.top
  pub inside : InUsable e'.top (e'.top + e'.size) map
  pub bounded : e'.top + e'.size < u64_mod

-- For another map.
Found-map :
    (map map' : List MemmapEntry) (e e' : EarlyAlloc)
    → Found map e e'
    → Stands e'.top e'.size map'
    → below e'.top map' ≡ below e.top map'
    → InUsable e'.top (e'.top + e'.size) map'
    → Found map' e e'
Found-map map map' e e' f stands same inside = record {
  stands = stands;
  same = same;
  page = f.page;
  aligned = f.aligned;
  pages = f.pages;
  count = f.count;
  further = f.further;
  inside = inside;
  bounded = f.bounded;
}

-- Behind an entry.
Found-behind :
    (base length : ℕ) (rest : List MemmapEntry) (e : EarlyAlloc) (r : Run EarlyAlloc)
    → base + length ≤ e.top
    → Returns (Found rest e) r
    → Returns (Found (usable base length ∷ rest) e) r
unfolding below
Found-behind base length rest e halt h f = f
Found-behind base length rest e (ok e') h f =
    let same = f.same in
    let further = f.further in
    Found-map rest (usable base length ∷ rest) e e' f (inr (inr (omega arith, f.stands)))
      (ground arith) (inr f.inside)

-- Behind an entry that is not usable.
Found-reclaimable :
    (base length : ℕ) (rest : List MemmapEntry) (e : EarlyAlloc) (r : Run EarlyAlloc)
    → Returns (Found rest e) r
    → Returns (Found (reclaimable base length ∷ rest) e) r
unfolding below
Found-reclaimable base length rest e halt f = f
Found-reclaimable base length rest e (ok e') f =
    Found-map rest (reclaimable base length ∷ rest) e e' f f.stands f.same f.inside

Found-reserved :
    (base length : ℕ) (rest : List MemmapEntry) (e : EarlyAlloc) (r : Run EarlyAlloc)
    → Returns (Found rest e) r
    → Returns (Found (reserved base length ∷ rest) e) r
unfolding below
Found-reserved base length rest e halt f = f
Found-reserved base length rest e (ok e') f =
    Found-map rest (reserved base length ∷ rest) e e' f f.stands f.same f.inside

-- At an entry that is ahead.
find-ahead :
    (from base length : ℕ) (rest : List MemmapEntry) (e : EarlyAlloc)
    → IsUsable from base length
    → IsMap (base + length) rest
    → e.top ≤ base
    → Returns
        (Found (usable base length ∷ rest) e)
        (early_alloc_find_next_entry (usable base length ∷ rest) e)
unfolding early_alloc_find_next_entry below
find-ahead from base length rest e u m h =
    let test : ltb base e.top ≡ false = ground arith in
    let aligned = u.aligned in
    let pages = u.pages in
    let some_page = u.some_page in
    let bounded = u.bounded in
    let now = below-ahead (base + length) base rest m (omega arith) in
    let before = below-ahead (base + length) e.top rest m (omega arith) in
    rw (early_alloc_find_next_entry, test, aligned, pages)
      (record {
        stands = inr (inl (omega arith, refl));
        same = ground arith;
        page = some_page;
        aligned = aligned;
        pages = pages;
        count = refl;
        further = h;
        inside = inl (omega arith, omega arith);
        bounded = bounded;
      })

-- As long as a usable byte is left, the search finds an entry.
pub find-Found :
    (from : ℕ) (map : List MemmapEntry) (e : EarlyAlloc)
    → IsMap from map
    → Stands e.top 0 map
    → below e.top map < usable_bytes map
    → Returns (Found map e) (early_alloc_find_next_entry map e)
unfolding early_alloc_find_next_entry below usable_bytes
find-Found from [] e m s h = absurd (omega arith)
find-Found from (usable base length ∷ rest) e (u, m) (inl (_, ahead)) h =
    find-ahead from base length rest e u m ahead
find-Found from (usable base length ∷ rest) e (u, m) (inr (inl (low, end))) h =
    let some_page = u.some_page in
    let test : ltb base e.top ≡ true = ground arith in
    let left : below e.top rest < usable_bytes rest = ground arith in
    rw (early_alloc_find_next_entry, test)
      (Found-behind base length rest e _ (omega arith) (
        find-Found (base + length) rest e m
          (Stands-ahead (base + length) e.top rest m (omega arith)) left))
find-Found from (usable base length ∷ rest) e (u, m) (inr (inr (behind, s))) h =
    let some_page = u.some_page in
    let test : ltb base e.top ≡ true = ground arith in
    let left : below e.top rest < usable_bytes rest = ground arith in
    rw (early_alloc_find_next_entry, test)
      (Found-behind base length rest e _ behind (find-Found (base + length) rest e m s left))
find-Found from (reclaimable base length ∷ rest) e m s h =
    Found-reclaimable base length rest e _ (find-Found from rest e m s h)
find-Found from (reserved base length ∷ rest) e m s h =
    Found-reserved base length rest e _ (find-Found from rest e m s h)
