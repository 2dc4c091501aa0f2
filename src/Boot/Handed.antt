-- ===== src/Boot/Handed.antt =====
-- src/boot/virt.c: which pages `early_phys_alloc_page` hands out.
use tomato.Base.{
  ℕ, ◌+◌, ◌-◌, ◌*◌, ◌%◌, ◌≤◌, ◌<◌, ◌≡◌, ◌==◌, inl, inr, refl, subst, List, [], ◌∷◌, Run, ok, halt,
  Returns, ◌>>=◌, arith, add_u64, sub_u64, u64_mod, Bool-cases,
}
use tomato.Boot.Early.{
  MemmapEntry, usable, reclaimable, reserved, EarlyAlloc, early_phys_alloc_page, take_top,
}
use tomato.Boot.Next.{IsMap, usable_bytes, below, Stands, InUsable, below-ahead, Found, find-Found}

-- A page is taken from the entry that the allocator stands in.
Advanced : (top size : ℕ) → List MemmapEntry → Type 0
Advanced top size map =
    Stands (top + 4096) (size - 4096) map
    × (below (top + 4096) map ≡ below top map + 4096)
    × InUsable top (top + 4096) map
    × (top + size < u64_mod)

advance-Advanced :
    (from top size : ℕ) (map : List MemmapEntry)
    → IsMap from map
    → 4096 ≤ size
    → Stands top size map
    → Advanced top size map
unfolding Advanced below
advance-Advanced from top size [] m h s = absurd (omega arith)
advance-Advanced from top size (usable base length ∷ rest) (u, m) h (inl (none_left, _)) =
    absurd (omega arith)
advance-Advanced from top size (usable base length ∷ rest) (u, m) h (inr (inl (low, end))) =
    let bounded = u.bounded in
    let now = below-ahead (base + length) (top + 4096) rest m (omega arith) in
    let before = below-ahead (base + length) top rest m (omega arith) in
    (inr (inl (omega arith, omega arith)), ground arith, inl (low, omega arith), omega arith)
advance-Advanced from top size (usable base length ∷ rest) (u, m) h (inr (inr (behind, s))) =
    let (stands, more, inside, bounded) = advance-Advanced (base + length) top size rest m h s in
    (inr (inr (omega arith, stands)), ground arith, inr inside, bounded)
advance-Advanced from top size (reclaimable _ _ ∷ rest) m h s =
    advance-Advanced from top size rest m h s
advance-Advanced from top size (reserved _ _ ∷ rest) m h s =
    advance-Advanced from top size rest m h s

pub usable_bytes-bounded :
    (from : ℕ) (map : List MemmapEntry)
    → IsMap from map
    → from < u64_mod
    → from + usable_bytes map < u64_mod
unfolding usable_bytes
usable_bytes-bounded from [] m h = omega arith
usable_bytes-bounded from (usable base length ∷ rest) (u, m) h =
    let sorted = u.sorted in omega (arith, usable_bytes-bounded (base + length) rest m u.bounded)
usable_bytes-bounded from (reclaimable _ _ ∷ rest) m h = usable_bytes-bounded from rest m h
usable_bytes-bounded from (reserved _ _ ∷ rest) m h = usable_bytes-bounded from rest m h

-- The state of the allocator: it stands between the pages that it has handed out, all usable bytes
-- below it, and those that are left.
pub record IsEarly (map : List MemmapEntry) (e : EarlyAlloc) : Type 0 where
  pub stands : Stands e.top e.size map
  pub counted : e.page_count * 4096 ≡ below e.top map
  pub aligned : e.top % 4096 ≡ 0
  pub pages : e.size % 4096 ≡ 0

-- A page that is handed out is a whole page of a usable entry, at or above the top, and the top is its
-- end.
pub record Handed (map : List MemmapEntry) (e : EarlyAlloc) (page : ℕ) (e' : EarlyAlloc)
    : Type 0 where
  pub early : IsEarly map e'
  pub page_aligned : page % 4096 ≡ 0
  pub above : e.top ≤ page
  pub top : e'.top ≡ page + 4096
  pub inside : InUsable page (page + 4096) map
  pub count : e'.page_count ≡ e.page_count + 1

take_top-Handed :
    (from : ℕ) (map : List MemmapEntry) (e f : EarlyAlloc)
    → IsMap from map
    → IsEarly map f
    → 4096 ≤ f.size
    → f.page_count + 1 < u64_mod
    → e.top ≤ f.top
    → f.page_count ≡ e.page_count
    → Handed map e (take_top f).0 (take_top f).1
unfolding Advanced
take_top-Handed from map e f m i h c above count =
    let (stands, more, inside, bounded) = advance-Advanced from f.top f.size map m h i.stands in
    let counted = i.counted in
    let aligned = i.aligned in
    let pages = i.pages in
    let top : add_u64 f.top 4096 ≡ f.top + 4096 = ground arith in
    let size : sub_u64 f.size 4096 ≡ f.size - 4096 = ground arith in
    let counts : add_u64 f.page_count 1 ≡ f.page_count + 1 = ground arith in
    let next : EarlyAlloc = record {
      top = f.top + 4096;
      size = f.size - 4096;
      page_count = f.page_count + 1;
    } in
    let early : IsEarly map next = record {
      stands = stands;
      counted = omega arith;
      aligned = ground arith;
      pages = ground arith;
    } in
    rw (top, size, counts)
      (record {
        early = early;
        page_aligned = aligned;
        above = above;
        top = refl;
        inside = inside;
        count = omega arith;
      })

found-Handed :
    (map : List MemmapEntry) (e : EarlyAlloc) (r : Run EarlyAlloc)
    → IsMap 0 map
    → IsEarly map e
    → e.page_count + 1 < u64_mod
    → Returns (Found map e) r
    → Returns (λ t. Handed map e t.0 t.1) (r >>= λ found. ok (take_top found))
found-Handed map e halt m i c f = f
found-Handed map e (ok found) m i c f =
    let count = f.count in
    let same = f.same in
    let counted = i.counted in
    take_top-Handed 0 map e found m
      (record { stands = f.stands; counted = omega arith; aligned = f.aligned; pages = f.pages })
      f.page (omega arith) f.further f.count

-- On a sorted map of whole usable pages, as long as fewer bytes were handed out than are usable,
-- `early_phys_alloc_page` returns: it hands out a whole page of a usable entry, which lies at or above
-- the end of every page before it, and the state of the allocator stays what it should be.
pub early_phys_alloc_page-Handed :
    (map : List MemmapEntry) (e : EarlyAlloc)
    → IsMap 0 map
    → IsEarly map e
    → e.page_count * 4096 < usable_bytes map
    → Returns (λ r. Handed map e r.0 r.1) (early_phys_alloc_page map e)
unfolding early_phys_alloc_page
early_phys_alloc_page-Handed map e m i h = elim (Bool-cases (e.size == 0)) [
  | inl none_left ↦
      let empty : e.size ≡ 0 = ground arith in
      let stands = subst (λ n. Stands e.top n map) empty i.stands in
      let counted = i.counted in
      rw (early_phys_alloc_page, none_left)
        (found-Handed map e _ m i (omega (arith, usable_bytes-bounded 0 map m (omega arith)))
          (find-Found 0 map e m stands (omega arith)))
  | inr left ↦
      let pages = i.pages in
      rw (early_phys_alloc_page, left)
        (take_top-Handed 0 map e e m i (ground arith)
          (omega (arith, usable_bytes-bounded 0 map m (omega arith))) (omega arith) refl)
]
