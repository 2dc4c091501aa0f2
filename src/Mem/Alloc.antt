-- ===== src/Mem/Alloc.antt =====
-- src/mem/alloc.c and alloc.h: the object allocator, whose slabs are pages cut into objects. A list is
-- the sequence of its entries, so the link words inside a free object are not part of the bytes. The
-- physical allocator, which hands out zeroed pages, is the argument `services`.
pub mod Counts
mod Tests
use tomato.Base.{
  ℕ, suc, zero, ◌+◌, ◌-◌, ◌*◌, ◌/◌, ◌%◌, ◌≡◌, ◌==◌, ltb, leb, Bool, true, false, not, ◌&&◌, Option,
  none, some, List, [], ◌∷◌, ◌++◌, Run, ok, halt, ◌>>=◌, ◌>>◌, assert, if◌then◌else◌, update,
}
use tomato.Sync.Locks.{mutex_lock, mutex_unlock}

-- `mem_alloc_meta_t`
pub record Meta : Type 0 where
  pub objects_per_slab : ℕ
  pub object_stride : ℕ
  pub object_size : ℕ
  pub object_align : ℕ

-- `mem_alloc_slab_t`
pub record Slab : Type 0 where
  pub free : List ℕ
  pub alloc : ℕ
  pub in_use : ℕ

-- `mem_alloc_t` at the address `self`, the slabs by their addresses, and the bytes of the objects
pub record Allocator : Type 0 where
  pub self : ℕ
  pub lock : ℕ
  pub partial : List ℕ
  pub full : List ℕ
  pub empty : List ℕ
  pub slab : ℕ → Slab
  pub bytes : ℕ → ℕ

pub record Pages (State : Type 0) : Type 0 where
  -- `phys_alloc(PAGE_SIZE)`
  pub phys_alloc_page : State → Option ℕ × State
  -- `virt_make_global(page, 1)`
  pub virt_make_global_page : ℕ → State → Run State

-- `memset(start, value, len)`
abbrev pub fill : (start value len : ℕ) → (ℕ → ℕ) → ℕ → ℕ
fill start value len bytes a = if leb start a && ltb a (start + len) then value else bytes a

-- `list_del`
unfoldable pub list_del : ℕ → List ℕ → List ℕ
list_del x [] = []
list_del x (y ∷ ys) = let rest = list_del x ys in if x == y then ys else y ∷ rest

-- `list_del(&slab->link)`, whichever list the slab is on
abbrev pub unlink : ℕ → Allocator → Allocator
unlink x a = record a {
  partial = list_del x a.partial;
  full = list_del x a.full;
  empty = list_del x a.empty;
}

abbrev pub object_to_slab : ℕ → ℕ
object_to_slab p = p / 4096 * 4096

-- `sizeof(mem_alloc_slab_t)` rounded up
abbrev pub area_offset : Meta → ℕ
area_offset meta = (48 + meta.object_align - 1) / meta.object_align * meta.object_align

-- The loop over the objects from the index `i` on.
unfoldable pub carve : (rounds : ℕ) → Meta → (area i : ℕ) → (List ℕ) × (ℕ → ℕ) → (List ℕ) × (ℕ → ℕ)
carve zero meta area i (free, bytes) = (free, bytes)
carve (suc rounds) meta area i (free, bytes) =
    let node = area + meta.object_stride * i in
    carve rounds meta area (suc i) (
      node ∷ free,
      fill (node + meta.object_size) 0xBB (meta.object_stride - meta.object_size) bytes,
    )

abbrev pub slab_setup : Meta → ℕ → Allocator → Allocator
slab_setup meta page a =
    let (free, bytes) =
      carve meta.objects_per_slab meta (page + area_offset meta) 0 ([], a.bytes) in
    record a {
      slab = update a.slab page (record { free = free; alloc = a.self; in_use = 0 });
      bytes = bytes;
    }

-- From the choice of the slab on.
unfoldable pub take_object : Meta → ℕ → Allocator → Run (Option ℕ × Allocator)
take_object meta x a = elim (a.slab x).free [
  | [] ↦ halt
  | object ∷ rest ↦
      let in_use = ((a.slab x).in_use + 1) % 65536 in
      let taken = record a {
        slab = update a.slab x (record (a.slab x) { free = rest; in_use = in_use });
        bytes = fill object 0 16 a.bytes;
      } in
      let without = unlink x taken in
      ok (
        some object,
        if in_use == meta.objects_per_slab
            then record without { full = x ∷ without.full }
            else taken,
      )
]

module _ {State : Type 0} (services : Pages State) where
  unfoldable pub slab_create : Meta → Allocator → State → Run (Option ℕ × Allocator × State)
  slab_create meta a m =
      let (page, m') = services.phys_alloc_page m in
      elim page [
        | none ↦ ok (none, a, m')
        | some slab ↦ services.virt_make_global_page slab m' >>= λ m''.
            ok (some slab, slab_setup meta slab a, m'')
      ]

  -- The slab to allocate from, on the partial list.
  unfoldable pub choose_slab : Meta → Allocator → State → Run (Option ℕ × Allocator × State)
  choose_slab meta a m = elim a.partial [
    | slab ∷ _ ↦ ok (some slab, a, m)
    | [] ↦ elim a.empty [
      | slab ∷ _ ↦
          let without = unlink slab a in
          ok (some slab, record without { partial = slab ∷ without.partial }, m)
      | [] ↦ slab_create meta a m >>= λ made. elim made.0 [
        | none ↦ ok (none, made.1, made.2)
        | some slab ↦ ok (some slab, record made.1 { partial = slab ∷ made.1.partial }, made.2)
      ]
    ]
  ]

  abbrev pub alloc_from : Meta → Option ℕ × Allocator × State → Run (Option ℕ × Allocator × State)
  alloc_from meta (none, a, m) = ok (none, a, m)
  alloc_from meta (some slab, a, m) = take_object meta slab a >>= λ taken. ok (taken.0, taken.1, m)

  -- The lock is held from the start to every return.
  unfoldable pub mem_alloc : Meta → Allocator → State → Run (Option ℕ × Allocator × State)
  mem_alloc meta a m = mutex_lock false a.lock >>= λ held.
      choose_slab meta (record a { lock = held }) m >>= λ chosen.
      alloc_from meta chosen >>= λ result. mutex_unlock result.1.lock >>= λ released.
      ok (result.0, record result.1 { lock = released }, result.2)

-- The slab on the list that its use asks for now.
unfoldable pub requeue : (was_full : Bool) → ℕ → Allocator → Allocator
requeue was_full x a =
    let without = unlink x a in
    if (a.slab x).in_use == 0
    then record without { empty = without.empty ++ (x ∷ []) }
    else if was_full
    then record without { partial = without.partial ++ (x ∷ []) }
    else a

-- From the two checks of the slab on.
unfoldable pub put_object : Meta → (ptr x : ℕ) → Allocator → Run Allocator
put_object meta ptr x a =
    assert ((a.slab x).alloc == a.self)
    >> assert (not ((a.slab x).in_use == 0))
    >> (let was_full = (a.slab x).in_use == meta.objects_per_slab in
        ok (
          requeue was_full x (record a {
            slab = update a.slab x (record (a.slab x) {
              free = (a.slab x).free ++ (ptr ∷ []);
              in_use = (a.slab x).in_use - 1;
            });
            bytes = fill ptr 0 meta.object_size a.bytes;
          })))

-- A null pointer is address 0.
unfoldable pub mem_free : Meta → (ptr : ℕ) → Allocator → Run Allocator
mem_free meta ptr a =
    if ptr == 0
    then ok a
    else mutex_lock false a.lock >>= λ held.
        put_object meta ptr (object_to_slab ptr) (record a { lock = held }) >>= λ result.
        mutex_unlock result.lock >>= λ released. ok (record result { lock = released })
