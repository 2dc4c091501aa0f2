-- ===== src/Mem/Alloc/Tests.antt =====
-- Runs of src/mem/alloc.c.
use tomato.Base.{ℕ, ◌≡◌, refl, arith, some, [], ◌∷◌, ok, Returns}
use tomato.Sync.Locks.{mutex_lock, mutex_unlock}
use tomato.Mem.Alloc.{
  Meta, Allocator, Pages, mem_alloc, mem_free, choose_slab, slab_create, carve, take_object,
  put_object, requeue, list_del,
}
use tomato.Mem.Alloc.Counts.{Took, take_object-Took}

-- Two objects of 1000 bytes in each slab.
abbrev pairs : Meta
pairs = record { objects_per_slab = 2; object_stride = 1024; object_size = 1000; object_align = 8 }

-- Every page is the one at 8192.
abbrev one_page : Pages ℕ
one_page = record { phys_alloc_page = λ m. (some 8192, m); virt_make_global_page = λ page m. ok m }

abbrev fresh : Allocator
fresh = record {
  self = 64;
  lock = 0;
  partial = [];
  full = [];
  empty = [];
  slab = λ _. record { free = []; alloc = 0; in_use = 0 };
  bytes = λ _. 0;
}

-- The first allocation makes a slab and takes its last object.
first_object :
    Returns
      (λ result.
        (result.0 ≡ some 9264)
        × (result.1.partial ≡ 8192 ∷ [])
        × ((result.1.slab 8192).free ≡ 8240 ∷ [])
        × (result.1.bytes 9240 ≡ 187))
      (mem_alloc one_page pairs fresh 0)
unfolding mem_alloc choose_slab slab_create carve take_object mutex_lock mutex_unlock
first_object = (refl, refl, refl, refl)

-- A slab with one free object, and with its two objects after the free.
abbrev half : Allocator
half = record fresh {
  partial = 8192 ∷ [];
  slab = λ _. record { free = 8240 ∷ []; alloc = 64; in_use = 1 };
}

freed :
    Returns
      (λ a. (a.partial ≡ []) × (a.empty ≡ 8192 ∷ []) × ((a.slab 8192).free ≡ 8240 ∷ 9264 ∷ []))
      (mem_free pairs 9264 half)
unfolding mem_free put_object requeue list_del mutex_lock mutex_unlock
freed = (refl, refl, refl)

take_object-Took_example : Returns (Took pairs 8192 half) (take_object pairs 8192 half)
take_object-Took_example = take_object-Took pairs 8192 half (omega arith, omega arith) (omega arith)
