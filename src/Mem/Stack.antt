-- ===== src/Mem/Stack.antt =====
-- src/mem/stack.c: the allocation of a stack between two guard pages, with the vmars of Mem.Vmar. The
-- roles and the names of the vmars, which nothing else reads, are left out.
use tomato.Base.{
  ℕ, ◌*◌, ◌/◌, Bool, Option, none, some, Run, ok, ◌>>=◌, if◌then◌else◌, add_u64, sub_u64, u64_mod,
  ◌%◌, Err, success,
}
use tomato.Mem.Vmar.{Tree, Store, Vmar}
use tomato.Mem.Vmar.Place.{Services, any_offset, vmar_allocate, vmar_map, vmar_populate}
use tomato.Mem.Vmar.Unmap.{vmar_unmap, vmar_put}

-- `stack_allocation_t`
pub record StackAllocation : Type 0 where
  pub stack_region : ℕ
  pub stack_bottom : ℕ

-- `DIV_ROUND_UP(size, PAGE_SIZE)` on `size_t`
abbrev pub pages_of : (size : ℕ) → ℕ
pages_of size = add_u64 size 4095 / 4096

-- `vmar_end`: the last byte
abbrev pub vmar_end : Vmar → ℕ
vmar_end vmar = add_u64 vmar.base (sub_u64 (vmar.page_count * 4096 % u64_mod) 1)

-- `(vmar_end(stack) + 1) - sizeof(uintptr_t) * 2`
abbrev pub bottom_of : Vmar → ℕ
bottom_of stack = sub_u64 (add_u64 (vmar_end stack) 1) 16

module _ (tree : Tree) {State : Type 0} (services : Services State) (levels : ℕ) where
  -- The vmars, and the state of what they ask of others.
  abbrev pub Vmars : Type 0
  Vmars = Store × State

  abbrev pub StackResult : Type 0
  StackResult = Err × Option StackAllocation × Vmars

  -- The deferred `vmar_unmap` and `OBJECT_PUT` of an error.
  unfoldable pub drop_region : (region : ℕ) → Vmars → Run Vmars
  drop_region region w =
      vmar_unmap tree services levels region w >>= λ gone. vmar_put tree services region gone

  -- After the deferred `OBJECT_PUT` of the stack.
  abbrev pub stack_put : (region bottom : ℕ) → Err → Vmars → Run StackResult
  stack_put region bottom success w =
      ok (success, some (record { stack_region = region; stack_bottom = bottom }), w)
  stack_put region bottom err w = drop_region region w >>= λ dropped. ok (err, none, dropped)

  abbrev pub stack_populated : (region stack : ℕ) → Store → Err × State → Run StackResult
  stack_populated region stack s (err, m) =
      vmar_put tree services stack (s, m) >>= λ put. stack_put region (bottom_of (s stack)) err put

  abbrev pub stack_mapped :
      (region : ℕ) → (user : Bool) → Err × Option ℕ × Store × State → Run StackResult
  stack_mapped region user (success, some stack, s, m) =
      (if user then ok (success, m) else vmar_populate tree services stack s m) >>= λ populated.
      stack_populated region stack s populated
  stack_mapped region user (err, stack, s, m) =
      drop_region region (s, m) >>= λ dropped. ok (err, none, dropped)

  abbrev pub region_allocated :
      (page_count : ℕ) → (user : Bool) → Err × Option ℕ × Store × State → Run StackResult
  region_allocated page_count user (success, some region, s, m) =
      vmar_map tree services region 4096 page_count s m >>= λ mapped.
      stack_mapped region user mapped
  region_allocated page_count user (err, region, s, m) = ok (err, none, (s, m))

  -- With the numbers of `g_user_region` and `g_kernel_region`.
  unfoldable pub stack_alloc :
      (user_region kernel_region size : ℕ) → (user : Bool) → Vmars → Run StackResult
  stack_alloc user_region kernel_region size user (s, m) =
      let root = if user then user_region else kernel_region in
      vmar_allocate tree services root any_offset (add_u64 (pages_of size) 2) s m >>= λ allocated.
      region_allocated (pages_of size) user allocated
