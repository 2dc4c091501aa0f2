-- ===== src/Mem/Virt/Fault.antt =====
-- src/mem/virt.c: the page-fault handler, with the vmars of src/mem/vmar.c and the page tables. What
-- vmar.c asks of virt.c is here what the model of virt.c has.
use tomato.Base.{
  ℕ, ◌+◌, ◌*◌, ◌/◌, ◌%◌, ◌==◌, Bool, true, false, not, ◌||◌, Option, none, some, Run, ok, halt,
  ◌>>=◌, ltb, if◌then◌else◌, update, Err, success, internal_error,
}
use tomato.Mem.Vmar.{Tree, Store}
use tomato.Mem.Vmar.Place.{Services, vmar_find_mapping}
use tomato.Mem.Vmar.Unmap.{vmar_put}
use tomato.Mem.Virt.{
  Frames, Paging, virt_reserve_page_tables, virt_populate, virt_make_global, virt_free,
}
use tomato.Sync.Locks.{mutex_unlock}

-- `error_code & IA32_PF_EC_PROT`, `IA32_PF_EC_USER` and `IA32_PF_EC_INSTR`
abbrev pub is_protection : ℕ → Bool
is_protection error_code = error_code % 2 == 1

abbrev pub is_user : ℕ → Bool
is_user error_code = error_code / 4 % 2 == 1

abbrev pub is_fetch : ℕ → Bool
is_fetch error_code = error_code / 16 % 2 == 1

-- `(error_code & valid_flags) == error_code`, for the bits 0, 1, 2 and 4
abbrev pub is_valid : ℕ → Bool
is_valid error_code = error_code % 8 + error_code / 16 % 2 * 16 == error_code

-- `CHECK_KILL(expr)`: a fault of the user stops the machine for now.
abbrev pub check_kill {ℓ} : {A : Type ℓ} → (expr user : Bool) → (failed rest : Run A) → Run A
check_kill true user failed rest = rest
check_kill false true failed rest = halt
check_kill false false failed rest = failed

module _ (tree : Tree) {State : Type 0} (frames : Frames State) (race : ℕ → Option ℕ)
    (alloc_vmar : Paging × State → Option ℕ × (Paging × State))
    (free_vmar : ℕ → Paging × State → Paging × State) where
  -- The page tables as src/mem/vmar.c uses them.
  abbrev pub virt : Services (Paging × State)
  virt = record {
    virt_reserve_page_tables = λ base page_count w.
        virt_reserve_page_tables frames race base page_count w >>= λ (err, p, m). ok (err, (p, m));
    virt_populate = virt_populate frames race;
    virt_make_global = virt_make_global frames race;
    virt_free = virt_free frames race;
    alloc_vmar = alloc_vmar;
    free_vmar = free_vmar;
  }

  abbrev pub Faulted : Type 0
  Faulted = Err × Store × (Paging × State)

  -- The deferred unlock and the deferred put of the mapping.
  unfoldable pub release : (x : ℕ) → Faulted → Run Faulted
  release x (err, s, w) = mutex_unlock (s x).page_table_lock >>= λ unlocked.
      vmar_put tree virt x (update s x (record (s x) { page_table_lock = unlocked }), w) >>= λ put.
      ok (err, put.0, put.1)

  unfoldable pub handle_mapping :
      (address error_code : ℕ) → Option ℕ × Store → Paging × State → Run Faulted
  handle_mapping address error_code (none, s) w =
      check_kill false (is_user error_code) (ok (internal_error, s, w)) halt
  handle_mapping address error_code (some x, s) w =
      check_kill (not (is_protection error_code)) (is_user error_code)
        (release x (internal_error, s, w))
        (check_kill (not (is_fetch error_code)) (is_user error_code)
          (release x (internal_error, s, w))
          (virt_populate frames race address 1 (s x).locked w >>= λ filled.
            release x (success, s, filled)))

  -- With the numbers of `g_user_region` and `g_kernel_region`, and a bound for the depth of the regions.
  unfoldable pub virt_page_fault_handler :
      (levels user_region kernel_region address error_code : ℕ)
      → Store
      → Paging × State
      → Run Faulted
  virt_page_fault_handler levels user_region kernel_region address error_code s w =
      if not (is_valid error_code)
      then ok (internal_error, s, w)
      else vmar_find_mapping tree levels
          (if is_user error_code || ltb address (s kernel_region).base
            then user_region
            else kernel_region)
          address s
        >>= λ found. handle_mapping address error_code found w
