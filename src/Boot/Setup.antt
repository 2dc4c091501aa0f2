-- ===== src/Boot/Setup.antt =====
-- src/boot/random.c, arch.c, entry.c and the regions of virt.c: the random numbers of the bootloader, the required features of the
-- processor and its control registers, the first regions, and the memory of each core's locals.
use tomato.Base.{
  ℕ, zero, suc, ◌+◌, ◌-◌, ◌*◌, ◌/◌, ◌%◌, ◌^◌, ◌≡◌, ◌==◌, Bool, true, not, Run, ok, halt, ◌>>=◌,
  ◌>>◌, assert, Option, some, none, List, [], ◌∷◌, update, if◌then◌else◌, ltb, leb, u64_mod,
  add_u64, sub_u64, arith, Err, success,
}
use tomato.Mem.Vmar.{Tree, Store, is_success, vmar_link}
use tomato.Mem.Vmar.Place.{Services, any_offset, vmar_map, vmar_populate}
use tomato.Mem.Vmar.Unmap.{vmar_lock, vmar_put}

-- The values of the bootloader, and `m_entropy_given`.
pub record Entropy : Type 0 where
  pub value_count : ℕ
  pub values : ℕ → ℕ
  pub given : ℕ → Bool

unfoldable pub boot_random_get : (response : Bool) → (index : ℕ) → Entropy → Run (ℕ × Entropy)
boot_random_get response index e =
    assert response
    >> assert (ltb index e.value_count)
    >> assert (not (e.given index))
    >> ok (
      e.values index,
      record e { given = update e.given index true; values = update e.values index 0 },
    )

-- `__stack_chk_guard`: the random value, with a zero as its lowest byte
unfoldable pub init_stack_guard : (response : Bool) → Entropy → Run (ℕ × Entropy)
init_stack_guard response e =
    boot_random_get response 0 e >>= λ (value, left). ok (value / 2 ^ 8 * 2 ^ 8, left)

-- A value is given at most once, and nothing of it stays with the bootloader.
boot_random_get-once :
    (index value : ℕ) (e e' : Entropy)
    → boot_random_get true index e ≡ ok (value, e')
    → (boot_random_get true index e' ≡ halt) × (e'.values index ≡ 0)
unfolding boot_random_get
boot_random_get-once index value e e' h = ground arith

abbrev pub bit : (n value : ℕ) → Bool
bit n value = value / 2 ^ n % 2 == 1

-- `cpuid` of the leaves that the code asks for, or `none` where the processor has no such leaf.
pub record Cpuid : Type 0 where
  pub version_ecx : Option ℕ
  pub features_ebx_ecx : Option (ℕ × ℕ)
  pub extended_ecx_edx : Option (ℕ × ℕ)

-- The `ASSERT` of each bit.
unfoldable pub assert_bits : List ℕ → (value : ℕ) → Run (Unit {0})
assert_bits [] value = ok tt
assert_bits (n ∷ bits) value = assert (bit n value) >> assert_bits bits value

abbrev pub check_version : Option ℕ → Run (Unit {0})
check_version none = halt
check_version (some ecx) = assert_bits (26 ∷ 0 ∷ 9 ∷ 12 ∷ 13 ∷ 19 ∷ 20 ∷ 22 ∷ 23 ∷ 28 ∷ 29 ∷ []) ecx

abbrev pub check_features : Option (ℕ × ℕ) → Run (Unit {0})
check_features none = halt
check_features (some (ebx, ecx)) =
    assert_bits (3 ∷ 5 ∷ 8 ∷ 20 ∷ 7 ∷ 10 ∷ []) ebx >> assert_bits (2 ∷ []) ecx

abbrev pub check_extended : Option (ℕ × ℕ) → Run (Unit {0})
check_extended none = halt
check_extended (some (ecx, edx)) = assert_bits (0 ∷ 5 ∷ []) ecx >> assert_bits (11 ∷ 20 ∷ []) edx

unfoldable pub arch_validate_required_cpu_features : Cpuid → Run (Unit {0})
arch_validate_required_cpu_features c =
    check_version c.version_ecx
    >> check_features c.features_ebx_ecx
    >> check_extended c.extended_ecx_edx

-- The control registers and `IA32_EFER`
pub record Control : Type 0 where
  pub cr0 : ℕ
  pub cr4 : ℕ
  pub efer : ℕ

abbrev pub set_bit : (n value : ℕ) → ℕ
set_bit n value = if bit n value then value else value + 2 ^ n

unfoldable pub arch_early_init : Cpuid → Control → Run Control
arch_early_init c control =
    arch_validate_required_cpu_features c
    >> ok (record {
      cr0 = 2 ^ 31 + 2 ^ 0 + 2 ^ 1 + 2 ^ 16 + 2 ^ 5;
      cr4 = 2 ^ 5 + 2 ^ 7 + (2 ^ 9 + 2 ^ 10) + 2 ^ 18 + (2 ^ 21 + 2 ^ 20) + 2 ^ 11;
      efer = set_bit 0 (set_bit 11 control.efer);
    })

-- `LIMINE_PAGING_MODE_X86_64_4LVL` is 0; any other mode stops the boot. The number of levels is returned.
unfoldable pub init_kernel_region :
    (mode : Option ℕ) → (kernel_region user_region : ℕ) → Store → Run (ℕ × Store)
init_kernel_region none kernel_region user_region s = halt
init_kernel_region (some mode) kernel_region user_region s =
    let kernel =
      update s kernel_region
        (record (s kernel_region) { base = 18446603336221196288; page_count = 2 ^ 47 / 4096 }) in
    let user = update kernel user_region (record (kernel user_region) {
      base = 2 ^ 32;
      page_count = (2 ^ 47 - 2 ^ 32 - 4096) / 4096;
    }) in
    assert (mode == 0) >> ok (4, user)

-- The links of `early_virt_init`: the vmars of the kernel, in the order of the calls.
unfoldable pub link_sections : Tree → (kernel_region : ℕ) → List ℕ → Store → Run Store
link_sections tree kernel_region [] s = ok s
link_sections tree kernel_region (x ∷ xs) s =
    vmar_link tree kernel_region x s >>= λ linked. link_sections tree kernel_region xs linked

-- The number of cores, one where the bootloader has not answered.
unfoldable pub cpu_count_of : (response : Option ℕ) → Run ℕ
cpu_count_of none = ok 1
cpu_count_of (some cpu_count) = assert (leb 1 cpu_count) >> ok cpu_count

module _ (tree : Tree) {State : Type 0} (services : Services State)
    (levels kernel_region start_cpu_locals stop_cpu_locals : ℕ)
    (phys_alloc : (size : ℕ) → State → Option ℕ × State) where
  -- `g_cpu_locals_offsets`, with the vmars; the copies in the locals of each core are left out
  abbrev pub Offsets : Type 0
  Offsets = (ℕ → ℕ) × (Store × State)

  abbrev pub locals_page_count : ℕ
  locals_page_count = add_u64 (sub_u64 stop_cpu_locals start_cpu_locals) 4095 / 4096

  abbrev pub locals_mapped : (i : ℕ) → (ℕ → ℕ) → Err × Option ℕ × Store × State → Run Offsets
  locals_mapped i offsets (success, some x, s, m) =
      vmar_populate tree services x s m >>= λ (err, filled).
      assert (is_success err)
      >> (vmar_lock tree services levels x (s, filled) >>= λ locked.
          vmar_put tree services x locked >>= λ put.
          ok (update offsets i (sub_u64 (s x).base start_cpu_locals), put))
  locals_mapped i offsets (err, x, s, m) = halt

  -- The loop over the cores that are left.
  unfoldable pub locals_from : (rounds i : ℕ) → Offsets → Run Offsets
  locals_from zero i w = ok w
  locals_from (suc rounds) i (offsets, (s, m)) =
      vmar_map tree services kernel_region any_offset locals_page_count s m >>= λ mapped.
      locals_mapped i offsets mapped >>= λ next. locals_from rounds (i + 1) next

  abbrev pub with_offsets : (cpu_count : ℕ) → Store → Option ℕ × State → Run Offsets
  with_offsets cpu_count s (none, m) = halt
  with_offsets cpu_count s (some offsets, m) = locals_from (cpu_count - 1) 1 (λ _. 0, (s, m))

  unfoldable pub alloc_cpu_locals : (response : Option ℕ) → Store × State → Run Offsets
  alloc_cpu_locals response (s, m) = cpu_count_of response >>= λ cpu_count.
      with_offsets cpu_count s (phys_alloc (cpu_count * 8 % u64_mod) m)
