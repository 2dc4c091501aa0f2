-- ===== src/Boot/Segments.antt =====
-- src/boot/gdt.c and src/arch/gdt.c: the segment descriptors, the task state segment of a core and its interrupt
-- stacks. The lock around the shared descriptor is that of Sync.Spinlock.
use tomato.Base.{
  ℕ, zero, suc, ◌+◌, ◌*◌, ◌/◌, ◌%◌, ◌^◌, ◌<◌, ◌≡◌, ◌==◌, refl, Run, ok, halt, ◌>>=◌, some, update,
  if◌then◌else◌, u64_mod, arith, false, success,
}
use tomato.Irq.{Cpu}
use tomato.Mem.Vmar.{Tree, Store}
use tomato.Mem.Vmar.Place.{Services}
use tomato.Mem.Vmar.Unmap.{vmar_lock, vmar_put}
use tomato.Mem.Stack.{StackResult, stack_alloc}

-- `gdt64_entry_t`
pub record Gdt64Entry : Type 0 where
  pub limit : ℕ
  pub base_low : ℕ
  pub base_mid : ℕ
  pub access : ℕ
  pub granularity : ℕ
  pub base_high : ℕ

-- `tss64_entry_t`
pub record Tss64Entry : Type 0 where
  pub length : ℕ
  pub low : ℕ
  pub mid : ℕ
  pub flags1 : ℕ
  pub flags2 : ℕ
  pub high : ℕ
  pub upper32 : ℕ

-- `gdt_entries_t`, without the entries that stay null
pub record GdtEntries : Type 0 where
  pub kernel_code : Gdt64Entry
  pub kernel_data : Gdt64Entry
  pub user_data : Gdt64Entry
  pub user_code : Gdt64Entry
  pub tss : Tss64Entry

abbrev pub flat : (access granularity : ℕ) → Gdt64Entry
flat access granularity = record {
  limit = 0;
  base_low = 0;
  base_mid = 0;
  access = access;
  granularity = granularity;
  base_high = 0;
}

abbrev pub g_gdt_entries : GdtEntries
g_gdt_entries = record {
  kernel_code = flat 0b10011011 0b00100000;
  kernel_data = flat 0b10010011 0b00000000;
  user_data = flat 0b11110011 0b00000000;
  user_code = flat 0b11111011 0b00100000;
  tss = record {
    length = 0;
    low = 0;
    mid = 0;
    flags1 = 0b10001001;
    flags2 = 0;
    high = 0;
    upper32 = 0;
  };
}

-- `sizeof(tss64_t)`
abbrev pub tss_size : ℕ
tss_size = 104

-- The descriptor of the task state segment at `base`.
unfoldable pub tss_entry : (base : ℕ) → Tss64Entry
tss_entry base = record {
  length = tss_size % 2 ^ 16;
  low = base % 2 ^ 16;
  mid = base / 2 ^ 16 % 2 ^ 8;
  high = base / 2 ^ 24 % 2 ^ 8;
  upper32 = base / 2 ^ 32 % 2 ^ 32;
  flags1 = 0b10001001;
  flags2 = tss_size / 2 ^ 16 % 2 ^ 4;
}

-- `tss64_t`: the interrupt stacks by their index from 0.
pub record Tss64 : Type 0 where
  pub ist : ℕ → ℕ
  pub iopb_offset : ℕ

module _ (tree : Tree) {State : Type 0} (services : Services State)
    (levels user_region kernel_region : ℕ) where
  -- The stack is locked for good, and the handle is put.
  abbrev pub ist_allocated :
      (i : ℕ) → Tss64 → StackResult tree services levels → Run (Tss64 × (Store × State))
  ist_allocated i tss (success, some alloc, w) =
      vmar_lock tree services levels alloc.stack_region w >>= λ locked.
      vmar_put tree services alloc.stack_region locked >>= λ put.
      ok (record tss { ist = update tss.ist i alloc.stack_bottom }, put)
  ist_allocated i tss (err, alloc, w) = halt

  -- The loop of `tss_init` over the stacks that are left.
  unfoldable pub tss_stacks :
      (rounds i : ℕ) → Tss64 × (Store × State) → Run (Tss64 × (Store × State))
  tss_stacks zero i w = ok w
  tss_stacks (suc rounds) i (tss, vmars) =
      stack_alloc tree services levels user_region kernel_region 4096 false vmars >>= λ alloc.
      ist_allocated i tss alloc >>= λ next. tss_stacks rounds (i + 1) next

  -- With the address of the core's `m_tss`; `TSS_IST_MAX` is 6.
  unfoldable pub tss_init :
      (tss_address : ℕ)
      → Tss64
      → GdtEntries
      → Store × State
      → Run (Tss64 × GdtEntries × (Store × State))
  tss_init tss_address tss gdt vmars =
      tss_stacks 5 0 (record tss { iopb_offset = tss_size }, vmars) >>= λ (filled, left).
      ok (filled, record gdt { tss = tss_entry tss_address }, left)

  unfoldable pub gdt_init :
      (cpu_id : ℕ)
      → (g_cpu_locals_offsets : ℕ → ℕ) → (tss_address : ℕ) → Cpu × Tss64 × GdtEntries
      → Store × State
      → Run (Cpu × Tss64 × GdtEntries × (Store × State))
  gdt_init cpu_id g_cpu_locals_offsets tss_address (cpu, tss, gdt) vmars =
      let off = if cpu_id == 0 then 0 else g_cpu_locals_offsets cpu_id in
      tss_init tss_address tss gdt vmars >>= λ (filled, loaded, left).
      ok (record cpu { gs_base = off }, filled, loaded, left)

-- What the processor takes from a descriptor of a task state segment.
abbrev pub tss_base : Tss64Entry → ℕ
tss_base e = e.low + e.mid * 2 ^ 16 + e.high * 2 ^ 24 + e.upper32 * 2 ^ 32

-- The processor finds the task state segment at its address, with its size, present and available.
tss_entry-reads :
    (base : ℕ)
    → base < u64_mod
    → (tss_base (tss_entry base) ≡ base)
      × ((tss_entry base).length + (tss_entry base).flags2 * 2 ^ 16 ≡ tss_size)
      × ((tss_entry base).flags1 / 2 ^ 7 ≡ 1)
      × ((tss_entry base).flags1 % 2 ^ 4 ≡ 9)
unfolding tss_entry
tss_entry-reads base h = (omega arith, refl, refl, refl)
