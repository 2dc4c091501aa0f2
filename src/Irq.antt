-- ===== src/Irq.antt =====
-- src/irq/irq.h, src/arch/intr.h and what src/irq/intr.c does to the core on the way in and out: the
-- interrupt flag of a core and its two GS bases. The offsets of the segments are those of
-- src/arch/gdt.h.
pub mod Idt
pub mod Gates
pub mod Panic
pub mod Exceptions
pub mod Reports
pub mod Fault
mod Tests
use tomato.Base.{ℕ, ◌==◌, Bool, true, false, if◌then◌else◌}

-- `interrupt_frame_t`
pub record Frame : Type 0 where
  pub rip : ℕ
  pub cs : ℕ
  pub rflags : ℕ
  pub rsp : ℕ
  pub ss : ℕ

-- The interrupt flag, the base of the GS segment, and the base that `swapgs` exchanges it with.
pub record Cpu : Type 0 where
  pub irq_enabled : Bool
  pub gs_base : ℕ
  pub kernel_gs_base : ℕ

-- `GDT_KERNEL_CODE`, `GDT_KERNEL_DATA`, `GDT_USER_DATA` and `GDT_USER_CODE`
abbrev pub kernel_code : ℕ
kernel_code = 32

abbrev pub kernel_data : ℕ
kernel_data = 40

abbrev pub user_data : ℕ
user_data = 48

abbrev pub user_code : ℕ
user_code = 56

abbrev pub irq_enable : Cpu → Cpu
irq_enable cpu = record cpu { irq_enabled = true }

abbrev pub irq_disable : Cpu → Cpu
irq_disable cpu = record cpu { irq_enabled = false }

-- The state to restore, and the core without interrupts.
abbrev pub irq_save : Cpu → Bool × Cpu
irq_save cpu = (cpu.irq_enabled, irq_disable cpu)

abbrev pub irq_restore : (enabled : Bool) → Cpu → Cpu
irq_restore enabled cpu = if enabled then irq_enable cpu else cpu

-- The exchange is left out where the kernel was interrupted.
abbrev pub swapgs : Frame → Cpu → Cpu
swapgs frame cpu =
    if frame.cs == kernel_code
    then cpu
    else record cpu { gs_base = cpu.kernel_gs_base; kernel_gs_base = cpu.gs_base }
