-- ===== src/Irq/Tests.antt =====
-- Runs of src/irq/intr.c.
use tomato.Base.{ℕ, ◌+◌, ◌*◌, ◌%◌, ◌<◌, ◌≤◌, ◌≡◌, refl, false, arith, u64_mod}
use tomato.Irq.{Frame, Cpu}
use tomato.Irq.Idt.{
  Handler, exception_handler, page_fault_handler, no_entries, intr_init, ist_number,
}
use tomato.Irq.Gates.{gate_of, kernel_gate, handler_for, ist_for, intr_init-gates}
use tomato.Irq.Panic.{Registers}
use tomato.Irq.Fault.{Ends, virt_handler, page_fault_handler-Ends}
use tomato.Irq.Fault
use tomato.Mem.Virt.Tests.{pool, no_race, tabled, two_reserved, listed, vmars, no_vmar, drop_vmar}

-- The handlers one after the other, at the top of the addresses.
abbrev placed : Handler → ℕ
placed (exception_handler num) = 18446744071562067968 + num % 32 * 64
placed page_fault_handler = 18446744071562067968 + 4096

placed-small : (h : Handler) → placed h < u64_mod
placed-small (exception_handler num) = omega arith
placed-small page_fault_handler = omega arith

intr_init-gates_example :
    (18 < 32
      → gate_of (intr_init placed no_entries 18)
        ≡ kernel_gate (placed (handler_for 18)) (ist_number (ist_for 18)))
    × (32 ≤ 18 → (gate_of (intr_init placed no_entries 18)).present ≡ 0)
intr_init-gates_example = intr_init-gates placed placed-small 18

-- A fault of the user, with interrupts on.
abbrev user_frame : Frame
user_frame = record { rip = 4096; cs = 59; rflags = 514; rsp = 8192; ss = 51 }

abbrev registers : Registers
registers = record { fs_base = 0; cr0 = 2147549219; cr2 = 8200; cr3 = 1048576; cr4 = 32 }

-- The core of the kernel has its data at 1000, and the user's GS base is 7.
abbrev in_user : Cpu
in_user = record { irq_enabled = false; gs_base = 7; kernel_gs_base = 1000 }

-- The user is interrupted at a page that is reserved, with the page tables and vmars of a small system.
page_fault_handler-Ends_example :
    Ends user_frame 6 registers in_user
      (virt_handler listed pool no_race no_vmar drop_vmar 2 0 1 registers.cr2 6
        (vmars, (tabled, two_reserved)))
      (Fault.page_fault_handler
        (virt_handler listed pool no_race no_vmar drop_vmar 2 0 1)
        user_frame
        6
        registers
        in_user
        (vmars, (tabled, two_reserved)))
page_fault_handler-Ends_example =
    page_fault_handler-Ends listed pool no_race no_vmar drop_vmar 2 0 1 user_frame 6 registers
      in_user (vmars, (tabled, two_reserved)) refl
