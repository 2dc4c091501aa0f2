-- ===== src/Irq/Fault.antt =====
-- src/irq/intr.c: the handler of the page fault, around `virt_page_fault_handler` of src/mem/virt.c.
use tomato.Base.{
  ℕ, ◌≡◌, refl, sym, ◌==◌, false, Option, List, Run, ok, halt, ◌>>=◌, if◌then◌else◌, Err, success,
  internal_error, invalid_argument, out_of_resources, Bool-cases, inl, inr,
}
use tomato.Irq.{Frame, Cpu, kernel_code, irq_enable, irq_disable, swapgs}
use tomato.Irq.Panic.{Line, Registers, bit, panic_exception_handler}
use tomato.Mem.Vmar.{Tree, Store, is_success}
use tomato.Mem.Virt.{Frames, Paging}
use tomato.Mem.Virt.Fault.{virt_page_fault_handler}

-- The interrupted code goes on, or the kernel has stopped with a report.
pub data Outcome (W : Type 0) : Type 0 where
  resumed : Cpu → W → Outcome W
  stopped : List Line → Outcome W

-- The core as `virt_page_fault_handler` runs on it.
abbrev pub fault_entry : Frame → Cpu → Cpu
fault_entry frame cpu =
    let entered = swapgs frame cpu in if bit 9 frame.rflags then irq_enable entered else entered

module _ {W : Type 0} (virt_page_fault_handler : (address error_code : ℕ) → W → Run (Err × W)) where
  abbrev pub leave_fault : Frame → (error_code : ℕ) → Registers → Cpu → Err × W → Outcome W
  leave_fault frame error_code registers cpu (err, w) =
      if is_success err
      then resumed (swapgs frame (irq_disable cpu)) w
      else stopped (panic_exception_handler frame error_code 14 registers cpu)

  unfoldable pub page_fault_handler :
      Frame → (error_code : ℕ) → Registers → Cpu → W → Run (Outcome W)
  page_fault_handler frame error_code registers cpu w =
      virt_page_fault_handler registers.cr2 error_code w >>= λ result.
      ok (leave_fault frame error_code registers (fault_entry frame cpu) result)

-- What the handler is to do with the result: on a success the interrupted code goes on with the core as it
-- was, and on an error the kernel stops with the report of a page fault.
abbrev pub Ends :
    {W : Type 0} → Frame → ℕ → Registers → Cpu → Run (Err × W) → Run (Outcome W) → Type 0
Ends frame error_code registers cpu halt end = end ≡ halt
Ends frame error_code registers cpu (ok (success, w)) end = end ≡ ok (resumed cpu w)
Ends frame error_code registers cpu (ok (err, w)) end =
    end
    ≡ ok (stopped (panic_exception_handler frame error_code 14 registers (fault_entry frame cpu)))

cpu_eq :
    {a b : Cpu}
    → a.irq_enabled ≡ b.irq_enabled
    → a.gs_base ≡ b.gs_base
    → a.kernel_gs_base ≡ b.kernel_gs_base
    → a ≡ b
cpu_eq {a} {b} i g k = cc

-- The two exchanges cancel, and the interrupt flag is off again.
fault_entry-undone :
    (frame : Frame) (cpu : Cpu)
    → cpu.irq_enabled ≡ false
    → swapgs frame (irq_disable (fault_entry frame cpu)) ≡ cpu
fault_entry-undone frame cpu off = elim (Bool-cases (frame.cs == kernel_code)) [
  | inl e ↦ elim (Bool-cases (bit 9 frame.rflags)) [
    | inl f ↦ rw (e, f) (cpu_eq (sym off) refl refl)
    | inr f ↦ rw (e, f) (cpu_eq (sym off) refl refl)
  ]
  | inr e ↦ elim (Bool-cases (bit 9 frame.rflags)) [
    | inl f ↦ rw (e, f) (cpu_eq (sym off) refl refl)
    | inr f ↦ rw (e, f) (cpu_eq (sym off) refl refl)
  ]
]

module _ (tree : Tree) {State : Type 0} (frames : Frames State) (race : ℕ → Option ℕ)
    (alloc_vmar : Paging × State → Option ℕ × (Paging × State))
    (free_vmar : ℕ → Paging × State → Paging × State) (levels user_region kernel_region : ℕ) where
  abbrev pub World : Type 0
  World = Store × (Paging × State)

  -- `virt_page_fault_handler` with the vmars and the page tables that it works on.
  abbrev pub virt_handler : (address error_code : ℕ) → World → Run (Err × World)
  virt_handler address error_code (s, w) =
      virt_page_fault_handler tree frames race alloc_vmar free_vmar levels user_region kernel_region
        address error_code s w
      >>= λ (err, s', w'). ok (err, (s', w'))

  ends :
      (frame : Frame) (error_code : ℕ) (registers : Registers) (cpu : Cpu) (r : Run (Err × World))
      → cpu.irq_enabled ≡ false
      → Ends frame error_code registers cpu r (
          r >>= λ result.
          ok (leave_fault virt_handler frame error_code registers (fault_entry frame cpu) result))
  ends frame error_code registers cpu halt off = refl
  ends frame error_code registers cpu (ok (success, w)) off =
      rw (fault_entry-undone frame cpu off) refl
  ends frame error_code registers cpu (ok (internal_error, w)) off = refl
  ends frame error_code registers cpu (ok (invalid_argument, w)) off = refl
  ends frame error_code registers cpu (ok (out_of_resources, w)) off = refl

  -- A page fault that arrives through an interrupt gate, so with interrupts off: where
  -- `virt_page_fault_handler` has handled the address in CR2, the handler returns to the interrupted code
  -- with the interrupt flag and the GS bases of the core as they were, whether it was the kernel or not
  -- and whether it had interrupts on or not. Where it returns an error, the kernel stops with the report
  -- of the fault. Where it halts, so does the handler.
  pub page_fault_handler-Ends :
      (frame : Frame) (error_code : ℕ) (registers : Registers) (cpu : Cpu) (w : World)
      → cpu.irq_enabled ≡ false
      → Ends frame error_code registers cpu
          (virt_handler registers.cr2 error_code w)
          (page_fault_handler virt_handler frame error_code registers cpu w)
  unfolding page_fault_handler
  page_fault_handler-Ends frame error_code registers cpu w off =
      ends frame error_code registers cpu (virt_handler registers.cr2 error_code w) off
