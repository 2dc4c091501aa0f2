-- ===== src/Irq/Panic.antt =====
-- src/irq/intr.c: what the kernel prints about an exception before it stops. A line of the output is
-- a constructor with the values that the line prints.
use tomato.Base.{
  ℕ, zero, suc, ◌*◌, ◌/◌, ◌%◌, ◌^◌, ◌==◌, Bool, true, false, not, ◌&&◌, Option, none, some, List,
  [], ◌∷◌, ◌++◌, if◌then◌else◌,
}
use tomato.Irq.{Frame, Cpu, kernel_code, kernel_data, user_data, user_code}

-- The strings of `m_exception_names`
pub data ExceptionName : Type 0 where
  division_error debug non_maskable breakpoint overflow bound_range : ExceptionName
  invalid_opcode device_not_available double_fault coprocessor_overrun : ExceptionName
  invalid_tss segment_not_present stack_segment general_protection : ExceptionName
  page_fault reserved x87_floating_point alignment_check machine_check : ExceptionName
  simd_floating_point virtualization control_protection : ExceptionName
  hypervisor_injection vmm_communication security : ExceptionName

unfoldable pub m_exception_names : List ExceptionName
m_exception_names =
    division_error ∷ debug ∷ non_maskable ∷ breakpoint ∷ overflow ∷ bound_range ∷ invalid_opcode
    ∷ device_not_available ∷ double_fault ∷ coprocessor_overrun ∷ invalid_tss ∷ segment_not_present
    ∷ stack_segment ∷ general_protection ∷ page_fault ∷ reserved ∷ x87_floating_point
    ∷ alignment_check ∷ machine_check ∷ simd_floating_point ∷ virtualization ∷ control_protection
    ∷ reserved ∷ reserved ∷ reserved ∷ reserved ∷ reserved ∷ reserved ∷ hypervisor_injection
    ∷ vmm_communication ∷ security ∷ reserved ∷ []

-- The element of a table, or `none` where the code would read past its end.
abbrev pub get_elem? : List ExceptionName → ℕ → Option ExceptionName
get_elem? [] i = none
get_elem? (x ∷ xs) zero = some x
get_elem? (x ∷ xs) (suc i) = get_elem? xs i

-- The names that `get_segment_name` returns
pub data SegmentName : Type 0 where
  kernel_code_name user_code_name kernel_data_name user_data_name unknown : SegmentName

-- `segment & ~0b111`
unfoldable pub get_segment_name : ℕ → SegmentName
get_segment_name segment =
    let index = segment / 8 * 8 in
    if index == kernel_code
    then kernel_code_name
    else if index == user_code
    then user_code_name
    else if index == kernel_data
    then kernel_data_name
    else if index == user_data
    then user_data_name
    else unknown

-- `"GDT"`, `"IDT"` and `"LDT"`
pub data Table : Type 0 where
  gdt idt ldt : Table

pub data Line : Type 0 where
  blank stars : Line
  occurred : Option ExceptionName → (exception : ℕ) → Line
  page_fault_line : (prot write user : Bool) → Line
  reserved_bit instruction_fetch protection_keys shadow_stack sgx : Line
  accessing : Table → (index : ℕ) → Line
  -- `RIP`, `RSP` and `RFL`, with a letter or a dash for each flag
  instruction : (rip rsp rflags : ℕ) → (flags : List ℕ) → Line
  code_segment stack_segment_line : (selector dpl : ℕ) → SegmentName → Line
  fs_line gs_line : ℕ → Line
  control : (cr0 cr2 cr3 cr4 : ℕ) → Line

-- The registers that are printed and that the handlers do not change.
pub record Registers : Type 0 where
  pub fs_base : ℕ
  pub cr0 : ℕ
  pub cr2 : ℕ
  pub cr3 : ℕ
  pub cr4 : ℕ

abbrev pub bit : (n value : ℕ) → Bool
bit n value = value / 2 ^ n % 2 == 1

abbrev pub line_if : Bool → Line → List Line
line_if true line = line ∷ []
line_if false line = []

abbrev pub page_fault_lines : (error : ℕ) → List Line
page_fault_lines error =
    (page_fault_line (bit 0 error) (bit 1 error) (bit 2 error) ∷ [])
    ++ line_if (bit 3 error) reserved_bit
    ++ line_if (bit 4 error) instruction_fetch
    ++ line_if (bit 5 error) protection_keys
    ++ line_if (bit 6 error) shadow_stack
    ++ line_if (bit 15 error) sgx
    ++ (blank ∷ [])

-- `table[selector.tbl]`, of two bits
abbrev pub table_of : (tbl : ℕ) → Table
table_of tbl = if tbl == 0 then gdt else if tbl == 2 then ldt else idt

-- `selector_error_code_t`
abbrev pub selector_lines : (error : ℕ) → List Line
selector_lines error = accessing (table_of (error / 2 % 4)) (error / 8 % 2 ^ 13) ∷ blank ∷ []

abbrev pub cause_lines : (error exception : ℕ) → List Line
cause_lines error exception =
    if exception == 14
    then page_fault_lines error
    else if exception == 13 && not (error == 0)
    then selector_lines error
    else []

-- The letter where the flag is set, and `'-'` elsewhere.
abbrev pub flag : (n letter rflags : ℕ) → ℕ
flag n letter rflags = if bit n rflags then letter else 45

abbrev pub flags_of : (rflags : ℕ) → List ℕ
flags_of rflags =
    flag 10 68 rflags
    ∷ flag 11 79 rflags
    ∷ flag 7 83 rflags
    ∷ flag 6 90 rflags
    ∷ flag 17 65 rflags
    ∷ flag 2 80 rflags
    ∷ flag 0 67 rflags
    ∷ []

-- The `GS` of the code that was interrupted: an entry from elsewhere has exchanged the bases.
abbrev pub interrupted_gs : Frame → Cpu → ℕ
interrupted_gs frame cpu = if frame.cs == kernel_code then cpu.gs_base else cpu.kernel_gs_base

abbrev pub state_lines : Frame → Registers → Cpu → List Line
state_lines frame registers cpu =
    instruction frame.rip frame.rsp frame.rflags (flags_of frame.rflags)
    ∷ code_segment frame.cs (frame.cs % 8) (get_segment_name frame.cs)
    ∷ stack_segment_line frame.ss (frame.ss % 8) (get_segment_name frame.ss)
    ∷ fs_line registers.fs_base
    ∷ gs_line (interrupted_gs frame cpu)
    ∷ control registers.cr0 registers.cr2 registers.cr3 registers.cr4
    ∷ blank
    ∷ []

-- The lines of `panic_exception_handler`, which never returns.
unfoldable pub panic_exception_handler : Frame → (error exception : ℕ) → Registers → Cpu → List Line
panic_exception_handler frame error exception registers cpu =
    (blank
      ∷ stars
      ∷ occurred (get_elem? m_exception_names exception) exception
      ∷ stars
      ∷ blank
      ∷ [])
    ++ cause_lines error exception
    ++ state_lines frame registers cpu
