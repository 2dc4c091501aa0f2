-- ===== src/Irq/Reports.antt =====
-- src/irq/intr.c: every exception but the page fault ends in a report of the code that it interrupted.
use tomato.Base.{
  leb, ◌⊎◌, [], ◌%◌, ◌*◌, ℕ, ◌≡◌, ◌==◌, Bool, true, false, not, ◌&&◌, ◌||◌, Option, none, some,
  List, ◌∷◌, if◌then◌else◌,
}
use mathlib.Core.List.{Mem}
use tomato.Irq.{Frame, Cpu}
use tomato.Irq.Panic.{ExceptionName, Line, occurred, gs_line, instruction, Registers}
use tomato.Irq.Exceptions.{Stub, plain_stub, error_stub, has_error_code}

-- The stub of a vector takes the stack as the processor leaves it.
fits : ℕ → Option Stub → Bool
fits vector none = false
fits vector (some (plain_stub num)) = num == vector && not (has_error_code vector)
fits vector (some (error_stub num)) = num == vector && has_error_code vector

-- The error code that a report is about: none is zero.
abbrev pub reported_error : (vector error : ℕ) → ℕ
reported_error vector error = if has_error_code vector then error else 0

-- The vector that the architecture gives to an exception of the name, or none for a reserved one.
pub vector_of : ExceptionName → Option ℕ
vector_of ExceptionName.division_error = some 0
vector_of ExceptionName.debug = some 1
vector_of ExceptionName.non_maskable = some 2
vector_of ExceptionName.breakpoint = some 3
vector_of ExceptionName.overflow = some 4
vector_of ExceptionName.bound_range = some 5
vector_of ExceptionName.invalid_opcode = some 6
vector_of ExceptionName.device_not_available = some 7
vector_of ExceptionName.double_fault = some 8
vector_of ExceptionName.coprocessor_overrun = some 9
vector_of ExceptionName.invalid_tss = some 10
vector_of ExceptionName.segment_not_present = some 11
vector_of ExceptionName.stack_segment = some 12
vector_of ExceptionName.general_protection = some 13
vector_of ExceptionName.page_fault = some 14
vector_of ExceptionName.reserved = none
vector_of ExceptionName.x87_floating_point = some 16
vector_of ExceptionName.alignment_check = some 17
vector_of ExceptionName.machine_check = some 18
vector_of ExceptionName.simd_floating_point = some 19
vector_of ExceptionName.virtualization = some 20
vector_of ExceptionName.control_protection = some 21
vector_of ExceptionName.hypervisor_injection = some 28
vector_of ExceptionName.vmm_communication = some 29
vector_of ExceptionName.security = some 30

-- The vectors to which the architecture gives no exception.
pub is_reserved : ℕ → Bool
is_reserved v = v == 15 || (leb 22 v && leb v 27) || v == 31

-- The name is that of the vector.
fits_vector : ℕ → Option ℕ → Bool
fits_vector v none = is_reserved v
fits_vector v (some w) = w == v

names : ℕ → Option ExceptionName → Bool
names v none = false
names v (some name) = fits_vector v (vector_of name)

abbrev pub Names : ℕ → ExceptionName → Type 0
Names v name = ((vector_of name ≡ some v) ⊎ ((vector_of name ≡ none) × (is_reserved v ≡ true)))

-- The report has the letters D, O, S, Z, A, P and C for the flags that are set, by the masks of the
-- flags in the register, and a dash for each that is not.
abbrev letter_for : (mask letter rflags : ℕ) → ℕ
letter_for mask letter rflags = if leb mask (rflags % (mask * 2)) then letter else b'-'

abbrev pub letters : (rflags : ℕ) → List ℕ
letters rflags =
    letter_for 0x400 b'D' rflags
    ∷ letter_for 0x800 b'O' rflags
    ∷ letter_for 0x80 b'S' rflags
    ∷ letter_for 0x40 b'Z' rflags
    ∷ letter_for 0x20000 b'A' rflags
    ∷ letter_for 0x4 b'P' rflags
    ∷ letter_for 0x1 b'C' rflags
    ∷ []

-- The report names the exception, and prints the place, the flags and the GS base of the code that was
-- interrupted on this core.
abbrev pub IsReport : (vector : ℕ) → Frame → Registers → Cpu → List Line → Type 0
IsReport vector frame registers cpu lines =
    ((name : ExceptionName) × Names vector name × Mem (occurred (some name) vector) lines)
    × Mem (instruction frame.rip frame.rsp frame.rflags (letters frame.rflags)) lines
    × Mem (gs_line cpu.gs_base) lines
