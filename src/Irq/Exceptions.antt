-- ===== src/Irq/Exceptions.antt =====
-- src/irq/intr.c: the handlers of the exceptions, each of which stops the kernel with a report.
use tomato.Base.{ℕ, ◌==◌, Bool, ◌||◌, Option, none, some, List, [], ◌∷◌, if◌then◌else◌}
use tomato.Irq.{Frame, Cpu, swapgs}
use tomato.Irq.Panic.{Line, Registers, panic_exception_handler}

unfoldable pub common_exception_handler :
    Frame → (error exception : ℕ) → Registers → Cpu → List Line
common_exception_handler frame error exception registers cpu =
    panic_exception_handler frame error exception registers (swapgs frame cpu)

-- `EXCEPTION_STUB(num)` and `EXCEPTION_ERROR_STUB(num)`
pub data Stub : Type 0 where
  plain_stub error_stub : (num : ℕ) → Stub

unfoldable pub exception_stubs : List Stub
exception_stubs =
    plain_stub 0x00
    ∷ plain_stub 0x01
    ∷ plain_stub 0x02
    ∷ plain_stub 0x03
    ∷ plain_stub 0x04
    ∷ plain_stub 0x05
    ∷ plain_stub 0x06
    ∷ plain_stub 0x07
    ∷ error_stub 0x08
    ∷ plain_stub 0x09
    ∷ error_stub 0x0A
    ∷ error_stub 0x0B
    ∷ error_stub 0x0C
    ∷ error_stub 0x0D
    ∷ plain_stub 0x0F
    ∷ plain_stub 0x10
    ∷ error_stub 0x11
    ∷ plain_stub 0x12
    ∷ plain_stub 0x13
    ∷ plain_stub 0x14
    ∷ error_stub 0x15
    ∷ plain_stub 0x16
    ∷ plain_stub 0x17
    ∷ plain_stub 0x18
    ∷ plain_stub 0x19
    ∷ plain_stub 0x1A
    ∷ plain_stub 0x1B
    ∷ plain_stub 0x1C
    ∷ error_stub 0x1D
    ∷ error_stub 0x1E
    ∷ plain_stub 0x1F
    ∷ []

-- A stub is entered with an error code on the stack, or without one.
abbrev pub run_stub : Stub → Frame → (pushed : Option ℕ) → Registers → Cpu → Option (List Line)
run_stub (plain_stub num) frame none registers cpu =
    some (common_exception_handler frame 0 num registers cpu)
run_stub (error_stub num) frame (some error) registers cpu =
    some (common_exception_handler frame error num registers cpu)
run_stub _ frame pushed registers cpu = none

abbrev pub stub_number : Stub → ℕ
stub_number (plain_stub num) = num
stub_number (error_stub num) = num

unfoldable pub find_stub : (num : ℕ) → List Stub → Option Stub
find_stub num [] = none
find_stub num (stub ∷ rest) =
    let later = find_stub num rest in if stub_number stub == num then some stub else later

abbrev pub run_found : Option Stub → Frame → Option ℕ → Registers → Cpu → Option (List Line)
run_found none frame pushed registers cpu = none
run_found (some stub) frame pushed registers cpu = run_stub stub frame pushed registers cpu

-- The report of `exception_handler_##num`, or `none` where there is no such handler or where it takes
-- the stack for another one than there is.
unfoldable pub exception_report :
    (num : ℕ) → Frame → Option ℕ → Registers → Cpu → Option (List Line)
exception_report num frame pushed registers cpu =
    run_found (find_stub num exception_stubs) frame pushed registers cpu

-- The exceptions for which the processor pushes an error code, and what is then on the stack.
abbrev pub has_error_code : ℕ → Bool
has_error_code vector =
    vector == 8
    || (vector == 10 || vector == 11 || vector == 12 || vector == 13)
    || (vector == 14 || vector == 17 || vector == 21 || vector == 29 || vector == 30)

abbrev pub pushed_for : (vector error : ℕ) → Option ℕ
pushed_for vector error = if has_error_code vector then some error else none
