-- ===== src/Irq/Idt.antt =====
-- src/irq/intr.c: the table of the interrupt gates, what `intr_init` writes into it, and what the
-- processor reads there. The addresses of the handlers are an argument: the linker places them.
use tomato.Base.{ℕ, ◌+◌, ◌*◌, ◌/◌, ◌%◌, ◌^◌, List, [], ◌∷◌, update}
use tomato.Irq.{kernel_code}

-- `idt_entry_t`; the reserved fields are never written.
pub record IdtEntry : Type 0 where
  pub handler_low : ℕ
  pub selector : ℕ
  pub ist : ℕ
  pub gate_type : ℕ
  pub ring : ℕ
  pub present : ℕ
  pub handler_high : ℕ

-- `m_idt_entries`
abbrev pub IdtEntries : Type 0
IdtEntries = ℕ → IdtEntry

-- The table before it is written.
abbrev pub no_entries : IdtEntries
no_entries _ = record {
  handler_low = 0;
  selector = 0;
  ist = 0;
  gate_type = 0;
  ring = 0;
  present = 0;
  handler_high = 0;
}

-- The functions that the table names: `exception_handler_##num` and `page_fault_handler`.
pub data Handler : Type 0 where
  exception_handler : (num : ℕ) → Handler
  page_fault_handler : Handler

-- `tss_ist_t`
pub data TssIst : Type 0 where
  ist_none ist_df ist_nmi ist_db ist_mce ist_cp : TssIst

abbrev pub ist_number : TssIst → ℕ
ist_number TssIst.ist_none = 0
ist_number TssIst.ist_df = 1
ist_number TssIst.ist_nmi = 2
ist_number TssIst.ist_db = 3
ist_number TssIst.ist_mce = 4
ist_number TssIst.ist_cp = 5

-- `IDT_TYPE_INTERRUPT_32`
abbrev pub interrupt_32 : ℕ
interrupt_32 = 14

unfoldable pub intr_set_handler_ist : (vector func : ℕ) → TssIst → IdtEntries → IdtEntries
intr_set_handler_ist vector func ist entries = update entries vector (record (entries vector) {
  handler_low = func % 2 ^ 16;
  handler_high = func / 2 ^ 16 % 2 ^ 48;
  gate_type = interrupt_32;
  selector = kernel_code;
  present = 1;
  ist = ist_number ist;
})

abbrev pub intr_set_handler : (vector func : ℕ) → IdtEntries → IdtEntries
intr_set_handler vector func entries = intr_set_handler_ist vector func TssIst.ist_none entries

-- A call of `intr_set_handler` or of `intr_set_handler_ist`.
pub data Call : Type 0 where
  set : (vector : ℕ) → Handler → Call
  set_ist : (vector : ℕ) → Handler → TssIst → Call

-- The calls of `intr_init`, in their order.
abbrev pub init_calls : List Call
init_calls =
    set 0 (exception_handler 0x00)
    ∷ set_ist 1 (exception_handler 0x01) TssIst.ist_db
    ∷ set_ist 2 (exception_handler 0x02) TssIst.ist_nmi
    ∷ set 3 (exception_handler 0x03)
    ∷ set 4 (exception_handler 0x04)
    ∷ set 5 (exception_handler 0x05)
    ∷ set 6 (exception_handler 0x06)
    ∷ set 0x07 (exception_handler 0x07)
    ∷ set_ist 8 (exception_handler 0x08) TssIst.ist_df
    ∷ set 0x09 (exception_handler 0x09)
    ∷ set 10 (exception_handler 0x0A)
    ∷ set 11 (exception_handler 0x0B)
    ∷ set 12 (exception_handler 0x0C)
    ∷ set 13 (exception_handler 0x0D)
    ∷ set 14 page_fault_handler
    ∷ set 0x0F (exception_handler 0x0F)
    ∷ set 16 (exception_handler 0x10)
    ∷ set 17 (exception_handler 0x11)
    ∷ set_ist 18 (exception_handler 0x12) TssIst.ist_mce
    ∷ set 19 (exception_handler 0x13)
    ∷ set 0x14 (exception_handler 0x14)
    ∷ set_ist 21 (exception_handler 0x15) TssIst.ist_cp
    ∷ set 0x16 (exception_handler 0x16)
    ∷ set 0x17 (exception_handler 0x17)
    ∷ set 0x18 (exception_handler 0x18)
    ∷ set 0x19 (exception_handler 0x19)
    ∷ set 0x1A (exception_handler 0x1A)
    ∷ set 0x1B (exception_handler 0x1B)
    ∷ set 0x1C (exception_handler 0x1C)
    ∷ set 0x1D (exception_handler 0x1D)
    ∷ set 0x1E (exception_handler 0x1E)
    ∷ set 0x1F (exception_handler 0x1F)
    ∷ []

module _ (address_of : Handler → ℕ) where
  abbrev pub run_call : Call → IdtEntries → IdtEntries
  run_call (set vector func) entries = intr_set_handler vector (address_of func) entries
  run_call (set_ist vector func ist) entries =
      intr_set_handler_ist vector (address_of func) ist entries

  unfoldable pub run_calls : List Call → IdtEntries → IdtEntries
  run_calls [] entries = entries
  run_calls (call ∷ rest) entries = run_calls rest (run_call call entries)

  unfoldable pub intr_init : IdtEntries → IdtEntries
  intr_init entries = run_calls init_calls entries

-- The two words of an entry in memory, the first field in the lowest bits.
abbrev pub entry_low : IdtEntry → ℕ
entry_low e =
    e.handler_low
    + e.selector * 2 ^ 16
    + e.ist * 2 ^ 32
    + e.gate_type * 2 ^ 40
    + e.ring * 2 ^ 45
    + e.present * 2 ^ 47
    + e.handler_high % 2 ^ 16 * 2 ^ 48

abbrev pub entry_high : IdtEntry → ℕ
entry_high e = e.handler_high / 2 ^ 16
