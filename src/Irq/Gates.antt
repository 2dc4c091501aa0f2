-- ===== src/Irq/Gates.antt =====
-- src/irq/intr.c: the gate that the processor finds for each vector after `intr_init`.
use tomato.Base.{
  ℕ, ◌+◌, ◌*◌, ◌/◌, ◌%◌, ◌^◌, ◌≤◌, ◌<◌, ◌≡◌, ◌≢◌, refl, ap, subst, ◌∙◌, Bool, true, false, ◌&&◌,
  Option, none, some, List, [], ◌∷◌, ◌==◌, ==_iff, if◌then◌else◌, update_self, update_ne, arith,
  u64_mod, inl, inr, Option-cases, ==_refl, all_below, all_below_sound, ltb, ap₂,
}
use native.Mathlib.Decide.{ℕ_discrete}
use tomato.Irq.{kernel_code}
use tomato.Irq.Idt.{
  IdtEntry, IdtEntries, no_entries, Handler, exception_handler, page_fault_handler, TssIst,
  ist_number, interrupt_32, intr_set_handler_ist, Call, set, set_ist, init_calls, run_call,
  run_calls, intr_init, entry_low, entry_high,
}

-- What the processor takes from the two words of a gate: the bits 0 to 15 and 48 to 95 are the
-- offset, 16 to 31 the selector, 32 to 34 the interrupt stack, 40 to 43 the type, 45 and 46 the
-- privilege level, and 47 says whether the gate is there.
pub record Gate : Type 0 where
  pub offset : ℕ
  pub selector : ℕ
  pub ist : ℕ
  pub gate_type : ℕ
  pub privilege : ℕ
  pub present : ℕ

abbrev pub read_gate : (low high : ℕ) → Gate
read_gate low high = record {
  offset = low % 2 ^ 16 + low / 2 ^ 48 % 2 ^ 16 * 2 ^ 16 + high % 2 ^ 32 * 2 ^ 32;
  selector = low / 2 ^ 16 % 2 ^ 16;
  ist = low / 2 ^ 32 % 8;
  gate_type = low / 2 ^ 40 % 16;
  privilege = low / 2 ^ 45 % 4;
  present = low / 2 ^ 47 % 2;
}

abbrev pub gate_of : IdtEntry → Gate
gate_of e = read_gate (entry_low e) (entry_high e)

-- An interrupt gate of the kernel.
abbrev pub kernel_gate : (offset ist : ℕ) → Gate
kernel_gate offset ist = record {
  offset = offset;
  selector = kernel_code;
  ist = ist;
  gate_type = interrupt_32;
  privilege = 0;
  present = 1;
}

abbrev entry : (func ist : ℕ) → IdtEntry
entry func ist = record {
  handler_low = func % 2 ^ 16;
  selector = kernel_code;
  ist = ist;
  gate_type = interrupt_32;
  ring = 0;
  present = 1;
  handler_high = func / 2 ^ 16 % 2 ^ 48;
}

Gate-eq :
    {a b : Gate}
    → a.offset ≡ b.offset
    → a.selector ≡ b.selector
    → a.ist ≡ b.ist
    → a.gate_type ≡ b.gate_type
    → a.privilege ≡ b.privilege
    → a.present ≡ b.present
    → a ≡ b
Gate-eq {a} {b} o s i t p q = cc

gate_of-entry :
    (func ist : ℕ) → func < u64_mod → ist < 8 → gate_of (entry func ist) ≡ kernel_gate func ist
gate_of-entry func ist h k =
    Gate-eq (omega arith) (omega arith) (omega arith) (omega arith) (omega arith) (omega arith)

abbrev call_vector : Call → ℕ
call_vector (set vector func) = vector
call_vector (set_ist vector func ist) = vector

abbrev call_handler : Call → Handler
call_handler (set vector func) = func
call_handler (set_ist vector func ist) = func

abbrev call_ist : Call → ℕ
call_ist (set vector func) = 0
call_ist (set_ist vector func ist) = ist_number ist

abbrev or_else : Option Call → Option Call → Option Call
or_else (some later) call = some later
or_else none call = call

-- The call that a vector has last.
last_for : ℕ → List Call → Option Call
last_for vector [] = none
last_for vector (call ∷ rest) =
    or_else (last_for vector rest) (if call_vector call == vector then some call else none)

module _ (address_of : Handler → ℕ) where
  -- What a call leaves in its entry.
  abbrev written : IdtEntry → Option Call → IdtEntry
  written before none = before
  written before (some call) = entry (address_of (call_handler call)) (call_ist call)

  abbrev NoRings : IdtEntries → Type 0
  NoRings entries = (vector : ℕ) → (entries vector).ring ≡ 0

  entry_eq :
      (e : IdtEntry) (func ist : ℕ)
      → e.ring ≡ 0
      → record e {
        handler_low = func % 2 ^ 16;
        handler_high = func / 2 ^ 16 % 2 ^ 48;
        gate_type = interrupt_32;
        selector = kernel_code;
        present = 1;
        ist = ist;
      }
        ≡ entry func ist
  entry_eq e func ist h = rw h refl

  run_call-same :
      (call : Call) (entries : IdtEntries)
      → NoRings entries
      → run_call address_of call entries (call_vector call) ≡ written (entries 0) (some call)
  unfolding intr_set_handler_ist
  run_call-same (set vector func) entries h =
      update_self entries vector _ ∙ entry_eq (entries vector) (address_of func) 0 (h vector)
  run_call-same (set_ist vector func ist) entries h =
      update_self entries vector _
      ∙ entry_eq (entries vector) (address_of func) (ist_number ist) (h vector)

  run_call-other :
      (call : Call) (entries : IdtEntries) (v : ℕ)
      → call_vector call ≢ v
      → run_call address_of call entries v ≡ entries v
  unfolding intr_set_handler_ist
  run_call-other (set vector func) entries v n = update_ne entries vector v _ n
  run_call-other (set_ist vector func ist) entries v n = update_ne entries vector v _ n

  run_call-written :
      (call : Call) (entries : IdtEntries) (v : ℕ)
      → NoRings entries
      → run_call address_of call entries v
        ≡ written (entries v) (if call_vector call == v then some call else none)
  run_call-written call entries v h = elim (ℕ_discrete (call_vector call) v) [
    | yes e ↦ rw (==_refl (call_vector call) v e) (
        subst (λ w. run_call address_of call entries w ≡ written (entries 0) (some call)) e
          (run_call-same call entries h))
    | no n ↦
        let differ : (call_vector call == v) ≡ false = ground arith in
        rw differ (run_call-other call entries v n)
  ]

  run_call-NoRings :
      (call : Call) (entries : IdtEntries)
      → NoRings entries
      → NoRings (run_call address_of call entries)
  run_call-NoRings call entries h v = elim (ℕ_discrete (call_vector call) v) [
    | yes e ↦
        subst (λ w. (run_call address_of call entries w).ring ≡ 0) e
          (ap (λ g. g.ring) (run_call-same call entries h))
    | no n ↦ ap (λ g. g.ring) (run_call-other call entries v n) ∙ h v
  ]

  run_calls-written :
      (calls : List Call) (entries : IdtEntries) (v : ℕ)
      → NoRings entries
      → run_calls address_of calls entries v ≡ written (entries v) (last_for v calls)
  unfolding run_calls last_for
  run_calls-written [] entries v h = refl
  run_calls-written (call ∷ rest) entries v h =
      run_calls-written rest (run_call address_of call entries) v (run_call-NoRings call entries h)
      ∙ elim (Option-cases (last_for v rest)) [
        | inl e ↦ rw e (run_call-written call entries v h)
        | inr (d, e) ↦ rw e refl
      ]

-- The handler and the interrupt stack of a vector in the manual of the processor.
abbrev pub handler_for : ℕ → Handler
handler_for vector = if vector == 14 then page_fault_handler else exception_handler vector

abbrev pub ist_for : ℕ → TssIst
ist_for vector =
    if vector == 1
    then TssIst.ist_db
    else if vector == 2
    then TssIst.ist_nmi
    else if vector == 8
    then TssIst.ist_df
    else if vector == 18
    then TssIst.ist_mce
    else if vector == 21
    then TssIst.ist_cp
    else TssIst.ist_none

same_handler : Handler → Handler → Bool
same_handler page_fault_handler page_fault_handler = true
same_handler (exception_handler a) (exception_handler b) = a == b
same_handler _ _ = false

same_handler_sound : (a b : Handler) → same_handler a b ≡ true → a ≡ b
unfolding same_handler
same_handler_sound page_fault_handler page_fault_handler h = refl
same_handler_sound page_fault_handler (exception_handler b) h = cc
same_handler_sound (exception_handler a) page_fault_handler h = cc
same_handler_sound (exception_handler a) (exception_handler b) h =
    ap exception_handler ((==_iff a b).0 h)

-- The last call for a vector is the one that the vector should have.
is_set : ℕ → Option Call → Bool
is_set vector none = false
is_set vector (some call) =
    same_handler (call_handler call) (handler_for vector)
    && (call_ist call == ist_number (ist_for vector))

all_set : all_below 32 (λ v. is_set v (last_for v init_calls)) ≡ true
unfolding is_set last_for same_handler
all_set = refl

is_set_sound :
    (address_of : Handler → ℕ) (v : ℕ) (before : IdtEntry) (o : Option Call)
    → is_set v o ≡ true
    → written address_of before o ≡ entry (address_of (handler_for v)) (ist_number (ist_for v))
unfolding is_set
is_set_sound address_of v before none h = cc
is_set_sound address_of v before (some call) h =
    ap₂ (λ f i. entry (address_of f) i)
      (same_handler_sound (call_handler call) (handler_for v) (ground arith)) (ground arith)

-- A vector that no call names.
all_under : ℕ → List Call → Bool
all_under n [] = true
all_under n (call ∷ rest) = ltb (call_vector call) n && all_under n rest

last_for-none :
    (n v : ℕ) (calls : List Call) → all_under n calls ≡ true → n ≤ v → last_for v calls ≡ none
unfolding all_under last_for
last_for-none n v [] h k = refl
last_for-none n v (call ∷ rest) h k = rw (last_for-none n v rest (ground arith) k) (ground arith)

ist_number-small : (ist : TssIst) → ist_number ist < 8
ist_number-small TssIst.ist_none = omega arith
ist_number-small TssIst.ist_df = omega arith
ist_number-small TssIst.ist_nmi = omega arith
ist_number-small TssIst.ist_db = omega arith
ist_number-small TssIst.ist_mce = omega arith
ist_number-small TssIst.ist_cp = omega arith

init_under : all_under 32 init_calls ≡ true
unfolding all_under
init_under = refl

-- With handlers at 64-bit addresses: in the table that `intr_init` writes over the zeroed one, the processor
-- finds for each vector below 32 a present interrupt gate of the kernel, at privilege level 0, whose
-- offset is the address of the handler of that vector, the page-fault handler for the vector 14, and
-- whose stack is the one of that vector. For every other vector it finds no gate that is present.
pub intr_init-gates :
    (address_of : Handler → ℕ)
    → ((h : Handler) → address_of h < u64_mod)
    → (v : ℕ)
    → (v < 32
        → gate_of (intr_init address_of no_entries v)
          ≡ kernel_gate (address_of (handler_for v)) (ist_number (ist_for v)))
      × (32 ≤ v → (gate_of (intr_init address_of no_entries v)).present ≡ 0)
unfolding intr_init
intr_init-gates address_of small v =
    let set = run_calls-written address_of init_calls no_entries v (λ _. refl) in
    (
      λ h.
          ap gate_of (
            set
            ∙ is_set_sound address_of v (no_entries v) (last_for v init_calls)
                (all_below_sound 32 (λ w. is_set w (last_for w init_calls)) v all_set h))
          ∙ gate_of-entry (address_of (handler_for v)) (ist_number (ist_for v))
              (small (handler_for v)) (ist_number-small (ist_for v)),
      λ h.
          ap (λ e. (gate_of e).present)
            (set
              ∙ ap (written address_of (no_entries v))
                  (last_for-none 32 v init_calls init_under h)),
    )
