-- ===== src/Sync/Spinlock.antt =====
-- src/sync/spinlock.h under any interleaving of the accesses of several cores.
use tomato.Base.{
  ℕ, ◌≡◌, ◌≢◌, ◌⊎◌, refl, sym, ap, ◌∙◌, subst, Bool, true, false, update, update-cases, update_self,
  update_ne, inl, inr, Bool-cases,
}
use tomato.Irq.{Cpu, irq_save, irq_restore, irq_enable, irq_disable}

-- Where a core stands in `irq_spinlock_acquire` and `irq_spinlock_release`, with the saved state.
pub data Pc : Type 0 where
  outside : Pc
  spinning holding restoring : (state : Bool) → Pc

-- One access of one core to the flag of the lock or to its own interrupt flag.
pub data Move (flag : Bool) (cpu : Cpu) : Pc → Bool → Cpu → Pc → Type 0 where
  -- outside of the lock the core does what it likes
  enable : Move flag cpu Pc.outside flag (irq_enable cpu) Pc.outside
  disable : Move flag cpu Pc.outside flag (irq_disable cpu) Pc.outside
  -- `irq_spinlock_acquire`
  save : Move flag cpu Pc.outside flag (irq_save cpu).1 (Pc.spinning (irq_save cpu).0)
  spin :
      {state : Bool} → flag ≡ true → Move flag cpu (Pc.spinning state) true cpu (Pc.spinning state)
  test_and_set :
      {state : Bool} → flag ≡ false → Move flag cpu (Pc.spinning state) true cpu (Pc.holding state)
  -- `irq_spinlock_release`
  clear : {state : Bool} → Move flag cpu (Pc.holding state) false cpu (Pc.restoring state)
  restore :
      {state : Bool} → Move flag cpu (Pc.restoring state) flag (irq_restore state cpu) Pc.outside

pub record System : Type 0 where
  pub flag : Bool
  pub cpu : ℕ → Cpu
  pub pc : ℕ → Pc

pub data Step (s : System) : System → Type 0 where
  pick :
      (i : ℕ) {flag : Bool} {cpu : Cpu} {pc : Pc}
      → Move s.flag (s.cpu i) (s.pc i) flag cpu pc
      → Step s (record { flag = flag; cpu = update s.cpu i cpu; pc = update s.pc i pc })

-- `INIT_IRQ_SPINLOCK`
abbrev pub initial : (ℕ → Cpu) → System
initial cpus = record { flag = false; cpu = cpus; pc = λ _. Pc.outside }

pub data Reach (cpus : ℕ → Cpu) : System → Type 0 where
  start : Reach cpus (initial cpus)
  later : {s t : System} → Reach cpus s → Step s t → Reach cpus t

abbrev pub holds : Pc → Bool
holds (Pc.holding _) = true
holds _ = false

abbrev pub inside : Pc → Bool
inside Pc.outside = false
inside _ = true

-- The flag is set exactly while one core holds the lock, and a core has its interrupts off from
-- the acquire to the release.
pub record Excludes (s : System) : Type 0 where
  pub alone : (i j : ℕ) → holds (s.pc i) ≡ true → holds (s.pc j) ≡ true → i ≡ j
  pub set : (i : ℕ) → holds (s.pc i) ≡ true → s.flag ≡ true
  pub held : s.flag ≡ true → (i : ℕ) × (holds (s.pc i) ≡ true)
  pub off : (i : ℕ) → inside (s.pc i) ≡ true → (s.cpu i).irq_enabled ≡ false

-- What a move does to the flag and to the core that moves.
record Effect (flag : Bool) (cpu : Cpu) (p : Pc) (flag' : Bool) (cpu' : Cpu) (p' : Pc)
    : Type 0 where
  -- a core holds the lock after it only if it did before, or if nobody did
  gains : holds p' ≡ true → (flag' ≡ true) × ((holds p ≡ true) ⊎ (flag ≡ false))
  keeps : flag ≡ true → holds p ≡ false → flag' ≡ true
  frees : flag' ≡ true → (holds p' ≡ true) ⊎ ((flag ≡ true) × (holds p ≡ false))
  quiet : inside p' ≡ true → (inside p ≡ true → cpu.irq_enabled ≡ false) → cpu'.irq_enabled ≡ false

Move-Effect :
    {flag flag' : Bool} {cpu cpu' : Cpu} {p p' : Pc}
    → Move flag cpu p flag' cpu' p'
    → Effect flag cpu p flag' cpu' p'
Move-Effect enable = record {
  gains = λ h. cc;
  keeps = λ h k. h;
  frees = λ h. inr (h, refl);
  quiet = λ h k. cc;
}
Move-Effect disable = record {
  gains = λ h. cc;
  keeps = λ h k. h;
  frees = λ h. inr (h, refl);
  quiet = λ h k. cc;
}
Move-Effect save = record {
  gains = λ h. cc;
  keeps = λ h k. h;
  frees = λ h. inr (h, refl);
  quiet = λ h k. refl;
}
Move-Effect (spin e) = record {
  gains = λ h. cc;
  keeps = λ h k. refl;
  frees = λ h. inr (e, refl);
  quiet = λ h k. k refl;
}
Move-Effect (test_and_set e) = record {
  gains = λ h. (refl, inr e);
  keeps = λ h k. refl;
  frees = λ h. inl refl;
  quiet = λ h k. k refl;
}
Move-Effect clear = record {
  gains = λ h. cc;
  keeps = λ h k. cc k;
  frees = λ h. cc h;
  quiet = λ h k. k refl;
}
Move-Effect restore = record {
  gains = λ h. cc;
  keeps = λ h k. h;
  frees = λ h. inr (h, refl);
  quiet = λ h k. cc;
}

module _ {s : System} (inv : Excludes s) (i : ℕ) {flag : Bool} {cpu : Cpu} {pc : Pc}
    (e : Effect s.flag (s.cpu i) (s.pc i) flag cpu pc) where
  -- No other core holds the lock where the core that moves holds it afterwards.
  sole : (k : ℕ) → i ≢ k → holds pc ≡ true → holds (s.pc k) ≡ true → ⊥
  sole k n h hk = elim ((e.gains h).1) [
    | inl mine ↦ n (inv.alone i k mine hk)
    | inr unset ↦ cc (inv.set k hk, unset)
  ]

  still_set : (k : ℕ) → i ≢ k → holds (s.pc k) ≡ true → flag ≡ true
  still_set k n hk = elim (Bool-cases (holds (s.pc i))) [
    | inl mine ↦ absurd (n (inv.alone i k mine hk))
    | inr other ↦ e.keeps (inv.set k hk) other
  ]

  -- What a core that holds the lock afterwards is.
  moved :
      (j : ℕ)
      → holds (update s.pc i pc j) ≡ true
      → ((i ≡ j) × (holds pc ≡ true)) ⊎ ((i ≢ j) × (holds (s.pc j) ≡ true))
  moved j h = elim (update-cases s.pc i pc j) [
    | inl (same, here) ↦ inl (same, sym (ap holds here) ∙ h)
    | inr (n, kept) ↦ inr (n, sym (ap holds kept) ∙ h)
  ]

  alone_after :
      (j k : ℕ) → holds (update s.pc i pc j) ≡ true → holds (update s.pc i pc k) ≡ true → j ≡ k
  alone_after j k hj hk = elim (moved j hj) [
    | inl (ij, mine) ↦ elim (moved k hk) [
      | inl (ik, _) ↦ sym ij ∙ ik
      | inr (n, other) ↦ absurd (sole k n mine other)
    ]
    | inr (n, other) ↦ elim (moved k hk) [
      | inl (ik, mine) ↦ absurd (sole j n mine other)
      | inr (_, hk') ↦ inv.alone j k other hk'
    ]
  ]

  set_after : (j : ℕ) → holds (update s.pc i pc j) ≡ true → flag ≡ true
  set_after j h = elim (moved j h) [
    | inl (_, mine) ↦ (e.gains mine).0
    | inr (n, other) ↦ still_set j n other
  ]

  held_after : flag ≡ true → (j : ℕ) × (holds (update s.pc i pc j) ≡ true)
  held_after h = elim (e.frees h) [
    | inl mine ↦ (i, ap holds (update_self s.pc i pc) ∙ mine)
    | inr (before, free) ↦
        let (k, hk) = inv.held before in
        let n : i ≢ k = λ same. let there = ap (λ j. holds (s.pc j)) same in cc (there, free, hk) in
        (k, ap holds (update_ne s.pc i k pc n) ∙ hk)
  ]

  off_after :
      (j : ℕ) → inside (update s.pc i pc j) ≡ true → (update s.cpu i cpu j).irq_enabled ≡ false
  off_after j h = elim (update-cases s.pc i pc j) [
    | inl (same, here) ↦
        subst (λ k. (update s.cpu i cpu k).irq_enabled ≡ false) same
          (ap (λ c. c.irq_enabled) (update_self s.cpu i cpu)
            ∙ e.quiet (sym (ap inside here) ∙ h) (inv.off i))
    | inr (n, kept) ↦
        ap (λ c. c.irq_enabled) (update_ne s.cpu i j cpu n) ∙ inv.off j (sym (ap inside kept) ∙ h)
  ]

Step-Excludes : {s t : System} → Step s t → Excludes s → Excludes t
Step-Excludes (pick i m) inv =
    let e = Move-Effect m in
    record {
      alone = alone_after inv i e;
      set = set_after inv i e;
      held = held_after inv i e;
      off = off_after inv i e;
    }

-- In every state that any interleaving of the cores reaches from the lock that no core holds: at most
-- one core holds the lock, the flag is set exactly while one does, and a core has its interrupts off
-- from the start of the acquire until the release restores them.
pub Reach-Excludes : {cpus : ℕ → Cpu} {s : System} → Reach cpus s → Excludes s
Reach-Excludes start = record {
  alone = λ i j h k. cc h;
  set = λ i h. cc h;
  held = λ h. cc h;
  off = λ i h. cc h;
}
Reach-Excludes (later r step) = Step-Excludes step (Reach-Excludes r)
