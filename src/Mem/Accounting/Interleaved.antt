-- ===== src/Mem/Accounting/Interleaved.antt =====
-- src/mem/accounting.c run by several cores at once: each atomic access of a counter is a step.
use tomato.Base.{
  update-cases, update_self, ap, ◌∙◌, ◌≢◌, ℕ, ◌+◌, ◌-◌, ◌≤◌, ◌<◌, ◌≡◌, refl, Bool, true, false,
  if◌then◌else◌, u64_mod, sub_u64, arith, update, sum_upto, sum_upto-update, sum_upto-zero, ◌⊎◌,
  inl, inr,
}
use tomato.Mem.Accounting.{Accounting, Counter, load, store, fetch_add}

-- Where a core stands in an operation, with its live locals.
pub data Pc : Type 0 where
  idle : Pc
  -- in the loop of `mem_acct_take_available` with `available = seen`, to reserve or to commit
  trying : (reserving : Bool) (n seen : ℕ) → Pc
  -- before the second access of an operation
  adding : Counter → ℕ → Pc
  -- in the endless loop of a failed `ASSERT`
  panicked : Pc

abbrev pub taken_to : Bool → Counter
taken_to true = Counter.reserved
taken_to false = Counter.committed

-- The operations that subtract from one counter and add to another: `mem_acct_unreserve`,
-- `mem_acct_commit_reserved`, `mem_acct_uncommit` and `mem_acct_uncommit_to_reserved`.
pub data Transfer : Counter → Counter → Type 0 where
  unreserving : Transfer Counter.reserved Counter.available
  committing : Transfer Counter.reserved Counter.committed
  uncommitting : Transfer Counter.committed Counter.available
  returning : Transfer Counter.committed Counter.reserved

-- One access of one core. Which operation a core runs next is left open.
pub data Move (m : Accounting) : Pc → Accounting → Pc → Type 0 where
  look : (r : Bool) (n : ℕ) → Move m Pc.idle m (Pc.trying r n m.available)
  refuse : {r : Bool} {n seen : ℕ} → seen < n → Move m (Pc.trying r n seen) m Pc.idle
  cas_win :
      {r : Bool} {n seen : ℕ}
      → n ≤ seen
      → m.available ≡ seen
      → Move m (Pc.trying r n seen) (record m { available = seen - n }) (Pc.adding (taken_to r) n)
  -- a weak compare-exchange may also fail without cause
  cas_lose :
      {r : Bool} {n seen : ℕ} → n ≤ seen → Move m (Pc.trying r n seen) m (Pc.trying r n m.available)
  subtract :
      {c d : Counter} {n : ℕ}
      → Transfer c d
      → n ≤ load c m
      → Move m Pc.idle (store c (sub_u64 (load c m) n) m) (Pc.adding d n)
  underflow :
      {c d : Counter} {n : ℕ}
      → Transfer c d
      → load c m < n
      → Move m Pc.idle (store c (sub_u64 (load c m) n) m) Pc.panicked
  -- `mem_acct_add_total` and `mem_acct_add_committed`; the machine has fewer than 2 ^ 64 pages
  grow :
      {n : ℕ}
      → (to_committed : Bool) → m.total + n < u64_mod
      → Move m Pc.idle
          (fetch_add Counter.total n m)
          (Pc.adding (if to_committed then Counter.committed else Counter.available) n)
  finish : {c : Counter} {n : ℕ} → Move m (Pc.adding c n) (fetch_add c n m) Pc.idle

pub record System : Type 0 where
  pub mem : Accounting
  pub pc : ℕ → Pc

pub data Step (cores : ℕ) (s : System) : System → Type 0 where
  pick :
      (i : ℕ) {m : Accounting} {p : Pc}
      → i < cores
      → Move s.mem (s.pc i) m p
      → Step cores s (record { mem = m; pc = update s.pc i p })

-- The zero-initialised counters.
abbrev pub boot : System
boot = record {
  mem = record { available = 0; total = 0; committed = 0; reserved = 0 };
  pc = λ _. Pc.idle;
}

pub data Reach (cores : ℕ) : System → Type 0 where
  start : Reach cores boot
  later : {s t : System} → Reach cores s → Step cores s t → Reach cores t

-- The pages that a core has taken from one counter and not yet added to the next.
abbrev pub in_flight : Pc → ℕ
in_flight (Pc.adding Counter.total n) = 0
in_flight (Pc.adding c n) = n
in_flight _ = 0

abbrev pub NotTotal : Pc → Type 0
NotTotal (Pc.adding Counter.total n) = ⊥
NotTotal _ = Unit

-- No page is counted twice or lost, those in flight included.
pub record Inv (cores : ℕ) (m : Accounting) (pc : ℕ → Pc) : Type 0 where
  pub sum : m.available + m.committed + m.reserved + sum_upto in_flight cores pc ≡ m.total
  pub fits : m.total < u64_mod
  pub proper : (i : ℕ) → NotTotal (pc i)

module _ {cores : ℕ} {m : Accounting} {pc : ℕ → Pc} (inv : Inv cores m pc) (i : ℕ)
    (lt : i < cores) where
  open inv use {sum, fits, proper}

  Move-counts :
      {p p' : Pc} {m' : Accounting}
      → Move m p m' p'
      → NotTotal p
      → in_flight (pc i) ≡ in_flight p
      → sum_upto in_flight cores (update pc i p') + in_flight p
        ≡ in_flight p' + sum_upto in_flight cores pc
      → (p' ≡ Pc.panicked)
        ⊎ ((m'.available + m'.committed + m'.reserved + sum_upto in_flight cores (update pc i p')
              ≡ m'.total)
            × (m'.total < u64_mod)
            × NotTotal p')
  unfolding load store fetch_add
  Move-counts (look r n) nt e f = inr (ground arith, ground arith, tt)
  Move-counts (refuse h) nt e f = inr (ground arith, ground arith, tt)
  Move-counts (cas_win {r = true} h g) nt e f = inr (ground arith, ground arith, tt)
  Move-counts (cas_win {r = false} h g) nt e f = inr (ground arith, ground arith, tt)
  Move-counts (cas_lose h) nt e f = inr (ground arith, ground arith, tt)
  Move-counts (subtract unreserving h) nt e f = inr (ground arith, ground arith, tt)
  Move-counts (subtract committing h) nt e f = inr (ground arith, ground arith, tt)
  Move-counts (subtract uncommitting h) nt e f = inr (ground arith, ground arith, tt)
  Move-counts (subtract returning h) nt e f = inr (ground arith, ground arith, tt)
  Move-counts (underflow t h) nt e f = inl refl
  Move-counts (grow true h) nt e f = inr (ground arith, ground arith, tt)
  Move-counts (grow false h) nt e f = inr (ground arith, ground arith, tt)
  Move-counts (finish {c = Counter.available}) nt e f = inr (ground arith, ground arith, tt)
  Move-counts (finish {c = Counter.committed}) nt e f = inr (ground arith, ground arith, tt)
  Move-counts (finish {c = Counter.reserved}) nt e f = inr (ground arith, ground arith, tt)
  Move-counts (finish {c = Counter.total}) nt e f = absurd nt

  Move-Inv :
      {p' : Pc} {m' : Accounting}
      → Move m (pc i) m' p'
      → (p' ≡ Pc.panicked) ⊎ Inv cores m' (update pc i p')
  Move-Inv {p'} mv =
      elim (Move-counts mv (proper i) refl (sum_upto-update in_flight cores i pc p' lt)) [
        | inl stuck ↦ inl stuck
        | inr (total, small, fine) ↦ inr (record {
          sum = total;
          fits = small;
          proper = λ j. elim (update-cases pc i p' j) [
            | inl (_, e) ↦ rw e fine
            | inr (_, e) ↦ rw e (proper j)
          ];
        })
      ]

-- A core that has panicked makes no further step.
Move-panicked : {m m' : Accounting} {p p' : Pc} → Move m p m' p' → p ≢ Pc.panicked
Move-panicked (look r n) e = cc
Move-panicked mv e = cc

abbrev pub Panicked : System → Type 0
Panicked s = (i : ℕ) × (s.pc i ≡ Pc.panicked)

Step-Inv :
    {cores : ℕ} {s t : System}
    → Step cores s t
    → Panicked s ⊎ Inv cores s.mem s.pc
    → Panicked t ⊎ Inv cores t.mem t.pc
Step-Inv {s} (pick i {p = p'} lt mv) (inl (j, stuck)) = elim (update-cases s.pc i p' j) [
  | inl (e, _) ↦ absurd (Move-panicked mv (ap s.pc e ∙ stuck))
  | inr (_, e) ↦ inl (j, e ∙ stuck)
]
Step-Inv {s} (pick i {p = p'} lt mv) (inr inv) = elim (Move-Inv inv i lt mv) [
  | inl stuck ↦ inl (i, update_self s.pc i p' ∙ stuck)
  | inr kept ↦ inr kept
]

Reach-Inv : {cores : ℕ} {s : System} → Reach cores s → Panicked s ⊎ Inv cores s.mem s.pc
Reach-Inv {cores} start = inr (record {
  sum = rw (sum_upto-zero in_flight cores (λ _. Pc.idle) (λ _. refl));
  fits = omega arith;
  proper = λ _. tt;
})
Reach-Inv (later r st) = Step-Inv st (Reach-Inv r)

-- In every state that any interleaving of the operations reaches from the zeroed counters, either a
-- core has panicked on an underflow, or no page is lost or counted twice, counting the pages that
-- the cores are moving, so that committed and reserved pages together never exceed the total.
pub Reach-conserves :
    {cores : ℕ} {s : System}
    → Reach cores s
    → Panicked s
      ⊎ ((s.mem.available + s.mem.committed + s.mem.reserved + sum_upto in_flight cores s.pc
            ≡ s.mem.total)
          × (s.mem.committed + s.mem.reserved ≤ s.mem.total)
          × (s.mem.total < u64_mod))
Reach-conserves r = elim (Reach-Inv r) [
  | inl stuck ↦ inl stuck
  | inr inv ↦ inr (inv.sum, omega (arith, inv.sum), inv.fits)
]
