-- ===== src/Mem/Accounting/Balance.antt =====
-- What the operations of src/mem/accounting.c keep and move, one at a time.
use tomato.Base.{
  ◌↔◌, ◌-◌, success, out_of_resources, Bool-cases, ◌⊎◌, inl, inr, ℕ, ◌+◌, ◌≤◌, ◌<◌, ◌≡◌, true,
  false, Run, ok, halt, Returns, ltb, u64_mod, arith,
}
use tomato.Mem.Accounting.{
  Accounting, reserve, unreserve, add_total, add_committed, commit, commit_reserved, uncommit,
  uncommit_to_reserved,
}

-- Each page of the total is available, committed or reserved, and the total fits a `size_t`.
pub record IsBalanced (a : Accounting) : Type 0 where
  pub sum : a.available + a.committed + a.reserved ≡ a.total
  pub fits : a.total < u64_mod

-- An operation of the interface, with its page count.
pub data Op : Type 0 where
  reserves unreserves adds_total adds_committed commits commits_reserved uncommits
        uncommits_to_reserved :
      ℕ → Op

-- The counters after an operation, whatever it returns.
pub exec : Op → Accounting → Run Accounting
unfolding reserve unreserve add_total add_committed commit commit_reserved uncommit
    uncommit_to_reserved
exec (Op.reserves n) a = ok (reserve n a).1
exec (Op.unreserves n) a = unreserve n a
exec (Op.adds_total n) a = ok (add_total n a)
exec (Op.adds_committed n) a = ok (add_committed n a)
exec (Op.commits n) a = ok (commit n a).1
exec (Op.commits_reserved n) a = commit_reserved n a
exec (Op.uncommits n) a = uncommit n a
exec (Op.uncommits_to_reserved n) a = uncommit_to_reserved n a

-- The pages that the caller gives back were counted, and new pages fit.
abbrev pub Legal : Op → Accounting → Type 0
Legal (Op.reserves n) a = Unit
Legal (Op.unreserves n) a = n ≤ a.reserved
Legal (Op.adds_total n) a = a.total + n < u64_mod
Legal (Op.adds_committed n) a = a.total + n < u64_mod
Legal (Op.commits n) a = Unit
Legal (Op.commits_reserved n) a = n ≤ a.reserved
Legal (Op.uncommits n) a = n ≤ a.committed
Legal (Op.uncommits_to_reserved n) a = n ≤ a.committed

-- On balanced counters, an operation that its counters cover returns and leaves them balanced.
pub exec-IsBalanced :
    (op : Op) (a : Accounting) → IsBalanced a → Legal op a → Returns IsBalanced (exec op a)
unfolding exec
exec-IsBalanced (Op.reserves n) a b l = ground arith
exec-IsBalanced op a b l = ground arith

-- The caller gives back more pages than its counter holds.
abbrev pub Underflows : Op → Accounting → Type 0
Underflows (Op.unreserves n) a = a.reserved < n
Underflows (Op.commits_reserved n) a = a.reserved < n
Underflows (Op.uncommits n) a = a.committed < n
Underflows (Op.uncommits_to_reserved n) a = a.committed < n
Underflows _ a = ⊥

-- An operation stops the machine exactly when it underflows its counter, whatever the counters are.
pub exec-eq-halt_iff : (op : Op) (a : Accounting) → (exec op a ≡ halt) ↔ Underflows op a
unfolding exec
exec-eq-halt_iff (Op.reserves n) a = (λ e. ground arith, λ h. absurd h)
exec-eq-halt_iff op a = (λ e. ground arith, λ h. ground arith)

-- `n` pages have gone from the available to the committed ones.
abbrev pub Moved : ℕ → (before after : Accounting) → Type 0
Moved n a a' =
    (a'.available + n ≡ a.available)
    × (a'.committed ≡ a.committed + n)
    × (a'.reserved ≡ a.reserved)
    × (a'.total ≡ a.total)

-- On balanced counters, a commit with enough available pages succeeds and moves them to the committed
-- pages. Any other commit fails and changes nothing.
pub commit_lem :
    (n : ℕ) {a : Accounting}
    → IsBalanced a
    → ((n ≤ a.available) × ((commit n a).0 ≡ true) × Moved n a (commit n a).1)
      ⊎ ((a.available < n) × (commit n a ≡ (false, a)))
unfolding commit
commit_lem n {a} b = elim (Bool-cases (ltb a.available n)) [
  | inl e ↦ inr (ground arith, ground arith)
  | inr e ↦ inl (ground arith, ground arith, ground arith)
]

-- On balanced counters, a reservation with enough available pages succeeds and moves them to the
-- reserved pages. Any other is refused with `OUT_OF_RESOURCES` and changes nothing.
reserve_lem :
    (n : ℕ) {a : Accounting}
    → IsBalanced a
    → ((n ≤ a.available)
        × (reserve n a
            ≡ (success, record a { available = a.available - n; reserved = a.reserved + n })))
      ⊎ ((a.available < n) × (reserve n a ≡ (out_of_resources, a)))
unfolding reserve
reserve_lem n {a} b = elim (Bool-cases (ltb a.available n)) [
  | inl e ↦ inr (ground arith, ground arith)
  | inr e ↦ inl (ground arith, ground arith)
]
