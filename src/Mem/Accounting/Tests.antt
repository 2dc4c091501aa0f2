-- ===== src/Mem/Accounting/Tests.antt =====
-- Runs of the accounting operations, and the theorems at concrete counters.
use tomato.Base.{
  ◌+◌, ◌≤◌, ◌<◌, ◌≡◌, refl, true, false, ◌⊎◌, Returns, out_of_resources, u64_mod, sum_upto, arith,
}
use tomato.Mem.Accounting.{fetch_add, Accounting, commit, reserve}
use tomato.Mem.Accounting.Balance.{IsBalanced, Op, exec, exec-IsBalanced}
use tomato.Mem.Accounting.Interleaved.{
  System, Reach, start, later, pick, Panicked, in_flight, look, cas_win, grow, finish,
  Reach-conserves,
}

abbrev small : Accounting
small = record { available = 5; total = 12; committed = 4; reserved = 3 }

small-IsBalanced : IsBalanced small
small-IsBalanced = omega arith

commit_runs :
    commit 2 small ≡ (true, record { available = 3; total = 12; committed = 6; reserved = 3 })
unfolding commit
commit_runs = refl

reserve_refused : reserve 6 small ≡ (out_of_resources, small)
unfolding reserve
reserve_refused = refl

exec-IsBalanced_example : Returns IsBalanced (exec (Op.uncommits_to_reserved 4) small)
exec-IsBalanced_example =
    exec-IsBalanced (Op.uncommits_to_reserved 4) small small-IsBalanced (omega arith)

-- Core 0 has added 8 pages, core 1 has taken 3 of them and not yet counted them as committed.
abbrev racing : (s : System) × Reach 2 s
unfolding fetch_add
racing = (
  _,
  later
      (later
        (later (later start (pick 0 {p = _} (omega arith) (grow {n = 8} false (omega arith))))
          (pick 0 (omega arith) finish))
        (pick 1 (omega arith) (look false 3)))
      (pick 1 (omega arith) (cas_win (omega arith) refl)),
)

racing_counts : (racing.0.mem.available ≡ 5) × (racing.0.mem.total ≡ 8)
unfolding fetch_add
racing_counts = (refl, refl)

Reach-conserves_example :
    Panicked racing.0
    ⊎ ((racing.0.mem.available
            + racing.0.mem.committed
            + racing.0.mem.reserved
            + sum_upto in_flight 2 racing.0.pc
          ≡ racing.0.mem.total)
        × (racing.0.mem.committed + racing.0.mem.reserved ≤ racing.0.mem.total)
        × (racing.0.mem.total < u64_mod))
Reach-conserves_example = Reach-conserves racing.1
