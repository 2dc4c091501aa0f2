-- ===== src/Sync/Tests.antt =====
-- Runs of the locks of src/sync.
use tomato.Base.{ℕ, true, ◌+◌, ◌-◌, ◌*◌, ◌≡◌, ◌≢◌, refl, false, ok, halt, sum_upto, arith}
use tomato.Sync.Locks.{
  mutex_lock, mutex_unlock, rwlock_lock_exclusive, rwlock_unlock_exclusive, shared_target,
  rwlock_lock_shared, rwlock_unlock_shared,
}
use tomato.Irq.{Cpu}
use tomato.Sync.Spinlock
use tomato.Sync.Spinlock.{Excludes, Reach-Excludes}
use tomato.Sync.Rwlock.{
  later, start, pick, lock_exclusive, load_shared, exchange_shared, Pc, System, Reach, readers,
  writers, Reach-excludes, Reach-unlocks,
}

mutex_runs : (mutex_lock false 0 ≡ ok 1) × (mutex_lock false 1 ≡ halt) × (mutex_unlock 1 ≡ ok 0)
unfolding mutex_lock mutex_unlock
mutex_runs = (refl, refl, refl)

shared_runs :
    (rwlock_lock_shared false 8 ≡ ok 16)
    × (rwlock_lock_shared false 4 ≡ halt)
    × (rwlock_unlock_shared 16 ≡ ok 8)
unfolding rwlock_lock_shared shared_target rwlock_unlock_shared
shared_runs = (refl, refl, refl)

-- Thread 0 writes.
abbrev locked : (s : System) × Reach 2 s
unfolding rwlock_lock_exclusive
locked = (_, later start (pick 0 {m = 4} (omega arith) (lock_exclusive false refl)))

-- Thread 1 reads.
abbrev shared : (s : System) × Reach 2 s
unfolding shared_target
shared = (
  _,
  later (later start (pick 1 {p = Pc.trying 0} (omega arith) load_shared))
      (pick 1 {m = 8} (omega arith) (exchange_shared {seen = 0} refl refl)),
)

Reach-excludes_example :
    (locked.0.pc 1 ≢ Pc.writing)
    × (locked.0.pc 1 ≢ Pc.reading)
    × (rwlock_unlock_exclusive false locked.0.state ≡ ok 0)
unfolding locked
Reach-excludes_example = Reach-excludes 0 1 locked.1 (omega arith) (omega arith) (omega arith) refl

Reach-unlocks_example :
    (shared.0.state ≡ 8 * sum_upto readers 2 shared.0.pc + 4 * sum_upto writers 2 shared.0.pc)
    × (rwlock_unlock_shared shared.0.state ≡ ok (shared.0.state - 8))
unfolding shared
Reach-unlocks_example = Reach-unlocks 1 shared.1 (omega arith) refl

-- Core 0 holds the spinlock, and core 1 spins, with its interrupts off.
abbrev cores : ℕ → Cpu
cores _ = record { irq_enabled = true; gs_base = 0; kernel_gs_base = 0 }

abbrev contended : (s : Spinlock.System) × Spinlock.Reach cores s
contended = (
  _,
  Spinlock.later
      (Spinlock.later
        (Spinlock.later (Spinlock.later Spinlock.start (Spinlock.pick 0 Spinlock.save))
          (Spinlock.pick 0 (Spinlock.test_and_set {state = true} refl)))
        (Spinlock.pick 1 Spinlock.save))
      (Spinlock.pick 1 (Spinlock.spin {state = true} refl)),
)

Reach-Excludes_example : Excludes contended.0
Reach-Excludes_example = Reach-Excludes contended.1
