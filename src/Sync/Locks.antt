-- ===== src/Sync/Locks.antt =====
-- src/sync/mutex.h, mutex.c, rwlock.h and rwlock.c: the lock operations on the state word. The slow
-- paths are not written yet: each is a failed `ASSERT`, so the run halts. A weak compare-exchange
-- may fail without cause, which the argument `spurious` says.
use tomato.Base.{
  ℕ, ◌+◌, ◌/◌, ◌%◌, Bool, not, ◌&&◌, Option, none, some, Run, ok, halt, ltb, ◌==◌, if◌then◌else◌,
  u64_mod, sub_u64,
}

-- `MUTEX_LOCKED_BIT`
abbrev pub locked_bit : ℕ
locked_bit = 1

-- `RWLOCK_WRITER_BIT` and `RWLOCK_ONE_READER`
abbrev pub writer_bit : ℕ
writer_bit = 4

abbrev pub one_reader : ℕ
one_reader = 8

-- `(state & RWLOCK_WRITER_BIT) != 0`
abbrev pub has_writer : ℕ → Bool
has_writer state = state / 4 % 2 == 1

-- `(state & (RWLOCK_READERS_MASK | RWLOCK_WRITER_PARKED_BIT)) == (RWLOCK_ONE_READER | RWLOCK_WRITER_PARKED_BIT)`
abbrev pub last_before_writer : ℕ → Bool
last_before_writer state = state / 8 == 1 && state / 2 % 2 == 1

unfoldable pub mutex_lock : (spurious : Bool) → ℕ → Run ℕ
mutex_lock spurious state = if state == 0 && not spurious then ok locked_bit else halt

unfoldable pub mutex_unlock : ℕ → Run ℕ
mutex_unlock state = if state == locked_bit then ok 0 else halt

unfoldable pub rwlock_lock_exclusive : (spurious : Bool) → ℕ → Run ℕ
rwlock_lock_exclusive spurious state = if state == 0 && not spurious then ok writer_bit else halt

unfoldable pub rwlock_unlock_exclusive : (spurious : Bool) → ℕ → Run ℕ
rwlock_unlock_exclusive spurious state = if state == writer_bit && not spurious then ok 0 else halt

-- The value to exchange for the one that was read, or `none` where the fast path gives up.
unfoldable pub shared_target : (seen : ℕ) → Option ℕ
shared_target seen =
    if has_writer seen
    then none
    else if ltb (seen + one_reader) u64_mod
    then some (seen + one_reader)
    else none

-- `rwlock_lock_shared`, with no other access between the load and the exchange.
unfoldable pub rwlock_lock_shared : (spurious : Bool) → ℕ → Run ℕ
rwlock_lock_shared spurious state = elim (shared_target state) [
  | none ↦ halt
  | some new ↦ if spurious then halt else ok new
]

unfoldable pub rwlock_unlock_shared : ℕ → Run ℕ
rwlock_unlock_shared state =
    if last_before_writer state then halt else ok (sub_u64 state one_reader)
