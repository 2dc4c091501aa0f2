-- ===== src/Mem/Accounting.antt =====
-- src/mem/accounting.c: the four page counters and the operations on them, run one at a time.
-- `Accounting.Interleaved` runs the same operations by several cores, an atomic access at a time.
pub mod Balance
pub mod Interleaved
mod Tests
use tomato.Base.{
  ℕ, ◌-◌, Bool, true, false, Run, ok, ◌>>=◌, ◌>>◌, assert, Err, success, out_of_resources, ltb, leb,
  if◌then◌else◌, add_u64, sub_u64,
}

pub record Accounting : Type 0 where
  pub available : ℕ
  pub total : ℕ
  pub committed : ℕ
  pub reserved : ℕ

-- Which `atomic_size_t` a pointer argument names.
pub data Counter : Type 0 where
  available total committed reserved : Counter

unfoldable pub load : Counter → Accounting → ℕ
load Counter.available a = a.available
load Counter.total a = a.total
load Counter.committed a = a.committed
load Counter.reserved a = a.reserved

unfoldable pub store : Counter → ℕ → Accounting → Accounting
store Counter.available n a = record a { available = n }
store Counter.total n a = record a { total = n }
store Counter.committed n a = record a { committed = n }
store Counter.reserved n a = record a { reserved = n }

-- `atomic_fetch_add_relaxed`, its old value unused
unfoldable pub fetch_add : Counter → ℕ → Accounting → Accounting
unfolding load store
fetch_add c n a = store c (add_u64 (load c a) n) a

-- `mem_acct_take_available`: with no other core at work the first compare-exchange succeeds.
unfoldable pub take_available : ℕ → Accounting → Bool × Accounting
take_available n a =
    if ltb a.available n then (false, a) else (true, record a { available = a.available - n })

-- The subtraction is done, then checked.
unfoldable pub checked_atomic_sub : Counter → ℕ → Accounting → Run Accounting
unfolding load store
checked_atomic_sub c n a = do
  let old = load c a
  let a' = store c (sub_u64 old n) a
  assert (leb n old)
  ok a'

unfoldable pub reserve : ℕ → Accounting → Err × Accounting
unfolding take_available fetch_add
reserve n a =
    let (took, a') = take_available n a in
    if took then (success, fetch_add Counter.reserved n a') else (out_of_resources, a')

unfoldable pub unreserve : ℕ → Accounting → Run Accounting
unfolding checked_atomic_sub fetch_add
unreserve n a = do
  a' ← checked_atomic_sub Counter.reserved n a
  ok (fetch_add Counter.available n a')

unfoldable pub add_total : ℕ → Accounting → Accounting
unfolding fetch_add
add_total n a = fetch_add Counter.available n (fetch_add Counter.total n a)

unfoldable pub add_committed : ℕ → Accounting → Accounting
unfolding fetch_add
add_committed n a = fetch_add Counter.committed n (fetch_add Counter.total n a)

unfoldable pub commit : ℕ → Accounting → Bool × Accounting
unfolding take_available fetch_add
commit n a =
    let (took, a') = take_available n a in
    if took then (true, fetch_add Counter.committed n a') else (false, a')

unfoldable pub commit_reserved : ℕ → Accounting → Run Accounting
unfolding checked_atomic_sub fetch_add
commit_reserved n a = do
  a' ← checked_atomic_sub Counter.reserved n a
  ok (fetch_add Counter.committed n a')

unfoldable pub uncommit : ℕ → Accounting → Run Accounting
unfolding checked_atomic_sub fetch_add
uncommit n a = do
  a' ← checked_atomic_sub Counter.committed n a
  ok (fetch_add Counter.available n a')

unfoldable pub uncommit_to_reserved : ℕ → Accounting → Run Accounting
unfolding checked_atomic_sub fetch_add
uncommit_to_reserved n a = do
  a' ← checked_atomic_sub Counter.committed n a
  ok (fetch_add Counter.reserved n a')
