-- ===== src/Sync/Rwlock.antt =====
-- src/sync/rwlock.h and mutex.h under any interleaving of the accesses of several threads.
use tomato.Base.{
  ℕ, ◌+◌, ◌-◌, ◌*◌, ◌≤◌, ◌<◌, ◌≡◌, ◌≢◌, refl, Bool, false, ok, halt, none, some, ◌⊎◌, inl, inr,
  update, update-cases, sum_upto, sum_upto-update, sum_upto-zero, sum_upto-le, sum_upto-le_two,
  u64_mod, ap, arith,
}
use tomato.Sync.Locks.{
  rwlock_lock_exclusive, rwlock_unlock_exclusive, shared_target, rwlock_unlock_shared,
}

-- What a thread is doing with the lock.
pub data Pc : Type 0 where
  outside : Pc
  -- in `rwlock_try_lock_shared_fast`, after the load
  trying : (seen : ℕ) → Pc
  reading writing : Pc
  -- in a slow path, which never returns, with nothing held or while holding the lock
  stuck stuck_reading stuck_writing : Pc

-- One atomic access of one thread to the state word `m`.
pub data Move (m : ℕ) : Pc → ℕ → Pc → Type 0 where
  lock_exclusive :
      (spurious : Bool) {m' : ℕ}
      → rwlock_lock_exclusive spurious m ≡ ok m'
      → Move m Pc.outside m' Pc.writing
  lock_exclusive_slow :
      (spurious : Bool) → rwlock_lock_exclusive spurious m ≡ halt → Move m Pc.outside m Pc.stuck
  unlock_exclusive :
      (spurious : Bool) {m' : ℕ}
      → rwlock_unlock_exclusive spurious m ≡ ok m'
      → Move m Pc.writing m' Pc.outside
  unlock_exclusive_slow :
      (spurious : Bool)
      → rwlock_unlock_exclusive spurious m ≡ halt
      → Move m Pc.writing m Pc.stuck_writing
  load_shared : Move m Pc.outside m (Pc.trying m)
  refuse_shared : {seen : ℕ} → shared_target seen ≡ none → Move m (Pc.trying seen) m Pc.stuck
  exchange_shared :
      {seen new : ℕ}
      → shared_target seen ≡ some new
      → m ≡ seen
      → Move m (Pc.trying seen) new Pc.reading
  -- the exchange lost a race, or failed without cause
  lose_shared : {seen : ℕ} → Move m (Pc.trying seen) m Pc.stuck
  unlock_shared : {m' : ℕ} → rwlock_unlock_shared m ≡ ok m' → Move m Pc.reading m' Pc.outside
  unlock_shared_slow : rwlock_unlock_shared m ≡ halt → Move m Pc.reading m Pc.stuck_reading

pub record System : Type 0 where
  pub state : ℕ
  pub pc : ℕ → Pc

pub data Step (threads : ℕ) (s : System) : System → Type 0 where
  pick :
      (i : ℕ) {m : ℕ} {p : Pc}
      → i < threads
      → Move s.state (s.pc i) m p
      → Step threads s (record { state = m; pc = update s.pc i p })

abbrev pub initial : System
initial = record { state = 0; pc = λ _. Pc.outside }

pub data Reach (threads : ℕ) : System → Type 0 where
  start : Reach threads initial
  later : {s t : System} → Reach threads s → Step threads s t → Reach threads t

-- Who holds the lock, in a slow path of the unlock too.
abbrev pub readers : Pc → ℕ
readers Pc.reading = 1
readers Pc.stuck_reading = 1
readers _ = 0

abbrev pub writers : Pc → ℕ
writers Pc.writing = 1
writers Pc.stuck_writing = 1
writers _ = 0

-- The word counts the readers and the writer.
record Inv (threads m : ℕ) (pc : ℕ → Pc) : Type 0 where
  word : m ≡ 8 * sum_upto readers threads pc + 4 * sum_upto writers threads pc
  fits : m < u64_mod
  alone :
      (sum_upto writers threads pc ≡ 0)
      ⊎ ((sum_upto writers threads pc ≡ 1) × (sum_upto readers threads pc ≡ 0))
  calm : (i : ℕ) → pc i ≢ Pc.stuck_reading

-- One access, with the numbers of readers and writers before and after it.
Move-counts :
    {m m' : ℕ} {p p' : Pc}
    → Move m p m' p'
    → (r w r' w' : ℕ) → r' + readers p ≡ readers p' + r
    → w' + writers p ≡ writers p' + w
    → readers p ≤ r
    → writers p ≤ w
    → m ≡ 8 * r + 4 * w
    → m < u64_mod
    → (w ≡ 0) ⊎ ((w ≡ 1) × (r ≡ 0))
    → p ≢ Pc.stuck_reading
    → (m' ≡ 8 * r' + 4 * w')
      × (m' < u64_mod)
      × ((w' ≡ 0) ⊎ ((w' ≡ 1) × (r' ≡ 0)))
      × (p' ≢ Pc.stuck_reading)
unfolding rwlock_lock_exclusive rwlock_unlock_exclusive shared_target rwlock_unlock_shared
Move-counts (lock_exclusive sp e) r w r' w' er ew lr lw em f al c =
    (ground arith, ground arith, ground arith, cc)
Move-counts (lock_exclusive_slow sp e) r w r' w' er ew lr lw em f al c =
    (ground arith, ground arith, ground arith, cc)
Move-counts (unlock_exclusive sp e) r w r' w' er ew lr lw em f al c =
    (ground arith, ground arith, ground arith, cc)
Move-counts (unlock_exclusive_slow sp e) r w r' w' er ew lr lw em f al c =
    (ground arith, ground arith, ground arith, cc)
Move-counts load_shared r w r' w' er ew lr lw em f al c =
    (ground arith, ground arith, ground arith, cc)
Move-counts (refuse_shared e) r w r' w' er ew lr lw em f al c =
    (ground arith, ground arith, ground arith, cc)
Move-counts (exchange_shared e g) r w r' w' er ew lr lw em f al c =
    (ground arith, ground arith, ground arith, cc)
Move-counts lose_shared r w r' w' er ew lr lw em f al c =
    (ground arith, ground arith, ground arith, cc)
Move-counts (unlock_shared e) r w r' w' er ew lr lw em f al c =
    (ground arith, ground arith, ground arith, cc)
Move-counts (unlock_shared_slow e) r w r' w' er ew lr lw em f al c = absurd (ground arith)

Step-Inv :
    {threads : ℕ} {s t : System}
    → Step threads s t
    → Inv threads s.state s.pc
    → Inv threads t.state t.pc
Step-Inv {threads} {s} (pick i {m} {p} lt mv) inv =
    let counted =
      Move-counts mv (sum_upto readers threads s.pc) (sum_upto writers threads s.pc)
        (sum_upto readers threads (update s.pc i p)) (sum_upto writers threads (update s.pc i p))
        (sum_upto-update readers threads i s.pc p lt) (sum_upto-update writers threads i s.pc p lt)
        (sum_upto-le readers threads i s.pc lt) (sum_upto-le writers threads i s.pc lt) inv.word
        inv.fits inv.alone (inv.calm i) in
    record {
      word = counted.0;
      fits = counted.1;
      alone = counted.2;
      calm = λ j. elim (update-cases s.pc i p j) [
        | inl (_, e) ↦ rw e counted.3
        | inr (_, e) ↦ rw e (inv.calm j)
      ];
    }

Reach-Inv : {threads : ℕ} {s : System} → Reach threads s → Inv threads s.state s.pc
Reach-Inv {threads} start = record {
  word = omega (
    arith,
    sum_upto-zero readers threads (λ _. Pc.outside) (λ _. refl),
    sum_upto-zero writers threads (λ _. Pc.outside) (λ _. refl),
  );
  fits = omega arith;
  alone = inl (sum_upto-zero writers threads (λ _. Pc.outside) (λ _. refl));
  calm = λ i e. cc;
}
Reach-Inv (later r st) = Step-Inv st (Reach-Inv r)

-- In every state that any interleaving of the accesses of the threads reaches from the free lock, a
-- thread that holds the lock for writing holds it alone: no other thread writes or reads. Its unlock
-- succeeds unless the weak compare-exchange fails without cause.
pub Reach-excludes :
    {threads : ℕ} {s : System} (i j : ℕ)
    → Reach threads s
    → i < threads
    → j < threads
    → i ≢ j
    → s.pc i ≡ Pc.writing
    → (s.pc j ≢ Pc.writing) × (s.pc j ≢ Pc.reading) × (rwlock_unlock_exclusive false s.state ≡ ok 0)
unfolding rwlock_unlock_exclusive
Reach-excludes {threads} {s} i j r hi hj n e =
    let inv = Reach-Inv r in
    let two = sum_upto-le_two writers threads i j s.pc hi hj n in
    let one = sum_upto-le readers threads j s.pc hj in
    let writes : writers (s.pc i) ≡ 1 = ap writers e in
    let alone = inv.alone in
    let word = inv.word in
    (
      λ f. let other : writers (s.pc j) ≡ 1 = ap writers f in omega (arith, alone),
      λ f. let other : readers (s.pc j) ≡ 1 = ap readers f in omega (arith, alone),
      ground arith,
    )

-- In every state that any interleaving reaches from the free lock, the state word is four for each
-- writer plus eight for each reader, and the unlock of a thread that reads takes its eight away and
-- never reaches the slow path.
pub Reach-unlocks :
    {threads : ℕ} {s : System} (i : ℕ)
    → Reach threads s
    → i < threads
    → s.pc i ≡ Pc.reading
    → (s.state ≡ 8 * sum_upto readers threads s.pc + 4 * sum_upto writers threads s.pc)
      × (rwlock_unlock_shared s.state ≡ ok (s.state - 8))
unfolding rwlock_unlock_shared
Reach-unlocks {threads} {s} i r hi e =
    let inv = Reach-Inv r in
    let d = sum_upto-le readers threads i s.pc hi in
    let word = inv.word in
    let fits = inv.fits in
    let alone = inv.alone in let reads : readers (s.pc i) ≡ 1 = ap readers e in (word, ground arith)
