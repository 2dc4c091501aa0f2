-- ===== src/Sched/Tests.antt =====
-- Runs of the scheduler of src/thread.
use tomato.Base.{ℕ, ◌≡◌, refl, arith, none, some, [], ◌∷◌, halt, Returns, false, update}
use tomato.Sched.{
  Core, ThreadState, LastThreadAction, thread_start, thread_exit, thread_yield, thread_bootstrap,
  sched_start_per_core, scheduler_schedule,
}
use tomato.Sched.Lifo.{Kept, thread_yield-Kept}
use tomato.Sched.Invariant.{Inv, Switched}
use tomato.Sched.Switch.{scheduler_schedule-Switched}

-- Thread 0 idles, thread 1 runs and threads 2 and 3 wait.
abbrev states : ℕ → ThreadState
states =
    update
      (update (update (update (λ _. ThreadState.idle) 0 ThreadState.ready) 1 ThreadState.running) 2
        ThreadState.ready)
      3 ThreadState.ready

abbrev busy : Core
busy = record {
  last_thread = none;
  last_thread_action = LastThreadAction.action_none;
  idle_thread = some 0;
  current_thread = some 1;
  run_queue = 2 ∷ 3 ∷ [];
  irq_enabled = false;
  state = states;
  ref_count = λ _. 1;
  freed = [];
}

-- A core after boot starts with its idle thread.
started :
    Returns
      (λ c. c.current_thread ≡ some 0)
      (sched_start_per_core (record busy { current_thread = none }))
unfolding sched_start_per_core thread_bootstrap
started = refl

-- A started thread is the next to run.
start_first : Returns (λ c. c.run_queue ≡ 5 ∷ 2 ∷ 3 ∷ []) (thread_start 5 busy)
unfolding thread_start
start_first = refl

start_twice : thread_start 2 busy ≡ halt
unfolding thread_start
start_twice = refl

-- Thread 1 exits: thread 2 takes over, and the last reference frees thread 1.
exits :
    Returns
      (λ c. (c.current_thread ≡ some 2) × (c.run_queue ≡ 3 ∷ []) × (c.freed ≡ 1 ∷ []))
      (thread_exit busy)
unfolding thread_exit scheduler_schedule
exits = (refl, refl, refl)

thread_yield-Kept_example : Returns (Kept 1 busy) (thread_yield busy)
thread_yield-Kept_example = thread_yield-Kept busy refl refl (omega arith) refl refl

busy-Inv : Inv busy 1 0
busy-Inv = record {
  current = refl;
  idle_thread = refl;
  queued = (refl, (omega arith, tt), (refl, tt, tt));
  cur_out = (omega arith, (omega arith, tt));
  idle_out = (omega arith, (omega arith, tt));
  idle_ready = λ _. refl;
  settled = refl;
}

scheduler_schedule-Switched_example : Returns (Switched 1 0 busy) (scheduler_schedule busy)
scheduler_schedule-Switched_example = scheduler_schedule-Switched busy 1 0 busy-Inv refl tt
