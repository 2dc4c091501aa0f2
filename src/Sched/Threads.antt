-- ===== src/Sched/Threads.antt =====
-- src/thread/thread.c and sched.c: the creation of a thread on its stack, its end, and the idle threads.
-- A thread is the address of its `thread_t`, and `kernel_rsp` is the word at that address. The objects
-- come from the arguments `alloc_thread` and `free_thread`, which are `ALLOC(thread_t)` and `FREE`.
mod Tests
use tomato.Base.{
  ℕ, zero, suc, ◌+◌, Option, none, some, Run, ok, halt, ◌>>=◌, ◌>>◌, assert, update, false, sub_u64,
  Err, success,
}
use tomato.Mem.Vmar.{Tree, Store, is_success}
use tomato.Mem.Vmar.Place.{Services}
use tomato.Mem.Vmar.Unmap.{vmar_unmap}
use tomato.Mem.Stack.{StackAllocation, StackResult, stack_alloc}
use tomato.Sched.{ThreadState}
use tomato.Sched.Frames.{Memory}

-- `thread_t`, without `kernel_rsp`, its entry in the run queue and its name
pub record Thread : Type 0 where
  pub ref_count : ℕ
  pub kernel_stack : Option ℕ
  pub state : ThreadState

pub record Kernel (State : Type 0) : Type 0 where
  pub thread : ℕ → Thread
  pub word : Memory
  pub vmars : Store × State

-- The entry frame: `rip`, `rdi` and `rsi` of `thread_entry_frame_t`.
abbrev pub entry_frame : (thunk rsp entry arg : ℕ) → Memory → Memory
entry_frame thunk rsp entry arg word =
    update (update (update word (rsp + 48) thunk) (rsp + 56) entry) (rsp + 64) arg

module _ (tree : Tree) {State : Type 0} (services : Services State)
    (levels user_region kernel_region : ℕ) (alloc_thread : State → Option ℕ × State)
    (free_thread : ℕ → State → State) (thread_entry_thunk : ℕ) where
  -- A thread on its stack, or the error of the allocation and the object freed.
  abbrev pub on_stack :
      (thread entry arg : ℕ)
      → Kernel State
      → StackResult tree services levels
      → Err × Option ℕ × Kernel State
  on_stack thread entry arg k (success, some kernel_stack, vmars) =
      let rsp = sub_u64 kernel_stack.stack_bottom 72 in
      (
        success,
        some thread,
        record {
          thread =
              update k.thread thread
                (record (k.thread thread) { kernel_stack = some kernel_stack.stack_region });
          word = entry_frame thread_entry_thunk rsp entry arg (update k.word thread rsp);
          vmars = vmars;
        },
      )
  on_stack thread entry arg k (err, kernel_stack, vmars) =
      (err, none, record k { vmars = (vmars.0, free_thread thread vmars.1) })

  -- The new object is used without a look at whether there is one: a null thread faults.
  unfoldable pub thread_create :
      (entry arg : ℕ) → Kernel State → Run (Err × Option ℕ × Kernel State)
  thread_create entry arg k =
      let (object, m) = alloc_thread k.vmars.1 in
      elim object [
        | none ↦ halt
        | some thread ↦
            let set_up : Thread = record {
              ref_count = 1;
              kernel_stack = none;
              state = ThreadState.idle;
            } in
            stack_alloc tree services levels user_region kernel_region 4096 false (k.vmars.0, m)
            >>= λ kernel_stack. ok (
                on_stack thread entry arg (record k { thread = update k.thread thread set_up })
                  kernel_stack)
      ]

  abbrev pub unmap_stack : Option ℕ → Store × State → Run (Store × State)
  unmap_stack none vmars = halt
  unmap_stack (some region) vmars = vmar_unmap tree services levels region vmars

  unfoldable pub thread_free : (thread : ℕ) → Kernel State → Run (Kernel State)
  thread_free thread k = unmap_stack (k.thread thread).kernel_stack k.vmars >>= λ vmars.
      ok (record k { vmars = (vmars.0, free_thread thread vmars.1) })

  -- The idle threads that are made, with the kernel.
  abbrev pub Idle : Type 0
  Idle = (ℕ → Option ℕ) × Kernel State

  abbrev pub idle_created : (core : ℕ) → (ℕ → Option ℕ) → Err × Option ℕ × Kernel State → Run Idle
  idle_created core idle (success, some thread, k) =
      let ready = update k.thread thread (record (k.thread thread) { state = ThreadState.ready }) in
      ok (update idle core (some thread), record k { thread = ready })
  idle_created core idle (err, thread, k) = halt

  -- The loop of `sched_init` over the cores that are left; the thread runs `scheduler_idle_thread`.
  unfoldable pub sched_init : (rounds core scheduler_idle_thread : ℕ) → Idle → Run Idle
  sched_init zero core scheduler_idle_thread w = ok w
  sched_init (suc rounds) core scheduler_idle_thread (idle, k) =
      thread_create scheduler_idle_thread 0 k >>= λ created.
      idle_created core idle created >>= λ next.
      sched_init rounds (core + 1) scheduler_idle_thread next
