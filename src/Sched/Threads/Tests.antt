-- ===== src/Sched/Threads/Tests.antt =====
-- Runs of src/thread/thread.c and thread.S.
use tomato.Base.{
  ℕ, ◌≡◌, refl, arith, inl, inr, Option, some, none, Run, ok, halt, ◌>>=◌, update, false, Err,
  success,
}
use tomato.Mem.Vmar.{
  Store, vmar_link_internal, vmar_gap_update, vmar_tail_gap, vmar_compare_ranges,
  vmar_check_in_parent, prev_of, next_of, last_of,
}
use tomato.Mem.Vmar.Place.{
  vmar_allocate, vmar_allocate_static, vmar_find_place, vmar_find_any, vmar_find_fixed,
  vmar_find_gap, vmar_map, vmar_populate,
}
use tomato.Mem.Vmar.Unmap.{vmar_unmap, vmar_unmap_internal, vmar_put, unmap_children, vmar_unlink}
use tomato.Mem.Vmar.Tiles.{first_fit, insert}
use tomato.Mem.Vmar.Tests.{numbered, listed, unlinked}
use tomato.Mem.Stack.{StackAllocation, stack_alloc}
use tomato.Sched.{ThreadState}
use tomato.Sched.Frames.{Registers, Memory, do_thread_switch, IsResumed, do_thread_switch-IsResumed}
use tomato.Sched.Threads.{Kernel, thread_create, thread_free, Kernel}
use tomato.Sched.Started.{Starts, thread_create-Starts}
use tomato.Sync.Locks.{mutex_lock, mutex_unlock}

-- A thread with its stack at 4096 and its `thread_t` at 64.
abbrev caller : Registers
caller = record {
  rsp = 4096;
  rbp = 1;
  rbx = 2;
  r12 = 3;
  r13 = 4;
  r14 = 5;
  r15 = 6;
  rdi = 32;
  rsi = 64;
  rip = 0;
}

abbrev called : Memory
called = update (λ _. 0) 4096 777

-- Another one that switches back, with its stack at 8192 and its `thread_t` at 32.
abbrev other : Registers
other = record caller { rsp = 8192; rbp = 0; rbx = 0; rdi = 64; rsi = 32 }

do_thread_switch-IsResumed_example :
    IsResumed caller 777 (do_thread_switch (other, (do_thread_switch (caller, called)).1)).0
do_thread_switch-IsResumed_example =
    do_thread_switch-IsResumed caller other called (do_thread_switch (caller, called)).1
      (omega arith) (inr (omega arith)) refl (λ a h k. refl) refl
      (record {
        room = omega arith;
        thread_out = inr (omega arith);
        thread_other = λ e. absurd (omega arith);
        frame_out = inr (omega arith);
        frame_other = inl (omega arith);
      })

abbrev no_threads : Kernel ℕ
no_threads = record {
  thread = λ _. record { ref_count = 0; kernel_stack = none; state = ThreadState.dead };
  word = λ _. 0;
  vmars = (unlinked, 3);
}

-- The object of the thread is at 64.
abbrev at_64 : ℕ → Option ℕ × ℕ
at_64 m = (some 64, m)

abbrev kept : ℕ → ℕ → ℕ
kept thread m = m

abbrev a_stack : Run (Err × Option StackAllocation × (Store × ℕ))
unfolding stack_alloc vmar_allocate vmar_allocate_static vmar_find_place vmar_find_any
    vmar_find_fixed vmar_find_gap vmar_map vmar_populate vmar_put first_fit insert
    vmar_link_internal vmar_gap_update vmar_tail_gap vmar_compare_ranges vmar_check_in_parent
    prev_of next_of last_of mutex_lock mutex_unlock
a_stack = stack_alloc listed numbered 2 7 0 4096 false (unlinked, 3)

abbrev vmars_of : Run (Err × Option StackAllocation × (Store × ℕ)) → Store × ℕ
vmars_of (ok (err, a, vmars)) = vmars
vmars_of halt = (unlinked, 0)

abbrev a_kernel_stack : StackAllocation
a_kernel_stack = record { stack_region = 3; stack_bottom = 28656 }

a_stack-success : a_stack ≡ ok (success, some a_kernel_stack, vmars_of a_stack)
unfolding stack_alloc vmar_allocate vmar_allocate_static vmar_find_place vmar_find_any
    vmar_find_fixed vmar_find_gap vmar_map vmar_populate vmar_put first_fit insert
    vmar_link_internal vmar_gap_update vmar_tail_gap vmar_compare_ranges vmar_check_in_parent
    prev_of next_of last_of mutex_lock mutex_unlock
a_stack-success = refl

thread_create-Starts_example :
    (k : Kernel ℕ) × (thread_create listed numbered 2 7 0 at_64 kept 500 600 9 no_threads
      ≡ ok (success, some 64, k))
    × ((k.thread 64).state ≡ ThreadState.idle)
    × ((k.thread 64).ref_count ≡ 1)
    × ((k.thread 64).kernel_stack ≡ some 3)
    × Starts 64 500 550 600 9 28656 k.word
unfolding stack_alloc vmar_allocate vmar_allocate_static vmar_find_place vmar_find_any
    vmar_find_fixed vmar_find_gap vmar_map vmar_populate vmar_put first_fit insert
    vmar_link_internal vmar_gap_update vmar_tail_gap vmar_compare_ranges vmar_check_in_parent
    prev_of next_of last_of mutex_lock mutex_unlock
thread_create-Starts_example =
    thread_create-Starts listed numbered 2 7 0 at_64 kept 500 550 600 9 64 no_threads 3
      a_kernel_stack (vmars_of a_stack) refl a_stack-success (omega arith) (omega arith)
      (inl (omega arith))

-- The stack of a thread that is freed is unmapped, and its region has a reference left.
abbrev freed : Run (ℕ × ℕ)
unfolding stack_alloc vmar_allocate vmar_allocate_static vmar_find_place vmar_find_any
    vmar_find_fixed vmar_find_gap vmar_map vmar_populate vmar_put first_fit insert
    vmar_link_internal vmar_gap_update vmar_tail_gap vmar_compare_ranges vmar_check_in_parent
    prev_of next_of last_of mutex_lock mutex_unlock thread_create thread_free vmar_unmap
    vmar_unmap_internal unmap_children vmar_unlink
freed = thread_create listed numbered 2 7 0 at_64 kept 500 600 9 no_threads >>= λ created.
    thread_free listed numbered 2 7 0 at_64 kept 500 64 created.2 >>= λ k.
    ok ((k.vmars.0 4).ref_count, (k.vmars.0 3).ref_count)

freed-leaks : freed ≡ ok (0, 1)
unfolding stack_alloc vmar_allocate vmar_allocate_static vmar_find_place vmar_find_any
    vmar_find_fixed vmar_find_gap vmar_map vmar_populate vmar_put first_fit insert
    vmar_link_internal vmar_gap_update vmar_tail_gap vmar_compare_ranges vmar_check_in_parent
    prev_of next_of last_of mutex_lock mutex_unlock thread_create thread_free vmar_unmap
    vmar_unmap_internal unmap_children vmar_unlink
freed-leaks = refl
