-- ===== src/Sched/Started.antt =====
-- src/thread: the first switch to a thread that `thread_create` has made.
use tomato.Base.{
  ℕ, ◌+◌, ◌-◌, ◌≤◌, ◌<◌, ◌≡◌, ◌≢◌, ◌⊎◌, refl, sym, ap, ◌∙◌, subst, Option, none, some, ok, ◌>>=◌,
  update, update_self, arith, false, sub_u64, u64_mod, success,
}
use tomato.Mem.Vmar.{Tree, Store}
use tomato.Mem.Vmar.Place.{Services}
use tomato.Mem.Stack.{StackAllocation, stack_alloc}
use tomato.Sched.{ThreadState}
use tomato.Sched.Frames.{
  Registers, Memory, IsOutside, save_state, restore_state, save_state-keeps, save_state-rdi,
  do_thread_switch, thread_entry_thunk,
}
use tomato.Sched.Threads.{Thread, Kernel, entry_frame, on_stack, thread_create}

-- The words of the new thread: its `thread_t`, and the entry frame of 72 bytes under the bottom of the stack.
pub record HasFrame (thread thunk entry arg bottom : ℕ) (w : Memory) : Type 0 where
  pub kernel_rsp : w thread + 72 ≡ bottom
  pub rip : w (w thread + 48) ≡ thunk
  pub rdi : w (w thread + 56) ≡ entry
  pub rsi : w (w thread + 64) ≡ arg

-- The thread that switches has room on its stack, and this and its `thread_t` lie apart from the words of the new one.
pub record IsClear (thread bottom : ℕ) (n : Registers) : Type 0 where
  pub room : 48 ≤ n.rsp
  pub thread_out : IsOutside n.rsp thread
  pub thread_other : n.rsi ≢ thread
  pub frame_out : (n.rsp + 72 ≤ bottom) ⊎ (bottom + 48 ≤ n.rsp)
  pub frame_other : (n.rsi + 80 ≤ bottom) ⊎ (bottom ≤ n.rsi)

-- The switch goes to the thunk, and from there to the entry point with the arguments, on the whole stack.
pub record IsStarted (thunk entry_point entry arg bottom : ℕ) (m : Registers × Memory)
    : Type 0 where
  pub at_thunk : m.0.rip ≡ thunk
  pub rip : (thread_entry_thunk entry_point m).0.rip ≡ entry_point
  pub rdi : (thread_entry_thunk entry_point m).0.rdi ≡ entry
  pub rsi : (thread_entry_thunk entry_point m).0.rsi ≡ arg
  pub rsp : (thread_entry_thunk entry_point m).0.rsp ≡ bottom

save_state-HasFrame :
    (thread thunk entry arg bottom : ℕ) (n : Registers) (w : Memory)
    → IsClear thread bottom n
    → HasFrame thread thunk entry arg bottom w
    → HasFrame thread thunk entry arg bottom (save_state (n, w)).1
save_state-HasFrame thread thunk entry arg bottom n w c h =
    let top = h.kernel_rsp in
    let out = c.frame_out in
    let other = c.frame_other in
    let here = save_state-keeps n w thread c.room c.thread_out c.thread_other in
    let keeps : (i : ℕ)
        → i ≤ 64
        → (save_state (n, w)).1 ((save_state (n, w)).1 thread + i) ≡ w (w thread + i) =
      λ i le.
        ap (λ k. (save_state (n, w)).1 (k + i)) here
        ∙ save_state-keeps n w (w thread + i) c.room (ground arith) (ground arith) in
    record {
      kernel_rsp = ap (λ k. k + 72) here ∙ top;
      rip = keeps 48 (omega arith) ∙ h.rip;
      rdi = keeps 56 (omega arith) ∙ h.rdi;
      rsi = keeps 64 (omega arith) ∙ h.rsi;
    }

restore_state-IsStarted :
    (thread thunk entry_point entry arg bottom : ℕ) (n : Registers) (w : Memory)
    → n.rdi ≡ thread
    → HasFrame thread thunk entry arg bottom w
    → IsStarted thunk entry_point entry arg bottom (restore_state (n, w))
unfolding restore_state thread_entry_thunk
restore_state-IsStarted thread thunk entry_point entry arg bottom n w e h =
    let at : w n.rdi ≡ w thread = ap w e in
    let top = h.kernel_rsp in
    let far : w n.rdi + 56 + 8 ≡ w thread + 64 = omega arith in
    record {
      at_thunk = ap (λ k. w (k + 48)) at ∙ h.rip;
      rip = refl;
      rdi = ap (λ k. w (k + 56)) at ∙ h.rdi;
      rsi = ap w far ∙ h.rsi;
      rsp = omega arith;
    }

entry_frame-HasFrame :
    (thread thunk entry arg bottom : ℕ) (word : Memory)
    → 72 ≤ bottom
    → (thread + 80 ≤ bottom) ⊎ (bottom ≤ thread)
    → HasFrame thread thunk entry arg bottom
        (entry_frame thunk (bottom - 72) entry arg (update word thread (bottom - 72)))
entry_frame-HasFrame thread thunk entry arg bottom word h out = record {
  kernel_rsp = ground arith;
  rip = ground arith;
  rdi = ground arith;
  rsi = ground arith;
}

HasFrame-same :
    (thread thunk entry arg bottom : ℕ) (w w' : Memory)
    → w' thread ≡ w thread
    → ((a : ℕ) → bottom ≤ a + 72 → a < bottom → w' a ≡ w a)
    → HasFrame thread thunk entry arg bottom w
    → HasFrame thread thunk entry arg bottom w'
HasFrame-same thread thunk entry arg bottom w w' e f h =
    let top = h.kernel_rsp in
    record {
      kernel_rsp = ap (λ k. k + 72) e ∙ top;
      rip = ap (λ k. w' (k + 48)) e ∙ f (w thread + 48) (omega arith) (omega arith) ∙ h.rip;
      rdi = ap (λ k. w' (k + 56)) e ∙ f (w thread + 56) (omega arith) (omega arith) ∙ h.rdi;
      rsi = ap (λ k. w' (k + 64)) e ∙ f (w thread + 64) (omega arith) (omega arith) ∙ h.rsi;
    }

switch-IsStarted :
    (thread thunk entry_point entry arg bottom : ℕ) (n : Registers) (w : Memory)
    → n.rdi ≡ thread
    → IsClear thread bottom n
    → HasFrame thread thunk entry arg bottom w
    → IsStarted thunk entry_point entry arg bottom (do_thread_switch (n, w))
unfolding do_thread_switch
switch-IsStarted thread thunk entry_point entry arg bottom n w e c h =
    restore_state-IsStarted thread thunk entry_point entry arg bottom (save_state (n, w)).0
      (save_state (n, w)).1 (save_state-rdi n w ∙ e)
      (save_state-HasFrame thread thunk entry arg bottom n w c h)

-- Any switch to the thread that finds its words as they are in `word`, from a stack and a `thread_t` apart from them.
abbrev pub Starts : (thread thunk entry_point entry arg bottom : ℕ) → Memory → Type 0
Starts thread thunk entry_point entry arg bottom word =
    (n : Registers) (w : Memory)
    → w thread ≡ word thread
    → ((a : ℕ) → bottom ≤ a + 72 → a < bottom → w a ≡ word a)
    → n.rdi ≡ thread
    → IsClear thread bottom n
    → IsStarted thunk entry_point entry arg bottom (do_thread_switch (n, w))

module _ (tree : Tree) {State : Type 0} (services : Services State)
    (levels user_region kernel_region : ℕ) (alloc_thread : State → Option ℕ × State)
    (free_thread : ℕ → State → State) (thunk : ℕ) where
  -- Where there is an object for the thread, and a stack with room for the entry frame, which the object lies apart from:
  -- `thread_create` returns the thread, idle and with one reference. The first switch to it goes to the thunk, whatever thread
  -- switches, and from there to the entry point with the entry and the argument, with the whole stack free.
  pub thread_create-Starts :
      (entry_point entry arg thread : ℕ) (k : Kernel State) (m : State) (a : StackAllocation)
      (vmars : Store × State)
      → alloc_thread k.vmars.1 ≡ (some thread, m)
      → stack_alloc tree services levels user_region kernel_region 4096 false (k.vmars.0, m)
        ≡ ok (success, some a, vmars)
      → 72 ≤ a.stack_bottom
      → a.stack_bottom < u64_mod
      → (thread + 80 ≤ a.stack_bottom) ⊎ (a.stack_bottom ≤ thread)
      → (k' : Kernel State) × (thread_create tree services levels user_region kernel_region
            alloc_thread free_thread thunk entry arg k
          ≡ ok (success, some thread, k'))
        × ((k'.thread thread).state ≡ ThreadState.idle)
        × ((k'.thread thread).ref_count ≡ 1)
        × ((k'.thread thread).kernel_stack ≡ some a.stack_region)
        × Starts thread thunk entry_point entry arg a.stack_bottom k'.word
  unfolding thread_create
  thread_create-Starts entry_point entry arg thread k m a vmars e1 e2 room bound apart =
      let set_up : Thread = record {
        ref_count = 1;
        kernel_stack = none;
        state = ThreadState.idle;
      } in
      let begun : Kernel State = record k { thread = update k.thread thread set_up } in
      let finish =
        on_stack tree services levels user_region kernel_region alloc_thread free_thread thunk
          thread entry arg begun in
      let done = finish (success, some a, vmars) in
      let t =
        update_self begun.thread thread
          (record (begun.thread thread) { kernel_stack = some a.stack_region })
        ∙ ap {A = Thread} (λ v. record v { kernel_stack = some a.stack_region })
            (update_self k.thread thread set_up) in
      let rsp : sub_u64 a.stack_bottom 72 ≡ a.stack_bottom - 72 = omega arith in
      let frame : HasFrame thread thunk entry arg a.stack_bottom done.2.word =
        subst
          (λ r.
            HasFrame thread thunk entry arg a.stack_bottom
              (entry_frame thunk r entry arg (update k.word thread r)))
          (sym rsp)
          (entry_frame-HasFrame thread thunk entry arg a.stack_bottom k.word room apart) in
      (
        done.2,
        rw (thread_create, e1)
            (ap {A = Option ℕ × State}
                (λ o.
                  stack_alloc tree services levels user_region kernel_region 4096 false
                    (k.vmars.0, o.1)
                  >>= λ r. ok (finish r))
                e1
              ∙ ap (λ run. run >>= λ r. ok (finish r)) e2),
        ap (λ v. v.state) t,
        ap (λ v. v.ref_count) t,
        ap (λ v. v.kernel_stack) t,
        λ n w same_thread same back clear.
            switch-IsStarted thread thunk entry_point entry arg a.stack_bottom n w back clear
              (HasFrame-same thread thunk entry arg a.stack_bottom _ w same_thread same frame),
      )
