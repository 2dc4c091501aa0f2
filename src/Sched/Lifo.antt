-- ===== src/Sched/Lifo.antt =====
-- src/thread/runq.c: the order in which the scheduler picks threads.
use tomato.Base.{
  ℕ, ◌≡◌, ◌≢◌, refl, ◌∙◌, false, some, Returns, ◌==◌, update, update_self, update_ne, sym, arith,
}
use tomato.Sched.{Core, ThreadState, LastThreadAction, thread_yield, scheduler_schedule}

-- What a thread leaves when it yields to itself.
pub record Kept (cur : ℕ) (c c' : Core) : Type 0 where
  pub current : c'.current_thread ≡ some cur
  pub state : c'.state cur ≡ ThreadState.running
  pub run_queue : c'.run_queue ≡ c.run_queue
  pub others : (t : ℕ) → t ≢ cur → c'.state t ≡ c.state t

-- A running thread that is not the idle thread, and that has no action left behind, keeps the core
-- when it yields, however many threads wait: the run queue is a stack, and the thread that is put on
-- it last is taken first.
pub thread_yield-Kept :
    (c : Core) {cur i : ℕ}
    → c.current_thread ≡ some cur
    → c.idle_thread ≡ some i
    → cur ≢ i
    → c.state cur ≡ ThreadState.running
    → c.last_thread_action ≡ LastThreadAction.action_none
    → Returns (Kept cur c) (thread_yield c)
unfolding thread_yield scheduler_schedule
thread_yield-Kept c {cur} {i} ec ei n es ea =
    let apart : (cur == i) ≡ false = ground arith in
    rw (ec, es, ei, apart, update_self c.state cur ThreadState.ready, ea)
      (record {
        current = refl;
        state = update_self (update c.state cur ThreadState.ready) cur ThreadState.running;
        run_queue = refl;
        others = λ t h.
            update_ne (update c.state cur ThreadState.ready) cur t ThreadState.running
              (λ e. h (sym e))
            ∙ update_ne c.state cur t ThreadState.ready (λ e. h (sym e));
      })
