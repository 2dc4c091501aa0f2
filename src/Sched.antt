-- ===== src/Sched.antt =====
-- src/thread/sched.c, runq.c and thread.c: the scheduler of one core. A thread is a number; the core
-- keeps what the code keeps per core, and the states and reference counts of the threads.
pub mod Lifo
pub mod Invariant
pub mod Switch
pub mod Frames
pub mod Threads
pub mod Started
mod Tests
use tomato.Base.{
  ℕ, ◌+◌, ◌-◌, ◌≡◌, ◌==◌, leb, Bool, true, false, not, Option, none, some, List, [], ◌∷◌, Run, ok,
  halt, ◌>>=◌, ◌>>◌, assert, if◌then◌else◌, update, sub_u64,
}

-- `thread_state_t`
pub data ThreadState : Type 0 where
  idle dead ready running parking parked : ThreadState

-- `last_thread_action_t`
pub data LastThreadAction : Type 0 where
  action_none action_park action_put : LastThreadAction

pub record Core : Type 0 where
  -- `g_last_thread`, `g_last_thread_action`, `g_idle_thread`, `g_current_thread`
  pub last_thread : Option ℕ
  pub last_thread_action : LastThreadAction
  pub idle_thread : Option ℕ
  pub current_thread : Option ℕ
  -- `m_run_queue`, from its first entry
  pub run_queue : List ℕ
  pub irq_enabled : Bool
  -- `thread->state` and `thread->object.ref_count`
  pub state : ℕ → ThreadState
  pub ref_count : ℕ → ℕ
  -- the threads that `thread_free` has been called on
  pub freed : List ℕ

abbrev pub set_state : ℕ → ThreadState → Core → Core
set_state t st c = record c { state = update c.state t st }

-- `init_list` of the queue of one core
abbrev pub run_queue_init : Core → Core
run_queue_init c = record c { run_queue = [] }

-- `list_add` puts the entry right after the head of the list.
abbrev pub run_queue_put : ℕ → Core → Core
run_queue_put entry c = record c { run_queue = entry ∷ c.run_queue }

abbrev pub run_queue_get : Core → Option ℕ × Core
run_queue_get c = elim c.run_queue [
  | [] ↦ (none, c)
  | rqe ∷ rest ↦ (some rqe, record c { run_queue = rest })
]

abbrev pub sched_select_thread : Core → Option ℕ × Core
sched_select_thread c =
    let (entry, rest) = run_queue_get c in
    elim entry [ none ↦ (rest.idle_thread, rest) | some thread ↦ (some thread, rest) ]

-- `OBJECT_PUT` of a thread: the last reference frees it.
abbrev pub object_put : ℕ → Core → Run Core
object_put t c =
    let ref_count = c.ref_count t in
    assert (leb 1 ref_count)
    >> ok (record c {
      ref_count = update c.ref_count t (sub_u64 ref_count 1);
      freed = if ref_count == 1 then t ∷ c.freed else c.freed;
    })

abbrev pub finish_park_as : ThreadState → ℕ → Core → Core
finish_park_as ThreadState.parking thread c = set_state thread ThreadState.parked c
finish_park_as ThreadState.ready thread c = run_queue_put thread c
finish_park_as _ thread c = c

abbrev pub finish_park : ℕ → Core → Core
finish_park thread c = finish_park_as (c.state thread) thread c

-- A null `g_last_thread` is never used with an action: the access would fault.
abbrev pub last_action : LastThreadAction → Option ℕ → Core → Run Core
last_action LastThreadAction.action_none last c = ok c
last_action LastThreadAction.action_park (some last) c = ok (finish_park last c)
last_action LastThreadAction.action_put (some last) c = object_put last c
last_action _ none c = halt

abbrev pub forget_last : Core → Core
forget_last c = record c { last_thread = none; last_thread_action = LastThreadAction.action_none }

abbrev pub scheduler_after_schedule : Core → Run Core
scheduler_after_schedule c =
    last_action c.last_thread_action c.last_thread c >>= λ after. ok (forget_last after)

abbrev pub is_idle : ℕ → Option ℕ → Bool
is_idle t none = false
is_idle t (some i) = t == i

-- The switch on the state of the current thread.
abbrev pub leave_as : ThreadState → ℕ → Core → Run Core
leave_as ThreadState.dead current c =
    ok (record c { last_thread_action = LastThreadAction.action_put })
leave_as ThreadState.parking current c =
    ok (record c { last_thread_action = LastThreadAction.action_park })
leave_as ThreadState.running current c =
    let readied = set_state current ThreadState.ready c in
    ok (if is_idle current c.idle_thread then readied else run_queue_put current readied)
leave_as _ current c = halt

abbrev pub is_ready : ThreadState → Bool
is_ready ThreadState.ready = true
is_ready _ = false

-- From the selected thread on. `thread_switch` continues where the new thread left off, in
-- `scheduler_schedule` or in `thread_entry_point`: both clean up next.
abbrev pub enter : Option ℕ → Core → Run Core
enter none c = halt
enter (some new_thread) c =
    assert (is_ready (c.state new_thread))
    >> scheduler_after_schedule
        (record (set_state new_thread ThreadState.running c) { current_thread = some new_thread })

abbrev pub scheduler_schedule_from : Option ℕ → Core → Run Core
scheduler_schedule_from none c = halt
scheduler_schedule_from (some current) c = leave_as (c.state current) current c >>= λ left.
    let (new_thread, rest) = sched_select_thread (record left { last_thread = some current }) in
    enter new_thread rest

unfoldable pub scheduler_schedule : Core → Run Core
scheduler_schedule c = assert (not c.irq_enabled) >> scheduler_schedule_from c.current_thread c

abbrev pub is_state_idle : ThreadState → Bool
is_state_idle ThreadState.idle = true
is_state_idle _ = false

abbrev pub is_running : ThreadState → Bool
is_running ThreadState.running = true
is_running _ = false

unfoldable pub thread_start : ℕ → Core → Run Core
thread_start thread c =
    assert (is_state_idle (c.state thread))
    >> ok (run_queue_put thread (set_state thread ThreadState.ready c))

abbrev pub thread_exit_from : Option ℕ → Core → Run Core
thread_exit_from none c = halt
thread_exit_from (some current) c =
    assert (is_running (c.state current))
    >> scheduler_schedule (record (set_state current ThreadState.dead c) { irq_enabled = false })

-- Up to the point where another thread goes on.
unfoldable pub thread_exit : Core → Run Core
thread_exit c = thread_exit_from c.current_thread c

-- Up to the point where the caller, or another thread that has yielded, goes on. The `DEBUG_ASSERT` is
-- not compiled in.
unfoldable pub thread_yield : Core → Run Core
thread_yield c = scheduler_schedule (record c { irq_enabled = false }) >>= λ after.
    ok (record after { irq_enabled = true })

unfoldable pub thread_bootstrap : ℕ → Core → Core
thread_bootstrap thread c = record (set_state thread ThreadState.running c) {
  current_thread = some thread;
}

unfoldable pub sched_start_per_core : Core → Run Core
sched_start_per_core c = elim c.idle_thread [
  | none ↦ halt
  | some i ↦ ok (thread_bootstrap i (record c { irq_enabled = false }))
]

-- The part of a new thread around its entry point, up to the point where another thread goes on.
unfoldable pub thread_entry_point : (entry : Core → Run Core) → Core → Run Core
thread_entry_point entry c =
    scheduler_after_schedule c >>= λ cleaned. entry cleaned >>= λ done. thread_exit done

-- The start of an idle thread: the count of the cores that have started, and interrupts off.
unfoldable pub scheduler_idle_thread : (m_sched_start_count : ℕ) → Core → ℕ × Core
scheduler_idle_thread m_sched_start_count c =
    (m_sched_start_count + 1, record c { irq_enabled = false })

-- A round of the loop of `scheduler_idle_loop`: interrupts are on for as long as the core halts.
unfoldable pub idle_round : Core → Run Core
idle_round c = scheduler_schedule c >>= λ after. ok (record after { irq_enabled = false })
