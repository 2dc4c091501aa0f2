-- ===== src/Sched/Invariant.antt =====
-- src/thread/sched.c: what a core keeps true of its threads from one switch to the next.
use tomato.Base.{ℕ, ◌≡◌, ◌≢◌, ◌≤◌, refl, sym, subst, ◌∙◌, none, some, List, [], ◌∷◌}
use tomato.Sched.{Core, ThreadState, LastThreadAction}

abbrev pub NotIn : ℕ → List ℕ → Type 0
NotIn t [] = Unit
NotIn t (u ∷ us) = (t ≢ u) × NotIn t us

-- The threads of the queue are ready, and each is there once.
abbrev pub Queued : (ℕ → ThreadState) → List ℕ → Type 0
Queued st [] = Unit
Queued st (t ∷ ts) = (st t ≡ ThreadState.ready) × NotIn t ts × Queued st ts

Queued-same :
    {st st' : ℕ → ThreadState} (a b : ℕ) (ts : List ℕ)
    → ((u : ℕ) → a ≢ u → b ≢ u → st' u ≡ st u)
    → NotIn a ts
    → NotIn b ts
    → Queued st ts
    → Queued st' ts
Queued-same a b [] same na nb q = tt
Queued-same a b (u ∷ us) same (na, nas) (nb, nbs) (r, f, q) =
    (same u na nb ∙ r, f, Queued-same a b us same nas nbs q)

-- Between two switches, with `cur` running on the core and `i` the idle thread.
pub record Inv (c : Core) (cur i : ℕ) : Type 0 where
  pub current : c.current_thread ≡ some cur
  pub idle_thread : c.idle_thread ≡ some i
  pub queued : Queued c.state c.run_queue
  pub cur_out : NotIn cur c.run_queue
  pub idle_out : NotIn i c.run_queue
  pub idle_ready : i ≢ cur → c.state i ≡ ThreadState.ready
  pub settled : c.last_thread_action ≡ LastThreadAction.action_none

-- The current thread may switch: it runs on, or it parks or dies and is not the idle thread. A dead one
-- has a reference left.
abbrev pub MayLeave : ThreadState → (cur i : ℕ) → Core → Type 0
MayLeave ThreadState.running cur i c = Unit
MayLeave ThreadState.parking cur i c = i ≢ cur
MayLeave ThreadState.dead cur i c = (i ≢ cur) × (1 ≤ c.ref_count cur)
MayLeave _ cur i c = ⊥

-- The state that a thread is left in, after it was switched away from in the state `st`.
abbrev pub left_in : ThreadState → ThreadState
left_in ThreadState.running = ThreadState.ready
left_in ThreadState.parking = ThreadState.parked
left_in st = st

-- A thread runs, and the thread it took over from, if it is another one, is ready, parked or dead.
pub record Switched (cur i : ℕ) (c c' : Core) : Type 0 where
  pub new : ℕ
  pub inv : Inv c' new i
  pub running : c'.state new ≡ ThreadState.running
  pub left : new ≢ cur → c'.state cur ≡ left_in (c.state cur)

-- The core after a switch to `t` that leaves the queue `ts`.
abbrev pub after : ℕ → List ℕ → (ℕ → ThreadState) → Core → Core
after t ts st c = record c {
  last_thread = none;
  last_thread_action = LastThreadAction.action_none;
  current_thread = some t;
  run_queue = ts;
  state = st;
}

-- The thread that is selected while `cur` leaves.
pub record Choice (c : Core) (cur i t : ℕ) (ts : List ℕ) : Type 0 where
  pub other : cur ≢ t
  pub waiting : Queued c.state ts
  pub t_out : NotIn t ts
  pub cur_left : NotIn cur ts
  pub idle_left : NotIn i ts

module _ (c : Core) (cur i : ℕ) (inv : Inv c cur i) where
  pub stayed :
      (c' : Core)
      → c'.current_thread ≡ some cur
      → c'.idle_thread ≡ some i
      → c'.run_queue ≡ c.run_queue
      → c'.last_thread_action ≡ LastThreadAction.action_none
      → c'.state cur ≡ ThreadState.running
      → ((u : ℕ) → cur ≢ u → cur ≢ u → c'.state u ≡ c.state u)
      → Switched cur i c c'
  stayed c' ec ei eq ea er same = record {
    new = cur;
    inv = record {
      current = ec;
      idle_thread = ei;
      queued = rw eq (Queued-same cur cur c.run_queue same inv.cur_out inv.cur_out inv.queued);
      cur_out = rw eq inv.cur_out;
      idle_out = rw eq inv.idle_out;
      idle_ready = λ n. same i (λ e. n (sym e)) (λ e. n (sym e)) ∙ inv.idle_ready n;
      settled = ea;
    };
    running = er;
    left = λ n. absurd (n refl);
  }

  pub took_over :
      (t : ℕ) (ts : List ℕ) (c' : Core)
      → Choice c cur i t ts
      → c'.current_thread ≡ some t
      → c'.idle_thread ≡ some i
      → c'.run_queue ≡ ts
      → c'.last_thread_action ≡ LastThreadAction.action_none
      → c'.state t ≡ ThreadState.running
      → ((u : ℕ) → t ≢ u → cur ≢ u → c'.state u ≡ c.state u)
      → c'.state cur ≡ left_in (c.state cur)
      → (i ≢ t → c'.state i ≡ ThreadState.ready)
      → Switched cur i c c'
  took_over t ts c' choice ec ei eq ea er same left idles = record {
    new = t;
    inv = record {
      current = ec;
      idle_thread = ei;
      queued = rw eq (Queued-same t cur ts same choice.t_out choice.cur_left choice.waiting);
      cur_out = rw eq choice.t_out;
      idle_out = rw eq choice.idle_left;
      idle_ready = idles;
      settled = ea;
    };
    running = er;
    left = λ _. left;
  }

  pub idle-Choice : i ≢ cur → Choice c cur i i []
  idle-Choice n = record {
    other = λ e. n (sym e);
    waiting = tt;
    t_out = tt;
    cur_left = tt;
    idle_left = tt;
  }

  pub head-Choice : (t : ℕ) (ts : List ℕ) → c.run_queue ≡ t ∷ ts → Choice c cur i t ts
  head-Choice t ts e =
      let (r, f, q) = subst (Queued c.state) e inv.queued in
      let (out, outs) = subst (NotIn cur) e inv.cur_out in
      let (idle_out, idle_outs) = subst (NotIn i) e inv.idle_out in
      record { other = out; waiting = q; t_out = f; cur_left = outs; idle_left = idle_outs }

  pub head_ready : (t : ℕ) (ts : List ℕ) → c.run_queue ≡ t ∷ ts → c.state t ≡ ThreadState.ready
  head_ready t ts e = let (r, f, q) = subst (Queued c.state) e inv.queued in r
