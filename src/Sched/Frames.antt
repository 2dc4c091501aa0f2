-- ===== src/Sched/Frames.antt =====
-- src/thread/thread.S: the switch from the stack of one thread to that of another. A thread is the
-- address of its `thread_t`, whose first field is `kernel_rsp`; the memory is that of 64-bit words.
use tomato.Base.{ℕ, ◌+◌, ◌-◌, ◌≤◌, ◌≡◌, ◌≢◌, ◌⊎◌, refl, ap, ◌∙◌, subst, update, arith, inl, inr}

-- The registers that the assembly names, and the next instruction.
pub record Registers : Type 0 where
  pub rsp : ℕ
  pub rbp : ℕ
  pub rbx : ℕ
  pub r12 : ℕ
  pub r13 : ℕ
  pub r14 : ℕ
  pub r15 : ℕ
  pub rdi : ℕ
  pub rsi : ℕ
  pub rip : ℕ

abbrev pub Memory : Type 0
Memory = ℕ → ℕ

-- `pushq` of a value: the stack goes down.
abbrev pub push : ℕ → Registers × Memory → Registers × Memory
push v (r, word) = (record r { rsp = r.rsp - 8 }, update word (r.rsp - 8) v)

-- The six `pushq`, and `movq %rsp, (%rsi)`
unfoldable pub save_state : Registers × Memory → Registers × Memory
save_state (r, word) =
    let (pushed, saved) =
      push r.r15 (push r.r14 (push r.r13 (push r.r12 (push r.rbx (push r.rbp (r, word)))))) in
    (pushed, update saved pushed.rsi pushed.rsp)

-- `movq (%rdi), %rsp`, the six `popq`, and `ret`
unfoldable pub restore_state : Registers × Memory → Registers × Memory
restore_state (r, word) =
    let rsp = word r.rdi in
    (
      record r {
        r15 = word rsp;
        r14 = word (rsp + 8);
        r13 = word (rsp + 16);
        r12 = word (rsp + 24);
        rbx = word (rsp + 32);
        rbp = word (rsp + 40);
        rip = word (rsp + 48);
        rsp = rsp + 56;
      },
      word,
    )

unfoldable pub do_thread_switch : Registers × Memory → Registers × Memory
do_thread_switch m = restore_state (save_state m)

unfoldable pub do_thread_bootstrap : Registers × Memory → Registers × Memory
do_thread_bootstrap m = restore_state m

-- `popq %rdi`, `popq %rsi` and the jump
unfoldable pub thread_entry_thunk :
    (thread_entry_point : ℕ) → Registers × Memory → Registers × Memory
thread_entry_thunk thread_entry_point (r, word) = (
  record r { rdi = word r.rsp; rsi = word (r.rsp + 8); rip = thread_entry_point; rsp = r.rsp + 16 },
  word,
)

-- The words of a thread that is switched out: its frame, under its return address.
pub record IsSaved (thread : ℕ) (word : Memory) (r : Registers) (return : ℕ) : Type 0 where
  pub kernel_rsp : word thread + 48 ≡ r.rsp
  pub r15 : word (word thread) ≡ r.r15
  pub r14 : word (word thread + 8) ≡ r.r14
  pub r13 : word (word thread + 16) ≡ r.r13
  pub r12 : word (word thread + 24) ≡ r.r12
  pub rbx : word (word thread + 32) ≡ r.rbx
  pub rbp : word (word thread + 40) ≡ r.rbp
  pub rip : word (word thread + 48) ≡ return

-- The word lies outside the frame that is pushed below `rsp`.
abbrev pub IsOutside : (rsp a : ℕ) → Type 0
IsOutside rsp a = (rsp ≤ a) ⊎ (a + 56 ≤ rsp)

save_state-IsSaved :
    (r : Registers) (word : Memory)
    → 48 ≤ r.rsp
    → (r.rsp + 8 ≤ r.rsi) ⊎ (r.rsi + 56 ≤ r.rsp)
    → IsSaved r.rsi (save_state (r, word)).1 r (word r.rsp)
unfolding save_state
save_state-IsSaved r word h o = record {
  kernel_rsp = ground arith;
  r15 = ground arith;
  r14 = ground arith;
  r13 = ground arith;
  r12 = ground arith;
  rbx = ground arith;
  rbp = ground arith;
  rip = ground arith;
}

-- A frame elsewhere stays as it is.
pub save_state-keeps :
    (n : Registers) (w : Memory) (a : ℕ)
    → 48 ≤ n.rsp
    → IsOutside n.rsp a
    → n.rsi ≢ a
    → (save_state (n, w)).1 a ≡ w a
unfolding save_state
save_state-keeps n w a h o k = ground arith

-- The registers that a call keeps, after the return to the caller.
pub record IsResumed (r : Registers) (return : ℕ) (out : Registers) : Type 0 where
  pub rsp : out.rsp ≡ r.rsp + 8
  pub rbp : out.rbp ≡ r.rbp
  pub rbx : out.rbx ≡ r.rbx
  pub r12 : out.r12 ≡ r.r12
  pub r13 : out.r13 ≡ r.r13
  pub r14 : out.r14 ≡ r.r14
  pub r15 : out.r15 ≡ r.r15
  pub rip : out.rip ≡ return

restore_state-IsResumed :
    (thread return : ℕ) (r n : Registers) (w : Memory)
    → n.rdi ≡ thread
    → IsSaved thread w r return
    → IsResumed r return (restore_state (n, w)).0
unfolding restore_state
restore_state-IsResumed thread return r n w e s =
    let at : w n.rdi ≡ w thread = ap w e in
    let top = s.kernel_rsp in
    record {
      rsp = omega arith;
      rbp = ap (λ k. w (k + 40)) at ∙ s.rbp;
      rbx = ap (λ k. w (k + 32)) at ∙ s.rbx;
      r12 = ap (λ k. w (k + 24)) at ∙ s.r12;
      r13 = ap (λ k. w (k + 16)) at ∙ s.r13;
      r14 = ap (λ k. w (k + 8)) at ∙ s.r14;
      r15 = ap w at ∙ s.r15;
      rip = ap (λ k. w (k + 48)) at ∙ s.rip;
    }

IsSaved-same :
    (thread return : ℕ) (r : Registers) (w w' : Memory)
    → w' thread ≡ w thread
    → ((i : ℕ) → i ≤ 48 → w' (w thread + i) ≡ w (w thread + i))
    → IsSaved thread w r return
    → IsSaved thread w' r return
IsSaved-same thread return r w w' e f s =
    let zero_off : w' (w thread) ≡ w (w thread) =
      let z : w thread + 0 ≡ w thread = omega arith in
      subst (λ a. w' a ≡ w a) z (f 0 (omega arith)) in
    record {
      kernel_rsp = ap (λ k. k + 48) e ∙ s.kernel_rsp;
      r15 = ap w' e ∙ zero_off ∙ s.r15;
      r14 = ap (λ k. w' (k + 8)) e ∙ f 8 (omega arith) ∙ s.r14;
      r13 = ap (λ k. w' (k + 16)) e ∙ f 16 (omega arith) ∙ s.r13;
      r12 = ap (λ k. w' (k + 24)) e ∙ f 24 (omega arith) ∙ s.r12;
      rbx = ap (λ k. w' (k + 32)) e ∙ f 32 (omega arith) ∙ s.rbx;
      rbp = ap (λ k. w' (k + 40)) e ∙ f 40 (omega arith) ∙ s.rbp;
      rip = ap (λ k. w' (k + 48)) e ∙ f 48 (omega arith) ∙ s.rip;
    }

-- The other thread's stack and `thread_t` lie apart from the words of a thread whose stack is at `rsp`.
pub record IsApart (thread rsp : ℕ) (n : Registers) : Type 0 where
  pub room : 48 ≤ n.rsp
  pub thread_out : IsOutside n.rsp thread
  pub thread_other : n.rsi ≢ thread
  pub frame_out : (n.rsp + 48 ≤ rsp) ⊎ (rsp + 56 ≤ n.rsp)
  pub frame_other : (n.rsi + 56 ≤ rsp) ⊎ (rsp + 8 ≤ n.rsi)

frame-IsOutside :
    (k i rsp other : ℕ)
    → k + 48 ≡ rsp
    → i ≤ 48
    → (other + 48 ≤ rsp) ⊎ (rsp + 56 ≤ other)
    → IsOutside other (k + i)
frame-IsOutside k i rsp other e h (inl o) = inl (omega arith)
frame-IsOutside k i rsp other e h (inr o) = inr (omega arith)

frame_elsewhere :
    (k i rsp other : ℕ)
    → k + 48 ≡ rsp
    → i ≤ 48
    → (other + 56 ≤ rsp) ⊎ (rsp + 8 ≤ other)
    → other ≢ k + i
frame_elsewhere k i rsp other e h (inl o) same = absurd (omega arith)
frame_elsewhere k i rsp other e h (inr o) same = absurd (omega arith)

pub save_state-rdi : (n : Registers) (w : Memory) → (save_state (n, w)).0.rdi ≡ n.rdi
unfolding save_state
save_state-rdi n w = refl

-- A thread calls `do_thread_switch` with room for the frame, and with its `thread_t` apart from it. Where
-- the words of its frame and of its `thread_t` are kept until another thread, with a stack and a
-- `thread_t` apart from them, switches back to it, that switch returns from the call: to the caller's address,
-- with the stack pointer behind the return address and with rbp, rbx and r12 to r15 as they were.
pub do_thread_switch-IsResumed :
    (r n : Registers) (word w : Memory)
    → 48 ≤ r.rsp
    → (r.rsp + 8 ≤ r.rsi) ⊎ (r.rsi + 56 ≤ r.rsp)
    → w r.rsi ≡ (do_thread_switch (r, word)).1 r.rsi
    → ((a : ℕ) → r.rsp ≤ a + 48 → a ≤ r.rsp → w a ≡ (do_thread_switch (r, word)).1 a)
    → n.rdi ≡ r.rsi
    → IsApart r.rsi r.rsp n
    → IsResumed r (word r.rsp) (do_thread_switch (n, w)).0
unfolding do_thread_switch save_state restore_state
do_thread_switch-IsResumed r n word w room out same_thread same back apart =
    let saved = save_state-IsSaved r word room out in
    let top = saved.kernel_rsp in
    let kept : IsSaved r.rsi w r (word r.rsp) =
      IsSaved-same r.rsi (word r.rsp) r (save_state (r, word)).1 w same_thread
        (λ i h. same ((save_state (r, word)).1 r.rsi + i) (omega arith) (omega arith)) saved in
    let top_w = kept.kernel_rsp in
    let still : IsSaved r.rsi (save_state (n, w)).1 r (word r.rsp) =
      IsSaved-same r.rsi (word r.rsp) r w (save_state (n, w)).1
        (save_state-keeps n w r.rsi apart.room apart.thread_out apart.thread_other)
        (λ i h.
          save_state-keeps n w (w r.rsi + i) apart.room
            (frame-IsOutside (w r.rsi) i r.rsp n.rsp top_w h apart.frame_out)
            (frame_elsewhere (w r.rsi) i r.rsp n.rsi top_w h apart.frame_other))
        kept in
    restore_state-IsResumed r.rsi (word r.rsp) r (save_state (n, w)).0 (save_state (n, w)).1
      (save_state-rdi n w ∙ back) still
