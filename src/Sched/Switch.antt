-- ===== src/Sched/Switch.antt =====
-- src/thread/sched.c: `scheduler_schedule` on each state that the current thread may leave in.
use tomato.Base.{
  ℕ, ◌≡◌, ◌≢◌, refl, ap, sym, ◌∙◌, inl, inr, true, false, some, List, [], ◌∷◌, ok, Returns, ◌==◌,
  ==_refl, leb, sub_u64, if◌then◌else◌, update, update_self, update_ne, arith, List-cases,
}
use native.Mathlib.Decide.{ℕ_discrete}
use tomato.Sched.{Core, ThreadState, scheduler_schedule}
use tomato.Sched.Invariant.{
  Inv, Switched, MayLeave, after, stayed, took_over, idle-Choice, head-Choice, head_ready, left_in,
}

module _ (c : Core) (cur i : ℕ) (inv : Inv c cur i) (off : c.irq_enabled ≡ false) where
  parking_none :
      c.state cur ≡ ThreadState.parking
      → i ≢ cur
      → c.run_queue ≡ []
      → scheduler_schedule c
        ≡ ok (after i [] (update (update c.state i ThreadState.running) cur ThreadState.parked) c)
  unfolding scheduler_schedule
  parking_none es n e =
      rw
        (
          off,
          inv.current,
          es,
          e,
          inv.idle_thread,
          inv.idle_ready n,
          update_ne c.state i cur ThreadState.running n,
          es,
        )
        refl

  parking_some :
      (t : ℕ) (ts : List ℕ)
      → c.state cur ≡ ThreadState.parking
      → cur ≢ t
      → c.run_queue ≡ t ∷ ts
      → scheduler_schedule c
        ≡ ok (after t ts (update (update c.state t ThreadState.running) cur ThreadState.parked) c)
  unfolding scheduler_schedule
  parking_some t ts es n e =
      rw
        (
          off,
          inv.current,
          es,
          e,
          head_ready c cur i inv t ts e,
          update_ne c.state t cur ThreadState.running (λ x. n (sym x)),
          es,
        )
        refl

  -- The core after a thread has died.
  abbrev buried : Core → Core
  buried d = record d {
    ref_count = update c.ref_count cur (sub_u64 (c.ref_count cur) 1);
    freed = if c.ref_count cur == 1 then cur ∷ c.freed else c.freed;
  }

  dead_none :
      c.state cur ≡ ThreadState.dead
      → i ≢ cur
      → leb 1 (c.ref_count cur) ≡ true
      → c.run_queue ≡ []
      → scheduler_schedule c ≡ ok (buried (after i [] (update c.state i ThreadState.running) c))
  unfolding scheduler_schedule
  dead_none es n l e = rw (off, inv.current, es, e, inv.idle_thread, inv.idle_ready n, l) refl

  dead_some :
      (t : ℕ) (ts : List ℕ)
      → c.state cur ≡ ThreadState.dead
      → leb 1 (c.ref_count cur) ≡ true
      → c.run_queue ≡ t ∷ ts
      → scheduler_schedule c ≡ ok (buried (after t ts (update c.state t ThreadState.running) c))
  unfolding scheduler_schedule
  dead_some t ts es l e = rw (off, inv.current, es, e, head_ready c cur i inv t ts e, l) refl

  running_busy :
      c.state cur ≡ ThreadState.running
      → (cur == i) ≡ false
      → scheduler_schedule c
        ≡ ok (
            after cur c.run_queue
              (update (update c.state cur ThreadState.ready) cur ThreadState.running)
              c)
  unfolding scheduler_schedule
  running_busy es n =
      rw
        (
          off,
          inv.current,
          es,
          inv.idle_thread,
          n,
          update_self c.state cur ThreadState.ready,
          inv.settled,
        )
        refl

  running_idle_none :
      c.state cur ≡ ThreadState.running
      → cur ≡ i
      → c.run_queue ≡ []
      → scheduler_schedule c
        ≡ ok (after i [] (update (update c.state i ThreadState.ready) i ThreadState.running) c)
  unfolding scheduler_schedule
  running_idle_none es same e =
      rw
        (
          off,
          inv.current,
          es,
          inv.idle_thread,
          ==_refl cur i same,
          e,
          same,
          update_self c.state i ThreadState.ready,
          inv.settled,
        )
        refl

  running_idle_some :
      (t : ℕ) (ts : List ℕ)
      → c.state cur ≡ ThreadState.running
      → cur ≡ i
      → cur ≢ t
      → c.run_queue ≡ t ∷ ts
      → scheduler_schedule c
        ≡ ok (after t ts (update (update c.state cur ThreadState.ready) t ThreadState.running) c)
  unfolding scheduler_schedule
  running_idle_some t ts es same n e =
      rw
        (
          off,
          inv.current,
          es,
          inv.idle_thread,
          ==_refl cur i same,
          e,
          update_ne c.state cur t ThreadState.ready n,
          head_ready c cur i inv t ts e,
          inv.settled,
        )
        refl

  parking-Switched :
      c.state cur ≡ ThreadState.parking
      → i ≢ cur
      → Returns (Switched cur i c) (scheduler_schedule c)
  parking-Switched es n = elim (List-cases c.run_queue) [
    | inl e ↦ rw (parking_none es n e) (
        took_over c cur i inv i [] _ (idle-Choice c cur i inv n) refl inv.idle_thread refl refl
          (update_ne (update c.state i ThreadState.running) cur i ThreadState.parked
              (λ x. n (sym x))
            ∙ update_self c.state i ThreadState.running)
          (λ u a b.
            update_ne (update c.state i ThreadState.running) cur u ThreadState.parked b
            ∙ update_ne c.state i u ThreadState.running a)
          (update_self (update c.state i ThreadState.running) cur ThreadState.parked
            ∙ sym (ap left_in es))
          (λ x. absurd (x refl)))
    | inr (t, ts, e) ↦
        let choice = head-Choice c cur i inv t ts e in
        rw (parking_some t ts es choice.other e) (
          took_over c cur i inv t ts _ choice refl inv.idle_thread refl refl
            (update_ne (update c.state t ThreadState.running) cur t ThreadState.parked choice.other
              ∙ update_self c.state t ThreadState.running)
            (λ u a b.
              update_ne (update c.state t ThreadState.running) cur u ThreadState.parked b
              ∙ update_ne c.state t u ThreadState.running a)
            (update_self (update c.state t ThreadState.running) cur ThreadState.parked
              ∙ sym (ap left_in es))
            (λ x.
              update_ne (update c.state t ThreadState.running) cur i ThreadState.parked
                (λ y. n (sym y))
              ∙ update_ne c.state t i ThreadState.running (λ y. x (sym y))
              ∙ inv.idle_ready n))
  ]

  dead-Switched :
      c.state cur ≡ ThreadState.dead
      → i ≢ cur
      → leb 1 (c.ref_count cur) ≡ true
      → Returns (Switched cur i c) (scheduler_schedule c)
  dead-Switched es n l = elim (List-cases c.run_queue) [
    | inl e ↦ rw (dead_none es n l e) (
        took_over c cur i inv i [] _ (idle-Choice c cur i inv n) refl inv.idle_thread refl refl
          (update_self c.state i ThreadState.running)
          (λ u a b. update_ne c.state i u ThreadState.running a)
          (update_ne c.state i cur ThreadState.running n ∙ es ∙ sym (ap left_in es))
          (λ x. absurd (x refl)))
    | inr (t, ts, e) ↦
        let choice = head-Choice c cur i inv t ts e in
        rw (dead_some t ts es l e) (
          took_over c cur i inv t ts _ choice refl inv.idle_thread refl refl
            (update_self c.state t ThreadState.running)
            (λ u a b. update_ne c.state t u ThreadState.running a)
            (update_ne c.state t cur ThreadState.running (λ y. choice.other (sym y))
              ∙ es
              ∙ sym (ap left_in es))
            (λ x. update_ne c.state t i ThreadState.running (λ y. x (sym y)) ∙ inv.idle_ready n))
  ]

  running-Switched :
      c.state cur ≡ ThreadState.running → Returns (Switched cur i c) (scheduler_schedule c)
  running-Switched es = elim (ℕ_discrete cur i) [
    | no n ↦ rw (running_busy es (ground arith)) (
        stayed c cur i inv _ refl inv.idle_thread refl refl
          (update_self (update c.state cur ThreadState.ready) cur ThreadState.running)
          (λ u a b.
            update_ne (update c.state cur ThreadState.ready) cur u ThreadState.running a
            ∙ update_ne c.state cur u ThreadState.ready a))
    | yes same ↦ elim (List-cases c.run_queue) [
      | inl e ↦ rw (running_idle_none es same e) (
          stayed c cur i inv _ (ap some (sym same)) inv.idle_thread (sym e) refl
            (ap (update (update c.state i ThreadState.ready) i ThreadState.running) same
              ∙ update_self (update c.state i ThreadState.ready) i ThreadState.running)
            (λ u a b.
              update_ne (update c.state i ThreadState.ready) i u ThreadState.running
                (λ y. a (same ∙ y))
              ∙ update_ne c.state i u ThreadState.ready (λ y. a (same ∙ y))))
      | inr (t, ts, e) ↦
          let choice = head-Choice c cur i inv t ts e in
          rw (running_idle_some t ts es same choice.other e) (
            took_over c cur i inv t ts _ choice refl inv.idle_thread refl refl
              (update_self (update c.state cur ThreadState.ready) t ThreadState.running)
              (λ u a b.
                update_ne (update c.state cur ThreadState.ready) t u ThreadState.running a
                ∙ update_ne c.state cur u ThreadState.ready b)
              (update_ne (update c.state cur ThreadState.ready) t cur ThreadState.running
                  (λ y. choice.other (sym y))
                ∙ update_self c.state cur ThreadState.ready
                ∙ sym (ap left_in es))
              (λ x.
                update_ne (update c.state cur ThreadState.ready) t i ThreadState.running
                  (λ y. x (sym y))
                ∙ ap (update c.state cur ThreadState.ready) (sym same)
                ∙ update_self c.state cur ThreadState.ready))
    ]
  ]

  switches :
      (st : ThreadState)
      → c.state cur ≡ st
      → MayLeave st cur i c
      → Returns (Switched cur i c) (scheduler_schedule c)
  switches ThreadState.running es may = running-Switched es
  switches ThreadState.parking es may = parking-Switched es may
  switches ThreadState.dead es (n, l) = dead-Switched es n (ground arith)
  switches ThreadState.idle es may = absurd may
  switches ThreadState.ready es may = absurd may
  switches ThreadState.parked es may = absurd may

  -- Between two switches and with interrupts off, where the current thread runs, or parks or dies and is
  -- not the idle thread, and a dead one has a reference left: `scheduler_schedule` returns, with some
  -- thread running, with ready threads on the queue, each once and without the running and the idle
  -- thread, and with the thread that was left, if it is another one, ready, parked or dead.
  pub scheduler_schedule-Switched :
      MayLeave (c.state cur) cur i c → Returns (Switched cur i c) (scheduler_schedule c)
  scheduler_schedule-Switched may = switches (c.state cur) refl may
