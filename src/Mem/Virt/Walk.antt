-- ===== src/Mem/Virt/Walk.antt =====
-- src/mem/virt.c: what a walk of the page tables finds and what it leaves for the next one.
use tomato.Base.{
  Err, success, ◌≤◌, ℕ, zero, suc, ◌+◌, ◌-◌, ◌%◌, ◌≡◌, refl, sym, ap, subst, ◌∙◌, Bool, true, false,
  Option, none, some, Run, ok, halt, Returns, ◌>>=◌, Bool-cases, inl, inr, update-cases,
  update_self, arith,
}
use tomato.Mem.Virt.{
  Frames, Paging, store, is_present, frame_of, table_entry, entry_at, exchange, virt_get_next_level,
  walk,
}

-- The entries that are present stay as they are.
pub record Grows (p p' : Paging) : Type 0 where
  pub words : (e : ℕ) → is_present (p.word e) ≡ true → p'.word e ≡ p.word e
  pub root : p'.page_table ≡ p.page_table
  pub levels : p'.page_table_levels ≡ p.page_table_levels
  pub base : p'.direct_base ≡ p.direct_base
  pub user : p'.user_end ≡ p.user_end

pub Grows-refl : (p : Paging) → Grows p p
Grows-refl p = record { words = λ e h. refl; root = refl; levels = refl; base = refl; user = refl }

pub Grows-trans : {p q r : Paging} → Grows p q → Grows q r → Grows p r
Grows-trans g h = record {
  words = λ e present. h.words e (ap is_present (g.words e present) ∙ present) ∙ g.words e present;
  root = h.root ∙ g.root;
  levels = h.levels ∙ g.levels;
  base = h.base ∙ g.base;
  user = h.user ∙ g.user;
}

-- An entry that is not present may be filled.
pub Grows-store :
    (e value : ℕ) (p : Paging) → is_present (p.word e) ≡ false → Grows p (store e value p)
Grows-store e value p h = record {
  words = λ d present. elim (update-cases p.word e value d) [
    | inl (same, _) ↦
        let clash : false ≡ true = sym h ∙ ap (λ i. is_present (p.word i)) same ∙ present in
        cc clash
    | inr (_, kept) ↦ kept
  ];
  root = refl;
  levels = refl;
  base = refl;
  user = refl;
}

-- From a table the present entries of each level lead to `pte`.
unfoldable pub Leads : Paging → (level virt table pte : ℕ) → Type 0
Leads p zero virt table pte = pte ≡ entry_at 0 virt table
Leads p (suc level) virt table pte =
    (is_present (p.word (entry_at (suc level) virt table)) ≡ true)
    × Leads p level virt (frame_of p (p.word (entry_at (suc level) virt table))) pte

pub Leads-Grows :
    {p p' : Paging} (level virt table pte : ℕ)
    → Grows p p'
    → Leads p level virt table pte
    → Leads p' level virt table pte
unfolding Leads
Leads-Grows zero virt table pte g l = l
Leads-Grows {p} {p'} (suc level) virt table pte g (present, l) =
    let same = g.words (entry_at (suc level) virt table) present in
    rw (same, g.base) (present, Leads-Grows level virt _ pte g l)

-- A walk whose levels are all present finds the entry and changes nothing.
pub walk-Leads :
    {State : Type 0} (frames : Frames State) (race : ℕ → Option ℕ) (level virt : ℕ)
    (alloc user : Bool) (table pte : ℕ) (p : Paging) (m : State)
    → Leads p level virt table pte
    → walk frames race level virt alloc user table (p, m) ≡ ok (some pte, p, m)
unfolding Leads walk virt_get_next_level
walk-Leads frames race zero virt alloc user table pte p m l = rw l refl
walk-Leads frames race (suc level) virt alloc user table pte p m (present, l) =
    rw (walk, virt_get_next_level, present)
      (walk-Leads frames race level virt alloc user _ pte p m l)

-- What another core stores is an entry of a table.
abbrev pub StoresTables : (ℕ → Option ℕ) → Type 0
StoresTables race = (e v : ℕ) → race e ≡ some v → is_present v ≡ true

-- A status other than success.
abbrev pub Fails : Err → Type 0
Fails success = ⊥
Fails err = Unit

-- What the code relies on of the allocator: a page is aligned in the direct map, and the pages that are
-- reserved change by the operations on reservations alone.
pub record IsSound {State : Type 0} (frames : Frames State) (base : ℕ) (reserved : State → ℕ)
    : Type 0 where
  pub aligned :
      (m m' : State) (page : ℕ)
      → frames.phys_alloc_page m ≡ (some page, m')
      → (page - base) % 4096 ≡ 0
  pub alloc_keeps : (m : State) → reserved (frames.phys_alloc_page m).1 ≡ reserved m
  pub free_keeps : (page : ℕ) (m : State) → reserved (frames.phys_free_page page m) ≡ reserved m
  pub reserve :
      (n : ℕ) (m m' : State)
      → frames.mem_acct_reserve n m ≡ (success, m')
      → reserved m' ≡ reserved m + n
  pub refuse :
      (n : ℕ) (m m' : State) (e : Err)
      → frames.mem_acct_reserve n m ≡ (e, m')
      → Fails e
      → reserved m' ≡ reserved m
  pub unreserve :
      (n : ℕ) (m : State)
      → n ≤ reserved m
      → reserved (frames.mem_acct_unreserve n m) + n ≡ reserved m
  pub alloc_reserved :
      (m : State)
      → 1 ≤ reserved m
      → (page : ℕ) × (m' : State) × (frames.phys_alloc_reserved_page m ≡ (some page, m'))
        × ((page - base) % 4096 ≡ 0)
        × (reserved m' + 1 ≡ reserved m)

module _ {State : Type 0} (frames : Frames State) (race : ℕ → Option ℕ) (stores : StoresTables race)
    (base : ℕ) (reserved : State → ℕ) (sound : IsSound frames base reserved) where
  -- The entry of a level, and the table that it now leads to.
  Stepped : (entry : ℕ) → Paging → State → Option ℕ × Paging × State → Type 0
  Stepped entry p m (none, p', m') = Grows p p' × (reserved m' ≡ reserved m)
  Stepped entry p m (some table, p', m') =
      Grows p p'
      × (reserved m' ≡ reserved m)
      × (is_present (p'.word entry) ≡ true)
      × (table ≡ frame_of p' (p'.word entry))

  exchange-Stepped :
      (entry page new_entry : ℕ) (o : Option ℕ) (p : Paging) (m : State)
      → race entry ≡ o
      → is_present (p.word entry) ≡ false
      → is_present new_entry ≡ true
      → Returns (Stepped entry p m) (exchange frames race entry page new_entry o (p, m))
  unfolding exchange Stepped
  exchange-Stepped entry page new_entry none p m e free fresh = rw fresh (
    Grows-store entry new_entry p free,
    refl,
    ap is_present (update_self p.word entry new_entry) ∙ fresh,
    sym (ap (frame_of p) (update_self p.word entry new_entry)),
  )
  exchange-Stepped entry page new_entry (some v) p m e free fresh = rw (stores entry v e) (
    Grows-store entry v p free,
    sound.free_keeps page m,
    ap is_present (update_self p.word entry v) ∙ stores entry v e,
    sym (ap (frame_of p) (update_self p.word entry v)),
  )

  -- With another count of reserved pages before.
  Stepped-count :
      (entry : ℕ) (p : Paging) (m m' : State) (r : Run (Option ℕ × Paging × State))
      → reserved m' ≡ reserved m
      → Returns (Stepped entry p m') r
      → Returns (Stepped entry p m) r
  unfolding Stepped
  Stepped-count entry p m m' (ok (none, q, _)) e (g, c) = (g, c ∙ e)
  Stepped-count entry p m m' (ok (some t, q, _)) e (g, c, here, to) = (g, c ∙ e, here, to)
  Stepped-count entry p m m' halt e n = n

  level_present :
      (entry : ℕ) (user : Bool) (p : Paging) (m : State)
      → is_present (p.word entry) ≡ true
      → Returns (Stepped entry p m) (virt_get_next_level frames race entry true user (p, m))
  unfolding virt_get_next_level Stepped
  level_present entry user p m present =
      rw (virt_get_next_level, present) (Grows-refl p, refl, present, refl)

  level_missing :
      (entry : ℕ) (user : Bool) (p : Paging) (m m' : State) (o : Option ℕ)
      → p.direct_base ≡ base
      → is_present (p.word entry) ≡ false
      → frames.phys_alloc_page m ≡ (o, m')
      → Returns (Stepped entry p m) (virt_get_next_level frames race entry true user (p, m))
  unfolding virt_get_next_level Stepped
  level_missing entry user p m m' none b free e =
      let kept = sym (ap (λ r. reserved r.1) e) ∙ sound.alloc_keeps m in
      rw (virt_get_next_level, free, e) (Grows-refl p, kept)
  level_missing entry user p m m' (some page) b free e =
      let kept = sym (ap (λ r. reserved r.1) e) ∙ sound.alloc_keeps m in
      let aligned = sound.aligned m m' page e in
      rw (virt_get_next_level, free, e)
        (Stepped-count entry p m m' _ kept (
          exchange-Stepped entry page (table_entry user page p.direct_base) (race entry) p m' refl
            free (ground arith)))

  level-Stepped :
      (entry : ℕ) (user : Bool) (p : Paging) (m : State)
      → p.direct_base ≡ base
      → Returns (Stepped entry p m) (virt_get_next_level frames race entry true user (p, m))
  level-Stepped entry user p m b = elim (Bool-cases (is_present (p.word entry))) [
    | inl present ↦ level_present entry user p m present
    | inr free ↦ level_missing entry user p m _ _ b free refl
  ]

  -- A walk that may allocate leaves the tables leading to the entry that it returns.
  unfoldable pub Walked :
      (level virt table : ℕ) → Paging → State → Option ℕ × Paging × State → Type 0
  Walked level virt table p m (none, p', m') = Grows p p' × (reserved m' ≡ reserved m)
  Walked level virt table p m (some pte, p', m') =
      Grows p p' × (reserved m' ≡ reserved m) × Leads p' level virt table pte

  Walked-after :
      (level virt table : ℕ) {p q : Paging} (m n : State) (r : Run (Option ℕ × Paging × State))
      → Grows p q
      → reserved n ≡ reserved m
      → is_present (q.word (entry_at (suc level) virt table)) ≡ true
      → Returns (Walked level virt (frame_of q (q.word (entry_at (suc level) virt table))) q n) r
      → Returns (Walked (suc level) virt table p m) r
  unfolding Walked Leads
  Walked-after level virt table m n (ok (none, p', m')) g e present (w, c) =
      (Grows-trans g w, c ∙ e)
  Walked-after level virt table m n (ok (some pte, p', m')) g e present (h, c, l) =
      let same = h.words (entry_at (suc level) virt table) present in
      (Grows-trans g h, c ∙ e, (ap is_present same ∙ present, rw (same, h.base) l))
  Walked-after level virt table m n halt g e present w = w

  walk-step :
      (level virt : ℕ) (user : Bool) (table : ℕ) (p : Paging) (m : State)
      (r : Run (Option ℕ × Paging × State))
      → p.direct_base ≡ base
      → ((next : ℕ) (q : Paging) (n : State)
          → q.direct_base ≡ base
          → Returns
              (Walked level virt next q n)
              (walk frames race level virt true user next (q, n)))
      → Returns (Stepped (entry_at (suc level) virt table) p m) r
      → Returns (Walked (suc level) virt table p m) (
          r >>= λ found. elim found.0 [
            | none ↦ ok (none, found.1, found.2)
            | some next ↦ walk frames race level virt true user next (found.1, found.2)
          ])
  unfolding Walked Stepped
  walk-step level virt user table p m halt b below n = n
  walk-step level virt user table p m (ok (none, q, n)) b below w = w
  walk-step level virt user table p m (ok (some next, q, n)) b below (g, c, present, e) =
      Walked-after level virt table m n _ g c present (
        subst
          (λ t.
            Returns (Walked level virt t q n) (walk frames race level virt true user next (q, n)))
          e (below next q n (g.base ∙ b)))

  pub walk-Walked :
      (level virt : ℕ) (user : Bool) (table : ℕ) (p : Paging) (m : State)
      → p.direct_base ≡ base
      → Returns (Walked level virt table p m) (walk frames race level virt true user table (p, m))
  unfolding walk Walked Leads
  walk-Walked zero virt user table p m b = (Grows-refl p, refl, refl)
  walk-Walked (suc level) virt user table p m b =
      walk-step level virt user table p m _ b (walk-Walked level virt user)
        (level-Stepped (entry_at (suc level) virt table) user p m b)
