-- ===== src/Mem/Virt/Reserve.antt =====
-- src/mem/virt.c: `virt_get_pte` and `virt_reserve_page_tables`, and the pages that they leave reachable.
use tomato.Base.{
  ℕ, zero, suc, ◌+◌, ◌≤◌, ◌≡◌, refl, sym, subst, ◌∙◌, Bool, true, Option, none, some, Run, ok, halt,
  Returns, ◌>>=◌, Err, success, internal_error, invalid_argument, out_of_resources, arith,
}
use tomato.Mem.Virt.{
  Frames, Paging, walk, walk_from, virt_get_pte, page_at, reserve_tables, keep_reserved,
  reserve_from, virt_reserve_page_tables,
}
use tomato.Mem.Virt.Walk.{
  Grows, Grows-refl, Grows-trans, Leads, Leads-Grows, StoresTables, IsSound, Walked, walk-Leads,
  walk-Walked,
}

-- From a table, at a number of levels.
abbrev pub LeadsFrom : Paging → (levels virt table pte : ℕ) → Type 0
LeadsFrom p zero virt table pte = ⊥
LeadsFrom p (suc top) virt table pte = Leads p top virt table pte

-- The tables lead to the entry of the address.
abbrev pub Reaches : Paging → (virt pte : ℕ) → Type 0
Reaches p virt pte = LeadsFrom p p.page_table_levels virt p.page_table pte

LeadsFrom-Grows :
    {p p' : Paging} (levels virt table pte : ℕ)
    → Grows p p'
    → LeadsFrom p levels virt table pte
    → LeadsFrom p' levels virt table pte
LeadsFrom-Grows zero virt table pte g l = l
LeadsFrom-Grows (suc top) virt table pte g l = Leads-Grows top virt table pte g l

-- With the root and the levels of the earlier tables.
Reaches-of :
    {p p' : Paging} (virt pte : ℕ)
    → Grows p p'
    → LeadsFrom p' p.page_table_levels virt p.page_table pte
    → Reaches p' virt pte
Reaches-of {p} {p'} virt pte g l =
    subst (λ t. LeadsFrom p' p'.page_table_levels virt t pte) (sym g.root)
      (subst (λ k. LeadsFrom p' k virt p.page_table pte) (sym g.levels) l)

pub Reaches-Grows :
    {p p' : Paging} (virt pte : ℕ) → Grows p p' → Reaches p virt pte → Reaches p' virt pte
Reaches-Grows {p} {p'} virt pte g r =
    Reaches-of virt pte g (LeadsFrom-Grows p.page_table_levels virt p.page_table pte g r)

-- The entries of all the pages of a range are reachable.
abbrev pub AllReach : Paging → (rounds base i : ℕ) → Type 0
AllReach p zero base i = Unit
AllReach p (suc rounds) base i =
    ((pte : ℕ) × Reaches p (page_at base i) pte) × AllReach p rounds base (suc i)

pub AllReach-Grows :
    {p p' : Paging} (rounds base i : ℕ)
    → Grows p p'
    → AllReach p rounds base i
    → AllReach p' rounds base i
AllReach-Grows zero base i g a = tt
AllReach-Grows (suc rounds) base i g ((pte, r), a) =
    ((pte, Reaches-Grows (page_at base i) pte g r), AllReach-Grows rounds base (suc i) g a)

module _ {State : Type 0} (frames : Frames State) (race : ℕ → Option ℕ) where
  walk_from-LeadsFrom :
      (levels virt table pte : ℕ) (alloc user : Bool) (p : Paging) (m : State)
      → LeadsFrom p levels virt table pte
      → walk_from frames race levels virt alloc user table (p, m) ≡ ok (some pte, p, m)
  walk_from-LeadsFrom zero virt table pte alloc user p m l = absurd l
  walk_from-LeadsFrom (suc top) virt table pte alloc user p m l =
      walk-Leads frames race top virt alloc user table pte p m l

  -- A reachable entry is found, with or without the permission to allocate, and nothing changes.
  pub virt_get_pte-Reaches :
      (virt pte : ℕ) (alloc : Bool) (p : Paging) (m : State)
      → Reaches p virt pte
      → virt_get_pte frames race virt alloc (p, m) ≡ ok (some pte, p, m)
  unfolding virt_get_pte
  virt_get_pte-Reaches virt pte alloc p m r =
      walk_from-LeadsFrom p.page_table_levels virt p.page_table pte alloc _ p m r

  module _ (stores : StoresTables race) (base : ℕ) (reserved : State → ℕ)
      (sound : IsSound frames base reserved) where
    -- What a walk that may allocate leaves.
    pub Got : (virt : ℕ) → Paging → State → Option ℕ × Paging × State → Type 0
    Got virt p m (none, p', m') = Grows p p' × (reserved m' ≡ reserved m)
    Got virt p m (some pte, p', m') = Grows p p' × (reserved m' ≡ reserved m) × Reaches p' virt pte

    walk_from-Got :
        (levels virt : ℕ) (user : Bool) (p : Paging) (m : State)
        → p.page_table_levels ≡ levels
        → 1 ≤ levels
        → p.direct_base ≡ base
        → Returns (Got virt p m) (walk_from frames race levels virt true user p.page_table (p, m))
    unfolding Got Walked
    walk_from-Got zero virt user p m e pos b = absurd (omega arith)
    walk_from-Got (suc top) virt user p m e pos b =
        go (walk frames race top virt true user p.page_table (p, m))
          (walk-Walked frames race stores base reserved sound top virt user p.page_table p m b)
      where
        go :
            (r : Run (Option ℕ × Paging × State))
            → Returns (Walked frames race stores base reserved sound top virt p.page_table p m) r
            → Returns (Got virt p m) r
        go halt w = w
        go (ok (none, q, n)) w = w
        go (ok (some pte, q, n)) w = (
          w.0,
          w.1,
          Reaches-of virt pte w.0 (subst (λ k. LeadsFrom q k virt p.page_table pte) (sym e) w.2),
        )

    Got-find :
        (virt : ℕ) (p : Paging) (m : State)
        → 1 ≤ p.page_table_levels
        → p.direct_base ≡ base
        → Returns (Got virt p m) (virt_get_pte frames race virt true (p, m))
    unfolding virt_get_pte
    Got-find virt p m pos b = walk_from-Got p.page_table_levels virt _ p m refl pos b

    -- With a success every page is reachable, and no reserved page is lost or won.
    Tabled : (rounds from i : ℕ) → Paging → State → Err × Paging × State → Type 0
    Tabled rounds from i p m (success, p', m') =
        Grows p p' × (reserved m' ≡ reserved m) × AllReach p' rounds from i
    Tabled rounds from i p m (err, p', m') = Grows p p' × (reserved m' ≡ reserved m)

    Tabled-after :
        (rounds from i pte : ℕ) {p q : Paging} (m n : State) (r : Run (Err × Paging × State))
        → Grows p q
        → reserved n ≡ reserved m
        → Reaches q (page_at from i) pte
        → Returns (Tabled rounds from (suc i) q n) r
        → Returns (Tabled (suc rounds) from i p m) r
    unfolding Tabled
    Tabled-after rounds from i pte m n (ok (success, p', m')) g e l (h, c, all) =
        (Grows-trans g h, c ∙ e, ((pte, Reaches-Grows (page_at from i) pte h l), all))
    Tabled-after rounds from i pte m n (ok (internal_error, p', m')) g e l (h, c) =
        (Grows-trans g h, c ∙ e)
    Tabled-after rounds from i pte m n (ok (invalid_argument, p', m')) g e l (h, c) =
        (Grows-trans g h, c ∙ e)
    Tabled-after rounds from i pte m n (ok (out_of_resources, p', m')) g e l (h, c) =
        (Grows-trans g h, c ∙ e)
    Tabled-after rounds from i pte m n halt g e l w = w

    reserve_tables-step :
        (rounds from i : ℕ) (p : Paging) (m : State) (r : Run (Option ℕ × Paging × State))
        → 1 ≤ p.page_table_levels
        → p.direct_base ≡ base
        → ((q : Paging) (n : State)
            → 1 ≤ q.page_table_levels
            → q.direct_base ≡ base
            → Returns
                (Tabled rounds from (suc i) q n)
                (reserve_tables frames race rounds from (suc i) (q, n)))
        → Returns (Got (page_at from i) p m) r
        → Returns (Tabled (suc rounds) from i p m) (
            r >>= λ found. elim found.0 [
              | none ↦ ok (out_of_resources, found.1, found.2)
              | some pte ↦ reserve_tables frames race rounds from (suc i) (found.1, found.2)
            ])
    unfolding Tabled Got
    reserve_tables-step rounds from i p m halt pos b later w = w
    reserve_tables-step rounds from i p m (ok (none, q, n)) pos b later w = w
    reserve_tables-step rounds from i p m (ok (some pte, q, n)) pos b later (g, c, l) =
        Tabled-after rounds from i pte m n _ g c l
          (later q n (subst (λ k. 1 ≤ k) (sym g.levels) pos) (g.base ∙ b))

    reserve_tables-Tabled :
        (rounds from i : ℕ) (p : Paging) (m : State)
        → 1 ≤ p.page_table_levels
        → p.direct_base ≡ base
        → Returns (Tabled rounds from i p m) (reserve_tables frames race rounds from i (p, m))
    unfolding reserve_tables Tabled
    reserve_tables-Tabled zero from i p m pos b = (Grows-refl p, refl, tt)
    reserve_tables-Tabled (suc rounds) from i p m pos b =
        reserve_tables-step rounds from i p m _ pos b (reserve_tables-Tabled rounds from (suc i))
          (Got-find (page_at from i) p m pos b)

    -- What a reservation leaves: `page_count` pages more and all the tables, or an error that gives
    -- back what was reserved. An entry that was present has not changed.
    unfoldable pub Reserved : (from page_count : ℕ) → Paging → State → Err × Paging × State → Type 0
    Reserved from page_count p m (success, p', m') =
        Grows p p' × (reserved m' ≡ reserved m + page_count) × AllReach p' page_count from 0
    Reserved from page_count p m (err, p', m') = Grows p p' × (reserved m' ≡ reserved m)

    Reserved-kept :
        (from page_count : ℕ) (p : Paging) (m m' : State) (r : Run (Err × Paging × State))
        → reserved m' ≡ reserved m + page_count
        → Returns (Tabled page_count from 0 p m') r
        → Returns
            (Reserved from page_count p m)
            (r >>= λ result. ok (keep_reserved frames race page_count result))
    unfolding Tabled Reserved
    Reserved-kept from page_count p m m' halt e w = w
    Reserved-kept from page_count p m m' (ok (success, q, n)) e (g, c, all) = (g, c ∙ e, all)
    Reserved-kept from page_count p m m' (ok (internal_error, q, n)) e (g, c) =
        (g, omega (arith, sound.unreserve page_count n (omega arith)))
    Reserved-kept from page_count p m m' (ok (invalid_argument, q, n)) e (g, c) =
        (g, omega (arith, sound.unreserve page_count n (omega arith)))
    Reserved-kept from page_count p m m' (ok (out_of_resources, q, n)) e (g, c) =
        (g, omega (arith, sound.unreserve page_count n (omega arith)))

    reserve_from-Reserved :
        (from page_count : ℕ) (p : Paging) (m m' : State) (err : Err)
        → 1 ≤ p.page_table_levels
        → p.direct_base ≡ base
        → frames.mem_acct_reserve page_count m ≡ (err, m')
        → Returns
            (Reserved from page_count p m)
            (reserve_from frames race from page_count p (err, m'))
    unfolding Reserved
    reserve_from-Reserved from page_count p m m' success pos b e =
        Reserved-kept from page_count p m m' _ (sound.reserve page_count m m' e)
          (reserve_tables-Tabled page_count from 0 p m' pos b)
    reserve_from-Reserved from page_count p m m' internal_error pos b e =
        (Grows-refl p, sound.refuse page_count m m' internal_error e tt)
    reserve_from-Reserved from page_count p m m' invalid_argument pos b e =
        (Grows-refl p, sound.refuse page_count m m' invalid_argument e tt)
    reserve_from-Reserved from page_count p m m' out_of_resources pos b e =
        (Grows-refl p, sound.refuse page_count m m' out_of_resources e tt)

    -- Where what another core stores in an entry is present, the allocator is sound and there is a level,
    -- `virt_reserve_page_tables` returns. With a success `page_count` more pages are reserved and the
    -- tables lead to the entry of every page. With an error the reserved pages are what they were.
    -- Either way an entry that was present keeps its value.
    pub virt_reserve_page_tables-Reserved :
        (from page_count : ℕ) (p : Paging) (m : State)
        → 1 ≤ p.page_table_levels
        → p.direct_base ≡ base
        → Returns
            (Reserved from page_count p m)
            (virt_reserve_page_tables frames race from page_count (p, m))
    unfolding virt_reserve_page_tables
    virt_reserve_page_tables-Reserved from page_count p m pos b =
        reserve_from-Reserved from page_count p m _ _ pos b refl
