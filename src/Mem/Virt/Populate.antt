-- ===== src/Mem/Virt/Populate.antt =====
-- src/mem/virt.c: `virt_populate` after a reservation.
use tomato.Base.{
  ℕ, zero, suc, ◌+◌, ◌-◌, ◌%◌, ◌≤◌, ◌≡◌, sym, ap, subst, ◌∙◌, Bool, true, false, Option, some, Run,
  ok, halt, Returns, ◌>>=◌, arith, Bool-cases, inl, inr, update_self,
}
use tomato.Mem.Virt.{
  Frames, Paging, is_present, with_pte, each_page, page_at, page_flags, fill_page, populate_page,
  virt_populate,
}
use tomato.Mem.Virt.Walk.{Grows, Grows-refl, Grows-trans, Grows-store}
use tomato.Mem.Virt.Reserve.{Reaches, Reaches-Grows, AllReach, AllReach-Grows, virt_get_pte-Reaches}

-- The tables lead to an entry of the address, and the entry is present.
abbrev pub IsMapped : Paging → (virt : ℕ) → Type 0
IsMapped p virt = (pte : ℕ) × Reaches p virt pte × (is_present (p.word pte) ≡ true)

IsMapped-Grows : {p p' : Paging} (virt : ℕ) → Grows p p' → IsMapped p virt → IsMapped p' virt
IsMapped-Grows virt g (pte, r, h) =
    (pte, Reaches-Grows virt pte g r, ap is_present (g.words pte h) ∙ h)

abbrev pub AllMapped : Paging → (rounds base i : ℕ) → Type 0
AllMapped p zero base i = Unit
AllMapped p (suc rounds) base i = IsMapped p (page_at base i) × AllMapped p rounds base (suc i)

-- What a 4096-byte page's entry is when it is filled.
fresh-present :
    (frame : ℕ) (global user : Bool)
    → frame % 4096 ≡ 0
    → is_present (frame + page_flags global user) ≡ true
fresh-present frame true true h = ground arith
fresh-present frame true false h = ground arith
fresh-present frame false true h = ground arith
fresh-present frame false false h = ground arith

module _ {State : Type 0} (frames : Frames State) (race : ℕ → Option ℕ) (base : ℕ)
    (reserved : State → ℕ) where
  -- The allocator hands out that many reserved pages from the state on: each is aligned in the direct map,
  -- and is one page less that it has.
  unfoldable pub Supplies : (rounds : ℕ) → State → Type 0
  Supplies zero m = Unit
  Supplies (suc rounds) m =
      (page : ℕ) × (m' : State) × (frames.phys_alloc_reserved_page m ≡ (some page, m'))
      × ((page - base) % 4096 ≡ 0)
      × (reserved m' + 1 ≡ reserved m)
      × Supplies rounds m'

  Supplies-fewer : (rounds : ℕ) (m : State) → Supplies (suc rounds) m → Supplies rounds m
  unfolding Supplies
  Supplies-fewer zero m h = tt
  Supplies-fewer (suc rounds) m (page, m', e, a, c, later) =
      (page, m', e, a, c, Supplies-fewer rounds m' later)

  -- A page is populated, for one reserved page at most.
  Filled : (rounds pte : ℕ) → Paging → State → Paging × State → Type 0
  Filled rounds pte p m (p', m') =
      Grows p p'
      × (reserved m ≤ reserved m' + 1)
      × (is_present (p'.word pte) ≡ true)
      × Supplies rounds m'

  fill_page-Filled :
      (rounds : ℕ) (global user : Bool) (pte page : ℕ) (p : Paging) (m m' : State)
      → Supplies rounds m'
      → is_present (p.word pte) ≡ false
      → (page - p.direct_base) % 4096 ≡ 0
      → reserved m' + 1 ≡ reserved m
      → Returns (Filled rounds pte p m) (fill_page frames race global user pte p (some page, m'))
  unfolding Filled
  fill_page-Filled rounds global user pte page p m m' more free aligned e = (
    Grows-store pte _ p free,
    omega arith,
    ap is_present (update_self p.word pte _)
        ∙ fresh-present (page - p.direct_base) global user aligned,
    more,
  )

  populate_page-Filled :
      (rounds : ℕ) (global user : Bool) (pte : ℕ) (p : Paging) (m : State)
      → p.direct_base ≡ base
      → Supplies (suc rounds) m
      → Returns (Filled rounds pte p m) (populate_page frames race global user pte (p, m))
  unfolding populate_page Filled Supplies
  populate_page-Filled rounds global user pte p m b r =
      elim (Bool-cases (is_present (p.word pte))) [
        | inl here ↦
            rw (populate_page, here) (Grows-refl p, omega arith, here, Supplies-fewer rounds m r)
        | inr free ↦
            let (page, m', e, aligned, count, more) = r in
            rw (populate_page, free, e)
              (fill_page-Filled rounds global user pte page p m m' more free
                (subst (λ d. (page - d) % 4096 ≡ 0) (sym b) aligned) count)
      ]

  -- Every page is mapped, for `rounds` reserved pages at most.
  unfoldable pub Populated : (rounds from i : ℕ) → Paging → State → Paging × State → Type 0
  Populated rounds from i p m (p', m') =
      Grows p p' × (reserved m ≤ reserved m' + rounds) × AllMapped p' rounds from i

  Populated-after :
      (rounds from i pte : ℕ) (p q : Paging) (m n : State) (r : Run (Paging × State))
      → Reaches p (page_at from i) pte
      → Filled rounds pte p m (q, n)
      → Returns (Populated rounds from (suc i) q n) r
      → Returns (Populated (suc rounds) from i p m) r
  unfolding Populated Filled
  Populated-after rounds from i pte p q m n halt l f w = w
  Populated-after rounds from i pte p q m n (ok (q', n')) l (g, c, here, more) (h, d, all) = (
    Grows-trans g h,
    omega arith,
    (IsMapped-Grows (page_at from i) h (pte, Reaches-Grows (page_at from i) pte g l, here), all),
  )

  populate-step :
      (rounds from i pte : ℕ) (global user : Bool) (p : Paging) (m : State)
      (r : Run (Paging × State))
      → p.direct_base ≡ base
      → Reaches p (page_at from i) pte
      → AllReach p rounds from (suc i)
      → ((q : Paging) (n : State)
          → q.direct_base ≡ base
          → Supplies rounds n
          → AllReach q rounds from (suc i)
          → Returns (Populated rounds from (suc i) q n) (
              each_page frames race rounds from
                (suc i)
                (populate_page frames race global user)
                (q, n)))
      → Returns (Filled rounds pte p m) r
      → Returns (Populated (suc rounds) from i p m) (
          r >>= λ next.
          each_page frames race rounds from (suc i) (populate_page frames race global user) next)
  unfolding Filled
  populate-step rounds from i pte global user p m halt b l all later f = f
  populate-step rounds from i pte global user p m (ok (q, n)) b l all later f =
      Populated-after rounds from i pte p q m n _ l f
        (later q n (f.0.base ∙ b) f.3 (AllReach-Grows rounds from (suc i) f.0 all))

  each_page-Populated :
      (rounds from i : ℕ) (global user : Bool) (p : Paging) (m : State)
      → p.direct_base ≡ base
      → Supplies rounds m
      → AllReach p rounds from i
      → Returns
          (Populated rounds from i p m)
          (each_page frames race rounds from i (populate_page frames race global user) (p, m))
  unfolding each_page with_pte Populated
  each_page-Populated zero from i global user p m b c all = (Grows-refl p, omega arith, tt)
  each_page-Populated (suc rounds) from i global user p m b c ((pte, l), all) =
      rw (each_page, with_pte, virt_get_pte-Reaches frames race (page_at from i) pte false p m l)
        (populate-step rounds from i pte global user p m _ b l all
          (each_page-Populated rounds from (suc i) global user)
          (populate_page-Filled rounds global user pte p m b c))

  -- With an allocator that hands out `page_count` reserved pages, `virt_populate` of a range whose
  -- tables are there returns: no page runs out and no entry is missing. Then every page of the range
  -- is mapped, an entry that was present keeps its value, and at most `page_count` reserved pages are
  -- used up.
  pub virt_populate-Populated :
      (from page_count : ℕ) (global : Bool) (p : Paging) (m : State)
      → p.direct_base ≡ base
      → Supplies page_count m
      → AllReach p page_count from 0
      → Returns
          (Populated page_count from 0 p m)
          (virt_populate frames race from page_count global (p, m))
  unfolding virt_populate
  virt_populate-Populated from page_count global p m b c all =
      each_page-Populated page_count from 0 global _ p m b c all
