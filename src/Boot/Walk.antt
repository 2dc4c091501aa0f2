-- ===== src/Boot/Walk.antt =====
-- src/boot/virt.c: `early_virt_get_next_level` and `early_virt_get_pte`, and the tables that they leave.
use tomato.Base.{
  ℕ, zero, suc, ◌+◌, ◌*◌, ◌≤◌, ◌<◌, ◌≡◌, refl, sym, ap, ap₂, subst, ◌∙◌, true, false, Option, some,
  arith, inl, inr, update_self, Run, ok, halt, Returns, ◌>>=◌, List, [], ◌∷◌, Bool-cases,
}
use tomato.Mem.Virt.{Paging, is_present, frame_of, address_of, entry_at, index_at}
use tomato.Mem.Virt.Walk.{Leads}
use tomato.Boot.Early.{MemmapEntry, usable, reclaimable, reserved, EarlyAlloc}
use tomato.Boot.Next.{IsMap, InUsable, usable_bytes}
use tomato.Boot.Handed.{IsEarly, Handed, early_phys_alloc_page-Handed}
use tomato.Boot.Tables.{clear_page, early_page, set_table, early_virt_get_next_level, early_walk}
use tomato.Boot.Levels.{Tables, GrowsBelow, GrowsBelow-refl, GrowsBelow-trans}
use tomato.Boot.NewTable.{
  with_table, levels_with, levels_with-old, Tables-with_table, GrowsBelow-cleared,
}

-- The usable entries have physical addresses of 52 bits.
abbrev pub IsPhysical : List MemmapEntry → Type 0
IsPhysical [] = Unit
IsPhysical (usable base length ∷ rest) = (base + length ≤ 4503599627370496) × IsPhysical rest
IsPhysical (reclaimable _ _ ∷ rest) = IsPhysical rest
IsPhysical (reserved _ _ ∷ rest) = IsPhysical rest

InUsable-physical :
    (map : List MemmapEntry) (start end : ℕ)
    → IsPhysical map
    → InUsable start end map
    → end ≤ 4503599627370496
InUsable-physical [] start end h u = absurd u
InUsable-physical (usable base length ∷ rest) start end (b, h) (inl (low, high)) = omega arith
InUsable-physical (usable base length ∷ rest) start end (b, h) (inr u) =
    InUsable-physical rest start end h u
InUsable-physical (reclaimable _ _ ∷ rest) start end h u = InUsable-physical rest start end h u
InUsable-physical (reserved _ _ ∷ rest) start end h u = InUsable-physical rest start end h u

module _ (memmap : List MemmapEntry) (is_map : IsMap 0 memmap) (physical : IsPhysical memmap)
    (top : ℕ) where
  -- The end of the memory that was handed out.
  abbrev pub limit : EarlyAlloc × Paging → ℕ
  limit w = w.1.direct_base + w.0.top

  -- The allocator and the tables, with the level of each table.
  pub record IsBooting (lv : ℕ → Option ℕ) (w : EarlyAlloc × Paging) : Type 0 where
    pub tables : Tables lv (limit w) top w.1
    pub early : IsEarly memmap w.0

  -- A number of pages later at most.
  pub record After (lv : ℕ → Option ℕ) (pages : ℕ) (w w' : EarlyAlloc × Paging) : Type 0 where
    pub now : ℕ → Option ℕ
    pub ready : IsBooting now w'
    pub grows : GrowsBelow (limit w) w.1 w'.1
    pub above : limit w ≤ limit w'
    pub kept : (t k : ℕ) → lv t ≡ some k → now t ≡ some k
    pub spent : w'.0.page_count ≤ w.0.page_count + pages

  abbrev pub after_none :
      (lv : ℕ → Option ℕ) (pages : ℕ) (w : EarlyAlloc × Paging)
      → IsBooting lv w
      → After lv pages w w
  after_none lv pages w b = record {
    now = lv;
    ready = b;
    grows = GrowsBelow-refl (limit w) w.1;
    above = omega arith;
    kept = λ t k e. e;
    spent = omega arith;
  }

  abbrev pub after_both :
      (lv : ℕ → Option ℕ) (m n k : ℕ) (w v u : EarlyAlloc × Paging) (a : After lv m w v)
      → After a.now n v u
      → m + n ≤ k
      → After lv k w u
  after_both lv m n k w v u a b h = record {
    now = b.now;
    ready = b.ready;
    grows = GrowsBelow-trans a.above a.grows b.grows;
    above = omega (arith, a.above, b.above);
    kept = λ t l e. b.kept t l (a.kept t l e);
    spent = omega (arith, a.spent, b.spent);
  }

  -- The entry of a level is present and leads to a table of the next one.
  record Stepped (lv : ℕ → Option ℕ) (entry k : ℕ) (w : EarlyAlloc × Paging)
      (r : ℕ × (EarlyAlloc × Paging)) : Type 0 where
    after : After lv 1 w r.1
    present : is_present (r.1.1.word entry) ≡ true
    next : r.0 ≡ frame_of r.1.1 (r.1.1.word entry)
    level : after.now r.0 ≡ some k

  new-Stepped :
      (lv : ℕ → Option ℕ) (parent i k : ℕ) (e : EarlyAlloc) (p : Paging) (r : Run (ℕ × EarlyAlloc))
      → IsBooting lv (e, p)
      → lv parent ≡ some (suc k)
      → i < 512
      → is_present (p.word (parent + 8 * i)) ≡ false
      → Returns (λ t. Handed memmap e t.0 t.1) r
      → Returns (Stepped lv (parent + 8 * i) k (e, p)) (
          r >>= (λ got. ok (got.0, (got.1, clear_page (p.direct_base + got.0) p))) >>= λ got.
          ok (set_table memmap (parent + 8 * i) got))
  new-Stepped lv parent i k e p halt b at low free h = h
  new-Stepped lv parent i k e p (ok (page, e')) b at low free h =
      let entry = parent + 8 * i in
      let page_aligned = h.page_aligned in
      let above = h.above in
      let end = h.top in
      let count = h.count in
      let bounded = InUsable-physical memmap page (page + 4096) physical h.inside in
      let higher : limit (e, p) ≤ p.direct_base + page = omega arith in
      let lv' = levels_with lv (limit (e, p)) top p b.tables page k higher in
      let made =
        Tables-with_table lv (limit (e, p)) top p b.tables page k higher parent i at low
          page_aligned bounded in
      let reach : p.direct_base + page + 4096 ≡ p.direct_base + e'.top = omega arith in
      let tables = subst (λ l. Tables lv' l top (with_table entry page p)) reach made in
      let old = levels_with-old lv (limit (e, p)) top p b.tables page k higher in
      let value = update_self (clear_page (p.direct_base + page) p).word entry (page + 3) in
      let fresh : is_present (page + 3) ≡ true = ground arith in
      let present = ap is_present value ∙ fresh in
      record {
        after = record {
          now = lv';
          ready = record { tables = tables; early = h.early };
          grows = GrowsBelow-cleared (limit (e, p)) entry page (page + 3) p free higher;
          above = omega arith;
          kept = old;
          spent = omega arith;
        };
        present = present;
        next = refl;
        level = made.next parent i k (old parent (suc k) at) low present;
      }

  early_virt_get_next_level-Stepped :
      (lv : ℕ → Option ℕ) (parent i k : ℕ) (e : EarlyAlloc) (p : Paging)
      → IsBooting lv (e, p)
      → lv parent ≡ some (suc k)
      → i < 512
      → e.page_count * 4096 < usable_bytes memmap
      → Returns
          (Stepped lv (parent + 8 * i) k (e, p))
          (early_virt_get_next_level memmap (parent + 8 * i) (e, p))
  unfolding early_virt_get_next_level early_page
  early_virt_get_next_level-Stepped lv parent i k e p b at low room =
      elim (Bool-cases (is_present (p.word (parent + 8 * i)))) [
        | inl here ↦
            rw (early_virt_get_next_level, here)
              (record {
                after = after_none lv 1 (e, p) b;
                present = here;
                next = refl;
                level = b.tables.next parent i k at low here;
              })
        | inr free ↦
            rw (early_virt_get_next_level, free, early_page)
              (new-Stepped lv parent i k e p _ b at low free
                (early_phys_alloc_page-Handed memmap e is_map b.early room))
      ]

  -- The tables lead to the entry, which is one of a table of pages.
  pub record Walked (lv : ℕ → Option ℕ) (level virt table : ℕ) (w : EarlyAlloc × Paging)
      (r : ℕ × (EarlyAlloc × Paging)) : Type 0 where
    pub after : After lv level w r.1
    pub leads : Leads r.1.1 level virt table r.0
    pub leaf : ℕ
    pub leaf_level : after.now leaf ≡ some 0
    pub leaf_at : r.0 ≡ leaf + 8 * index_at 0 virt

  Walked-after :
      (lv : ℕ → Option ℕ) (level virt table next pte : ℕ) (w v u : EarlyAlloc × Paging)
      → table + 4096 ≤ limit w
      → (st : Stepped lv (entry_at (suc level) virt table) level w (next, v))
      → Walked st.after.now level virt next v (pte, u)
      → Walked lv (suc level) virt table w (pte, u)
  unfolding Leads
  Walked-after lv level virt table next pte w v u below st k =
      let entry = entry_at (suc level) virt table in
      let above = st.after.above in
      let g = k.after.grows in
      let present = st.present in
      let same = g.words entry (omega arith) present in
      let to : next ≡ frame_of u.1 (u.1.word entry) =
        st.next ∙ sym (ap₂ (λ d x. d + address_of x) g.base same) in
      record {
        after = after_both lv 1 level (suc level) w v u st.after k.after (omega arith);
        leads = (ap is_present same ∙ present, subst (λ t. Leads u.1 level virt t pte) to k.leads);
        leaf = k.leaf;
        leaf_level = k.leaf_level;
        leaf_at = k.leaf_at;
      }

  walk-rest :
      (lv : ℕ → Option ℕ) (level virt table next : ℕ) (w v : EarlyAlloc × Paging)
      (r : Run (ℕ × (EarlyAlloc × Paging)))
      → table + 4096 ≤ limit w
      → (st : Stepped lv (entry_at (suc level) virt table) level w (next, v))
      → Returns (Walked st.after.now level virt next v) r
      → Returns (Walked lv (suc level) virt table w) r
  walk-rest lv level virt table next w v halt below st k = k
  walk-rest lv level virt table next w v (ok (pte, u)) below st k =
      Walked-after lv level virt table next pte w v u below st k

  walk-step :
      (lv : ℕ → Option ℕ) (level virt table : ℕ) (w : EarlyAlloc × Paging)
      (r : Run (ℕ × (EarlyAlloc × Paging)))
      → table + 4096 ≤ limit w
      → (w.0.page_count + suc level) * 4096 ≤ usable_bytes memmap
      → ((lv' : ℕ → Option ℕ) (next : ℕ) (v : EarlyAlloc × Paging)
          → IsBooting lv' v
          → lv' next ≡ some level
          → (v.0.page_count + level) * 4096 ≤ usable_bytes memmap
          → Returns (Walked lv' level virt next v) (early_walk memmap level virt next v))
      → Returns (Stepped lv (entry_at (suc level) virt table) level w) r
      → Returns
          (Walked lv (suc level) virt table w)
          (r >>= λ next. early_walk memmap level virt next.0 next.1)
  walk-step lv level virt table w halt below room later st = st
  walk-step lv level virt table w (ok (next, v)) below room later st =
      let spent = st.after.spent in
      walk-rest lv level virt table next w v _ below st
        (later st.after.now next v st.after.ready st.level (omega arith))

  pub early_walk-Walked :
      (level virt : ℕ) (lv : ℕ → Option ℕ) (table : ℕ) (w : EarlyAlloc × Paging)
      → IsBooting lv w
      → lv table ≡ some level
      → (w.0.page_count + level) * 4096 ≤ usable_bytes memmap
      → Returns (Walked lv level virt table w) (early_walk memmap level virt table w)
  unfolding early_walk Leads
  early_walk-Walked zero virt lv table w b at room = record {
    after = after_none lv 0 w b;
    leads = refl;
    leaf = table;
    leaf_level = at;
    leaf_at = refl;
  }
  early_walk-Walked (suc level) virt lv table w b at room =
      walk-step lv level virt table w _ (b.tables.below table (suc level) at) room
        (λ lv' next v. early_walk-Walked level virt lv' next v)
        (early_virt_get_next_level-Stepped lv table (index_at (suc level) virt) level w.0 w.1 b at
          (omega arith) (omega arith))
