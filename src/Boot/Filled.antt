-- ===== src/Boot/Filled.antt =====
-- src/boot/virt.c: the pages of the bitmap that `early_create_buddy_bitmap` maps, and the walk that the
-- kernel makes of the tables later on.
use tomato.Base.{
  ℕ, suc, ◌+◌, ◌*◌, ◌^◌, ◌≤◌, ◌<◌, ◌≡◌, refl, sym, ap, subst, ◌∙◌, Bool, true, false, Option, some,
  arith, inl, inr, update_self, Run, ok, halt, Returns, ◌>>=◌, List, Bool-cases,
}
use tomato.Mem.Virt.{Paging, Frames, store, is_present, index_at, virt_get_pte}
use tomato.Mem.Virt.Walk.{Leads}
use tomato.Mem.Virt.Reserve.{Reaches, LeadsFrom, virt_get_pte-Reaches}
use tomato.Boot.Early.{MemmapEntry, EarlyAlloc}
use tomato.Boot.Next.{IsMap, usable_bytes}
use tomato.Boot.Handed.{Handed, early_phys_alloc_page-Handed}
use tomato.Boot.Tables.{
  clear_page, early_page, early_virt_get_pte, early_walk_from, bitmap_page, set_bitmap,
}
use tomato.Boot.Levels.{Tables-leaf, Leads-GrowsBelow}
use tomato.Boot.NewTable.{Tables-cleared, GrowsBelow-cleared}
use tomato.Boot.Walk.{
  IsPhysical, limit, IsBooting, After, after_none, after_both, Walked, early_walk-Walked,
}

module _ (memmap : List MemmapEntry) (is_map : IsMap 0 memmap) (physical : IsPhysical memmap)
    (top : ℕ) where
  walk_from-Walked :
      (levels virt : ℕ) (lv : ℕ → Option ℕ) (w : EarlyAlloc × Paging)
      → IsBooting memmap is_map physical top lv w
      → (w.0.page_count + top) * 4096 ≤ usable_bytes memmap
      → levels ≡ suc top
      → Returns
          (Walked memmap is_map physical top lv top virt w.1.page_table w)
          (early_walk_from memmap levels virt w.1.page_table w)
  walk_from-Walked levels virt lv w b room e = rw e (
      early_walk-Walked memmap is_map physical top top virt lv w.1.page_table w b b.tables.root
        room)

  Reaches-Walked :
      (lv : ℕ → Option ℕ) (virt pte : ℕ) (w v : EarlyAlloc × Paging)
      → (k : Walked memmap is_map physical top lv top virt w.1.page_table w (pte, v))
      → Reaches v.1 virt pte
  Reaches-Walked lv virt pte w v k =
      subst (λ n. LeadsFrom v.1 n virt v.1.page_table pte) (sym k.after.ready.tables.levels)
        (subst (λ t. Leads v.1 top virt t pte) (sym k.after.grows.root) k.leads)

  pub early_virt_get_pte-Walked :
      (lv : ℕ → Option ℕ) (virt : ℕ) (w : EarlyAlloc × Paging)
      → IsBooting memmap is_map physical top lv w
      → (w.0.page_count + top) * 4096 ≤ usable_bytes memmap
      → Returns
          (Walked memmap is_map physical top lv top virt w.1.page_table w)
          (early_virt_get_pte memmap virt w)
  unfolding early_virt_get_pte
  early_virt_get_pte-Walked lv virt w b room =
      walk_from-Walked w.1.page_table_levels virt lv w b room b.tables.levels

  same_walk :
      {State : Type 0} (frames : Frames State) (race : ℕ → Option ℕ) (alloc : Bool) (m : State)
      (lv : ℕ → Option ℕ) (virt : ℕ) (w : EarlyAlloc × Paging) (r : Run (ℕ × (EarlyAlloc × Paging)))
      → Returns (Walked memmap is_map physical top lv top virt w.1.page_table w) r
      → Returns (λ t. virt_get_pte frames race virt alloc (t.1.1, m) ≡ ok (some t.0, t.1.1, m)) r
  same_walk frames race alloc m lv virt w halt k = k
  same_walk frames race alloc m lv virt w (ok (pte, v)) k =
      virt_get_pte-Reaches frames race virt pte alloc v.1 m (Reaches-Walked lv virt pte w v k)

  -- On a sorted map of whole usable pages below 2 ^ 52, with tables in the state that the boot keeps them
  -- in and a page left for each level, `early_virt_get_pte` returns an entry, and it is the one that
  -- `virt_get_pte` then finds, without a change, whatever its allocator and the other cores do.
  pub early_virt_get_pte-virt_get_pte :
      {State : Type 0} (frames : Frames State) (race : ℕ → Option ℕ) (alloc : Bool) (m : State)
      (lv : ℕ → Option ℕ) (virt : ℕ) (w : EarlyAlloc × Paging)
      → IsBooting memmap is_map physical top lv w
      → (w.0.page_count + top) * 4096 ≤ usable_bytes memmap
      → Returns
          (λ t. virt_get_pte frames race virt alloc (t.1.1, m) ≡ ok (some t.0, t.1.1, m))
          (early_virt_get_pte memmap virt w)
  early_virt_get_pte-virt_get_pte frames race alloc m lv virt w b room =
      same_walk frames race alloc m lv virt w _ (early_virt_get_pte-Walked lv virt w b room)

  -- The entry of a page, present and in a table of pages.
  pub record IsFilled (lv : ℕ → Option ℕ) (p : Paging) (virt : ℕ) : Type 0 where
    pub pte : ℕ
    pub leads : Leads p top virt p.page_table pte
    pub present : is_present (p.word pte) ≡ true
    pub leaf : ℕ
    pub leaf_level : lv leaf ≡ some 0
    pub leaf_at : pte ≡ leaf + 8 * index_at 0 virt

  -- The entry stays.
  pub IsFilled-After :
      (lv : ℕ → Option ℕ) (n virt : ℕ) (w v : EarlyAlloc × Paging)
      → IsBooting memmap is_map physical top lv w
      → (a : After memmap is_map physical top lv n w v) → IsFilled lv w.1 virt
      → IsFilled a.now v.1 virt
  IsFilled-After lv n virt w v b a f =
      let low = b.tables.below f.leaf 0 f.leaf_level in
      let at = f.leaf_at in
      let same = a.grows.words f.pte (omega arith) f.present in
      let ts = b.tables in
      let leads =
        Leads-GrowsBelow lv (limit memmap is_map physical top w) top w.1 v.1 top virt w.1.page_table
          f.pte ts a.grows ts.root f.leads in
      record {
        pte = f.pte;
        leads = subst (λ t. Leads v.1 top virt t f.pte) (sym a.grows.root) leads;
        present = ap is_present same ∙ f.present;
        leaf = f.leaf;
        leaf_level = a.kept f.leaf 0 f.leaf_level;
        leaf_at = f.leaf_at;
      }

  -- A page of the bitmap is mapped, for the tables on the way and the page at most.
  pub record Mapped (lv : ℕ → Option ℕ) (virt : ℕ) (w v : EarlyAlloc × Paging) : Type 0 where
    pub after : After memmap is_map physical top lv (suc top) w v
    pub filled : IsFilled after.now v.1 virt

  -- A new page is cleared and an entry of a table of pages is set.
  abbrev fill_after :
      (lv : ℕ → Option ℕ) (leaf i value page : ℕ) (e e' : EarlyAlloc) (p : Paging)
      → IsBooting memmap is_map physical top lv (e, p)
      → lv leaf ≡ some 0
      → i < 512
      → is_present (p.word (leaf + 8 * i)) ≡ false
      → Handed memmap e page e'
      → After memmap is_map physical top lv 1
          (e, p)
          (e', store (leaf + 8 * i) value (clear_page (p.direct_base + page) p))
  fill_after lv leaf i value page e e' p b at low free h =
      let above = h.above in
      let end = h.top in
      let count = h.count in
      let n = p.direct_base + page in
      let old = p.direct_base + e.top in
      let cleared =
        Tables-cleared lv old (p.direct_base + e'.top) top n p b.tables (omega arith)
          (omega arith) in
      record {
        now = lv;
        ready = record {
          tables =
              Tables-leaf lv (p.direct_base + e'.top) top (clear_page n p) leaf i value cleared at
                low;
          early = h.early;
        };
        grows = GrowsBelow-cleared old (leaf + 8 * i) page value p free (omega arith);
        above = omega arith;
        kept = λ t k e. e;
        spent = omega arith;
      }

  fill-Mapped :
      (lv : ℕ → Option ℕ) (virt pte page value : ℕ) (w : EarlyAlloc × Paging) (e e' : EarlyAlloc)
      (p : Paging)
      → (k : Walked memmap is_map physical top lv top virt w.1.page_table w (pte, (e, p)))
      → is_present (p.word pte) ≡ false
      → is_present value ≡ true
      → Handed memmap e page e'
      → Mapped lv virt w (e', store pte value (clear_page (p.direct_base + page) p))
  fill-Mapped lv virt pte page value w e e' p k free odd h =
      let i = index_at 0 virt in
      let at = k.leaf_at in
      let free' = subst (λ x. is_present (p.word x) ≡ false) at free in
      let b = k.after.ready in
      let a =
        fill_after k.after.now k.leaf i value page e e' p b k.leaf_level (omega arith) free' h in
      let q = store (k.leaf + 8 * i) value (clear_page (p.direct_base + page) p) in
      let there =
        subst (λ t. Leads p top virt t (k.leaf + 8 * i)) (sym k.after.grows.root)
          (subst (λ x. Leads p top virt w.1.page_table x) at k.leads) in
      let made : Mapped lv virt w (e', q) = record {
        after =
            after_both memmap is_map physical top lv top 1 (suc top) w (e, p) (e', q) k.after a
              (omega arith);
        filled = record {
          pte = k.leaf + 8 * i;
          leads =
              Leads-GrowsBelow k.after.now (p.direct_base + e.top) top p q top virt p.page_table
                (k.leaf + 8 * i) b.tables a.grows b.tables.root there;
          present =
              ap is_present
                (update_self (clear_page (p.direct_base + page) p).word (k.leaf + 8 * i) value)
              ∙ odd;
          leaf = k.leaf;
          leaf_level = k.leaf_level;
          leaf_at = refl;
        };
      } in
      subst (λ x. Mapped lv virt w (e', store x value (clear_page (p.direct_base + page) p)))
        (sym at) made

  new-Mapped :
      (lv : ℕ → Option ℕ) (virt pte : ℕ) (w : EarlyAlloc × Paging) (e : EarlyAlloc) (p : Paging)
      (r : Run (ℕ × EarlyAlloc))
      → (k : Walked memmap is_map physical top lv top virt w.1.page_table w (pte, (e, p)))
      → is_present (p.word pte) ≡ false
      → Returns (λ t. Handed memmap e t.0 t.1) r
      → Returns (Mapped lv virt w) (
          r >>= (λ got. ok (got.0, (got.1, clear_page (p.direct_base + got.0) p))) >>= λ got.
          ok (set_bitmap memmap pte got))
  new-Mapped lv virt pte w e p halt k free h = h
  new-Mapped lv virt pte w e p (ok (page, e')) k free h =
      let aligned = h.page_aligned in
      fill-Mapped lv virt pte page (page + (1 + 2 + 2 ^ 63) + 256 + (64 + 32)) w e e' p k free
        (ground arith) h

  pub bitmap_page-Mapped :
      (lv : ℕ → Option ℕ) (virt pte : ℕ) (w : EarlyAlloc × Paging) (e : EarlyAlloc) (p : Paging)
      → (k : Walked memmap is_map physical top lv top virt w.1.page_table w (pte, (e, p)))
      → e.page_count * 4096 < usable_bytes memmap
      → Returns (Mapped lv virt w) (bitmap_page memmap (pte, (e, p)))
  unfolding early_page
  bitmap_page-Mapped lv virt pte w e p k room = elim (Bool-cases (is_present (p.word pte))) [
    | inl here ↦ rw here (record {
      after =
          after_both memmap is_map physical top lv top 1 (suc top) w (e, p) (e, p) k.after
            (after_none memmap is_map physical top k.after.now 1 (e, p) k.after.ready)
            (omega arith);
      filled = record {
        pte = pte;
        leads = subst (λ t. Leads p top virt t pte) (sym k.after.grows.root) k.leads;
        present = here;
        leaf = k.leaf;
        leaf_level = k.leaf_level;
        leaf_at = k.leaf_at;
      };
    })
    | inr free ↦
        rw (free, early_page)
          (new-Mapped lv virt pte w e p _ k free
            (early_phys_alloc_page-Handed memmap e is_map k.after.ready.early room))
  ]
