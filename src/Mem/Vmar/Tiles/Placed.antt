-- ===== src/Mem/Vmar/Tiles/Placed.antt =====
-- src/mem/vmar.c: `vmar_allocate_static` at any offset, from the search for the place to the link.
use tomato.Base.{
  ℕ, ◌+◌, ◌*◌, ◌/◌, ◌%◌, ◌≤◌, ◌≡◌, ◌≢◌, sym, ap, subst, ◌∙◌, List, [], ◌∷◌, Option, none, some,
  true, false, arith, inl, inr, Run, ok, halt, Returns, ◌>>=◌, update, update_ne, update_self, Err,
  success, internal_error, u64_mod, ◌==◌,
}
use tomato.Mem.Vmar.{Vmar, Tree, Store, vmar_first_page, vmar_link_internal, is_region}
use tomato.Mem.Vmar.Place.{
  vmar_find_gap, vmar_find_any, vmar_find_place, link_if_placed, vmar_allocate_static, any_offset,
}
use tomato.Mem.Vmar.Tiles.{Tiles, IsTiled, FindsFirstFit, page_limit}
use tomato.Mem.Vmar.Tiles.Lowest
use tomato.Mem.Vmar.Tiles.Insert
use tomato.Mem.Vmar.Tiles.Siblings.{Out}
use tomato.Mem.Vmar.Tiles.Kept.{Parented}
use tomato.Mem.Vmar.Tiles.Link.{
  Inserts, HasLinked, Out-free, Returns-map, vmar_link_internal-HasLinked,
}

pub Tiles-update :
    (s : Store) (x : ℕ) (v : Vmar) (start : ℕ) (xs : List ℕ) (end : ℕ)
    → Out x xs
    → Tiles s start xs end
    → Tiles (update s x v) start xs end
unfolding Tiles
Tiles-update s x v start [] end o t = t
Tiles-update s x v start (y ∷ ys) end (n, o) (e, p, t) =
    rw (update_ne s x y v n)
      (e, p, Tiles-update s x v (vmar_first_page (s y) + (s y).page_count) ys end o t)

pub Parented-update :
    (s : Store) (x : ℕ) (v : Vmar) (parent : ℕ) (xs : List ℕ)
    → Out x xs
    → Parented s parent xs
    → Parented (update s x v) parent xs
Parented-update s x v parent [] o p = tt
Parented-update s x v parent (y ∷ ys) (n, o) (e, p) =
    (ap (λ w. w.parent) (update_ne s x y v n) ∙ e, Parented-update s x v parent ys o p)

-- A place that meets no child, of a vmar that is put there.
pub Clear-placed :
    (s : Store) (x : ℕ) (v : Vmar) (n page : ℕ) (xs : List ℕ)
    → Out x xs
    → vmar_first_page v ≡ page
    → v.page_count ≡ n
    → Lowest.Clear n s xs page
    → Insert.Clear (update s x v) x xs
Clear-placed s x v n page [] o e c h = tt
Clear-placed s x v n page (y ∷ ys) (m, o) e c (inl h, hs) =
    let first = ap vmar_first_page (update_self s x v) in
    let start = ap vmar_first_page (update_ne s x y v m) in
    let count = ap (λ w. w.page_count) (update_ne s x y v m) in
    (inr (omega arith), Clear-placed s x v n page ys o e c hs)
Clear-placed s x v n page (y ∷ ys) (m, o) e c (inr h, hs) =
    let first = ap vmar_first_page (update_self s x v) in
    let size = ap (λ w. w.page_count) (update_self s x v) in
    let start = ap vmar_first_page (update_ne s x y v m) in
    (inl (omega arith), Clear-placed s x v n page ys o e c hs)

pub IsTiled-update :
    (s : Store) (parent x : ℕ) (v : Vmar)
    → x ≢ parent
    → Out x (s parent).children
    → IsTiled s parent
    → IsTiled (update s x v) parent
IsTiled-update s parent x v apart o h =
    let same = update_ne s x parent v apart in
    record {
      tiles =
          subst
            (λ w. Tiles (update s x v) (w.base / 4096) w.children (w.base / 4096 + w.page_count))
            (sym same)
            (Tiles-update s x v (vmar_first_page (s parent)) (s parent).children _ o h.tiles);
      bounded = subst (λ w. w.base / 4096 + w.page_count ≤ page_limit) (sym same) h.bounded;
    }

pub Clear-update :
    (s : Store) (x : ℕ) (v : Vmar) (n page : ℕ) (xs : List ℕ)
    → Out x xs
    → Lowest.Clear n s xs page
    → Lowest.Clear n (update s x v) xs page
Clear-update s x v n page [] o c = tt
Clear-update s x v n page (y ∷ ys) (m, o) (c, cs) =
    rw (update_ne s x y v m) (c, Clear-update s x v n page ys o cs)

module _ (tree : Tree) (inserts : Inserts tree) (parent child : ℕ) (apart : child ≢ parent)
    (n : ℕ) where
  module _ (s : Store) (kind : is_region (s parent).kind ≡ true) (free : (s child).parent ≡ none)
      (tiled : IsTiled s parent) (parented : Parented s parent (s parent).children)
      (pages : 1 ≤ n) where
    abbrev sized_store : Store
    sized_store = update s child (record (s child) { page_count = n })

    abbrev based_store : ℕ → Store
    based_store base = update sized_store child (record (sized_store child) { base = base })

    out_child : Out child (s parent).children
    out_child = Out-free s parent child (s parent).children free parented

    sized_parent : sized_store parent ≡ s parent
    sized_parent = update_ne s child parent (record (s child) { page_count = n }) apart

    sized_IsTiled : IsTiled sized_store parent
    sized_IsTiled =
        IsTiled-update s parent child (record (s child) { page_count = n }) apart out_child tiled

    out_sized : Out child (sized_store parent).children
    out_sized = subst (λ v. Out child v.children) (sym sized_parent) out_child

    pub link-based :
        (base page : ℕ)
        → base / 4096 ≡ page
        → Lowest.IsFree n sized_store
            (vmar_first_page (s parent))
            (s parent).children
            (vmar_first_page (s parent) + (s parent).page_count)
            page
        → Returns
            (HasLinked parent child s)
            (vmar_link_internal tree parent child (based_store base))
    link-based base page first (low, high, clear) =
        let v : Vmar = record (sized_store child) { base = base } in
        let p : Store = based_store base in
        let same : p parent ≡ s parent =
          update_ne sized_store child parent v apart ∙ sized_parent in
        let mine : p child ≡ v = update_self sized_store child v in
        let size : v.page_count ≡ n =
          ap (λ w. w.page_count) (update_self s child (record (s child) { page_count = n })) in
        let first_p : vmar_first_page (p child) ≡ page = ap vmar_first_page mine ∙ first in
        let size_p : (p child).page_count ≡ n = ap (λ w. w.page_count) mine ∙ size in
        let start : vmar_first_page (p parent) ≡ vmar_first_page (s parent) =
          ap vmar_first_page same in
        let count : (p parent).page_count ≡ (s parent).page_count = ap (λ w. w.page_count) same in
        let alone : (p child).parent ≡ none =
          ap (λ w. w.parent) mine
          ∙ ap (λ w. w.parent) (update_self s child (record (s child) { page_count = n }))
          ∙ free in
        let named : Parented p parent (s parent).children =
          Parented-update sized_store child v parent (s parent).children out_child (
            Parented-update s child (record (s child) { page_count = n }) parent (s parent).children
              out_child parented) in
        let apart_p =
          Clear-placed sized_store child v n page (s parent).children out_child first size clear in
        Returns-map (HasLinked parent child p) (HasLinked parent child s) _
          (λ u h. record {
            tiled = h.tiled;
            before = h.before;
            after = h.after;
            split = sym (ap (λ w. w.children) same) ∙ h.split;
            children = h.children;
          })
          (vmar_link_internal-HasLinked tree inserts parent child apart p
            (ap (λ w. is_region w.kind) same ∙ kind) alone
            (IsTiled-update sized_store parent child v apart out_sized sized_IsTiled)
            (subst (λ w. Parented p parent w.children) (sym same) named) (omega arith) (omega arith)
            (omega arith) (subst (λ w. Insert.Clear p child w.children) (sym same) apart_p))

module _ (tree : Tree) (finds : FindsFirstFit tree) (inserts : Inserts tree) (parent child : ℕ)
    (apart : child ≢ parent) (n : ℕ) where
  -- A success links the vmar, and an error means that no pages of the region are free.
  unfoldable pub Allocated : Store → Err × Store → Type 0
  Allocated s (success, s') = HasLinked parent child s s'
  Allocated s (err, s') =
      (page : ℕ)
      → ¬ Lowest.IsFree n s (vmar_first_page (s parent)) (s parent).children
          (vmar_first_page (s parent) + (s parent).page_count) page

  module _ (s : Store) (kind : is_region (s parent).kind ≡ true) (free : (s child).parent ≡ none)
      (tiled : IsTiled s parent) (parented : Parented s parent (s parent).children)
      (pages : 1 ≤ n) where
    abbrev sized : Store
    sized = update s child (record (s child) { page_count = n })

    abbrev placed_store : ℕ → Store
    placed_store page = update sized child (record (sized child) { base = page * 4096 % u64_mod })

    child_out : Out child (s parent).children
    child_out = Out-free s parent child (s parent).children free parented

    sized_same : sized parent ≡ s parent
    sized_same = update_ne s child parent (record (s child) { page_count = n }) apart

    sized-IsTiled : IsTiled sized parent
    sized-IsTiled =
        IsTiled-update s parent child (record (s child) { page_count = n }) apart child_out tiled

    link-placed :
        (page : ℕ)
        → Lowest.IsFree n sized
            (vmar_first_page (s parent))
            (s parent).children
            (vmar_first_page (s parent) + (s parent).page_count)
            page
        → Returns
            (HasLinked parent child s)
            (vmar_link_internal tree parent child (placed_store page))
    link-placed page (low, high, clear) =
        let bounded = tiled.bounded in
        link-based tree inserts parent child apart n s kind free tiled parented pages
          (page * 4096 % u64_mod) page (omega arith) (low, high, clear)

    linked-Allocated :
        (r : Run Store)
        → Returns (HasLinked parent child s) r
        → Returns (Allocated s) (r >>= λ linked. ok (success, linked))
    unfolding Allocated
    linked-Allocated (ok s') h = h
    linked-Allocated halt h = h

    found-Allocated :
        (o : Option ℕ)
        → Lowest.Lowest n sized
            (vmar_first_page (s parent))
            (s parent).children
            (vmar_first_page (s parent) + (s parent).page_count)
            o
        → Returns (Allocated s) (
            link_if_placed tree parent child (elim o as (λ _. Err × Store) [
              | none ↦ (internal_error, sized)
              | some page ↦ (success, placed_store page)
            ]))
    unfolding Allocated
    found-Allocated none l = λ page f. l page (
      f.0,
      f.1,
      Clear-update s child (record (s child) { page_count = n }) n page (s parent).children
          child_out f.2,
    )
    found-Allocated (some page) (is_free, _) = linked-Allocated _ (link-placed page is_free)

    lowest :
        Lowest.Lowest n sized
          (vmar_first_page (s parent))
          (s parent).children
          (vmar_first_page (s parent) + (s parent).page_count)
          (vmar_find_gap tree parent n sized)
    lowest =
        subst
          (λ v.
            Lowest.Lowest n sized (v.base / 4096) v.children (v.base / 4096 + v.page_count)
              (vmar_find_gap tree parent n sized))
          sized_same (Lowest.vmar_find_gap-Lowest tree parent n sized finds sized-IsTiled)

    -- With a tree that finds the leftmost fit and inserts in order: `vmar_allocate_static` at any offset, of a
    -- vmar without a parent and of at least a page, in a region that is not unmapped and whose children tile it and
    -- name it as their parent, returns. With a success the vmar is a child, in its place between the
    -- others, and the children tile the region still. With an error no pages of the region are free for
    -- it.
    pub vmar_allocate_static-Allocated :
        (s parent).unmapped ≡ false
        → Returns (Allocated s) (vmar_allocate_static tree parent child any_offset n s)
    unfolding vmar_allocate_static vmar_find_place vmar_find_any
    vmar_allocate_static-Allocated mapped =
        let some_pages : (n == 0) ≡ false = ground arith in
        rw (vmar_allocate_static, kind, some_pages, vmar_find_place, mapped, vmar_find_any)
          (found-Allocated (vmar_find_gap tree parent n sized) lowest)
