-- ===== src/Mem/Vmar/Tiles/Fixed.antt =====
-- src/mem/vmar.c: `vmar_allocate_static` at a fixed offset, from the tests of the place to the link.
use tomato.Base.{
  ℕ, ◌+◌, ◌/◌, ◌%◌, ◌≤◌, ◌<◌, ◌≡◌, ◌≢◌, refl, sym, ap, subst, ◌∙◌, Option, none, some, Bool, true,
  false, not, arith, inl, inr, Run, ok, halt, Returns, ◌>>=◌, update, update_ne, update_self, Err,
  success, internal_error, u64_mod, ◌==◌, leb, Bool-cases, if◌then◌else◌,
}
use tomato.Mem.Vmar.{
  Vmar, Sign, Tree, Store, vmar_first_page, vmar_compare_ranges, vmar_check_in_parent, is_region,
  is_success, is_null,
}
use tomato.Mem.Vmar.Place.{
  vmar_find_fixed, vmar_find_place, link_if_placed, vmar_allocate_static, any_offset,
}
use tomato.Mem.Vmar.Tiles.{IsTiled, page_limit}
use tomato.Mem.Vmar.Tiles.Lowest
use tomato.Mem.Vmar.Tiles.Insert
use tomato.Mem.Vmar.Tiles.Siblings.{Out}
use tomato.Mem.Vmar.Tiles.Kept.{Parented}
use tomato.Mem.Vmar.Tiles.Link.{Inserts, HasLinked, Out-free}
use tomato.Mem.Vmar.Tiles.Placed.{Clear-placed, Clear-update, IsTiled-update, link-based}
use tomato.Mem.Vmar.Tiles.Compare.{
  NoneEqual, FindsEqual, IsOrdered, Tiles-IsOrdered, NoneEqual-Clear, Clear-NoneEqual, Clear-taken,
  Clear-before,
}

-- What the test of the range says, in a region whose pages do not wrap.
inside :
    (w v : Vmar)
    → vmar_first_page w + w.page_count ≤ page_limit
    → is_success (vmar_check_in_parent w v) ≡ true
    → (vmar_first_page w ≤ vmar_first_page v)
      × (vmar_first_page v + v.page_count ≤ vmar_first_page w + w.page_count)
unfolding vmar_check_in_parent
inside w v b h = ground arith

outside :
    (w v : Vmar)
    → vmar_first_page w + w.page_count ≤ page_limit
    → is_success (vmar_check_in_parent w v) ≡ false
    → vmar_first_page w ≤ vmar_first_page v
    → ¬ (vmar_first_page v + v.page_count ≤ vmar_first_page w + w.page_count)
unfolding vmar_check_in_parent
outside w v b h low high = ground arith

module _ (tree : Tree) (finds : FindsEqual tree) (inserts : Inserts tree) (parent child : ℕ)
    (apart : child ≢ parent) (offset n : ℕ) where
  -- The pages from the offset on are free in the region.
  abbrev pub IsFreeAt : Store → Type 0
  IsFreeAt s =
      Lowest.IsFree n s (vmar_first_page (s parent)) (s parent).children
        (vmar_first_page (s parent) + (s parent).page_count) (((s parent).base + offset) / 4096)

  abbrev pub IsPlaceable : Store → Type 0
  IsPlaceable s = (offset % 4096 ≡ 0) × ((s parent).base + offset < u64_mod) × IsFreeAt s

  -- A success links the vmar at a place that was free, and an error means that the place is not.
  unfoldable pub AllocatedAt : Store → Err × Store → Type 0
  AllocatedAt s (success, s') = IsPlaceable s × HasLinked parent child s s'
  AllocatedAt s (err, s') = ¬ IsPlaceable s

  module _ (s : Store) (kind : is_region (s parent).kind ≡ true) (free : (s child).parent ≡ none)
      (tiled : IsTiled s parent) (parented : Parented s parent (s parent).children)
      (pages : 1 ≤ n) where
    abbrev sized : Store
    sized = update s child (record (s child) { page_count = n })

    abbrev based : Vmar
    based = record (sized child) { base = (sized parent).base + offset }

    abbrev put : Store
    put = update sized child based

    out : Out child (s parent).children
    out = Out-free s parent child (s parent).children free parented

    sized_same : sized parent ≡ s parent
    sized_same = update_ne s child parent (record (s child) { page_count = n }) apart

    same : put parent ≡ s parent
    same = update_ne sized child parent based apart ∙ sized_same

    put_first : vmar_first_page (put child) ≡ ((s parent).base + offset) / 4096
    put_first =
        ap vmar_first_page (update_self sized child based)
        ∙ ap (λ v. (v.base + offset) / 4096) sized_same

    put_count : (put child).page_count ≡ n
    put_count =
        ap (λ v. v.page_count) (update_self sized child based)
        ∙ ap (λ v. v.page_count) (update_self s child (record (s child) { page_count = n }))

    put-IsTiled : IsTiled put parent
    put-IsTiled =
        IsTiled-update sized parent child based apart
          (subst (λ v. Out child v.children) (sym sized_same) out)
          (IsTiled-update s parent child (record (s child) { page_count = n }) apart out tiled)

    abbrev fits : Bool
    fits = is_success (vmar_check_in_parent (put parent) (put child))

    abbrev compare : ℕ → Sign
    compare y = vmar_compare_ranges (put child) (put y)

    -- The tests of the place, once the vmar is put there.
    abbrev tested : Bool → Option ℕ → Err × Store
    tested f o =
        if not f
        then (internal_error, put)
        else if is_null o
        then (success, put)
        else (internal_error, put)

    linked-AllocatedAt :
        (r : Run Store)
        → IsPlaceable s
        → Returns (HasLinked parent child s) r
        → Returns (AllocatedAt s) (r >>= λ linked. ok (success, linked))
    unfolding AllocatedAt
    linked-AllocatedAt (ok s') i h = (i, h)
    linked-AllocatedAt halt i h = h

    ordered : fits ≡ true → IsOrdered compare (put parent).children
    ordered e =
        let bounded = put-IsTiled.bounded in
        let (low, high) = inside (put parent) (put child) put-IsTiled.bounded e in
        Tiles-IsOrdered put child (vmar_first_page (put parent)) (put parent).children _ bounded
          (omega arith) put-IsTiled.tiles

    sized-IsFreeAt :
        fits ≡ true
        → NoneEqual compare (put parent).children
        → Lowest.IsFree n sized
            (vmar_first_page (s parent))
            (s parent).children
            (vmar_first_page (s parent) + (s parent).page_count)
            (((s parent).base + offset) / 4096)
    sized-IsFreeAt e none_equal =
        let first = put_first in
        let count = put_count in
        let bounded = put-IsTiled.bounded in
        let start = ap vmar_first_page same in
        let pages = ap (λ v. v.page_count) same in
        let (low, high) = inside (put parent) (put child) put-IsTiled.bounded e in
        let clear =
          NoneEqual-Clear put child (vmar_first_page (put parent)) (put parent).children _ bounded
            (omega arith) put-IsTiled.tiles none_equal in
        (
          omega arith,
          omega arith,
          Clear-taken sized child based n _ (s parent).children out
              (sym (ap vmar_first_page (update_self sized child based)) ∙ put_first)
              (sym (ap (λ v. v.page_count) (update_self sized child based)) ∙ put_count)
              (subst (λ v. Insert.Clear put child v.children) same clear),
        )

    IsFreeAt-clear : IsFreeAt s → fits ≡ true → NoneEqual compare (put parent).children
    IsFreeAt-clear (low, high, clear) e =
        let bounded = put-IsTiled.bounded in
        let (first, last) = inside (put parent) (put child) put-IsTiled.bounded e in
        Clear-NoneEqual put child (vmar_first_page (put parent)) (put parent).children _ bounded
          (omega arith) put-IsTiled.tiles
          (subst (λ v. Insert.Clear put child v.children) (sym same)
            (Clear-placed sized child based n _ (s parent).children out
              (sym (ap vmar_first_page (update_self sized child based)) ∙ put_first)
              (sym (ap (λ v. v.page_count) (update_self sized child based)) ∙ put_count)
              (Clear-update s child (record (s child) { page_count = n }) n _ (s parent).children
                out clear)))

    IsFreeAt-fits : IsFreeAt s → fits ≡ false → ⊥
    IsFreeAt-fits (low, high, clear) e =
        let first = put_first in
        let count = put_count in
        let start = ap vmar_first_page same in
        let pages = ap (λ v. v.page_count) same in
        outside (put parent) (put child) put-IsTiled.bounded e (omega arith) (omega arith)

    tested-AllocatedAt :
        (f : Bool) (o : Option ℕ)
        → offset % 4096 ≡ 0
        → (s parent).base + offset < u64_mod
        → fits ≡ f
        → tree.rb_find compare (put parent).children ≡ o
        → Returns (AllocatedAt s) (link_if_placed tree parent child (tested f o))
    unfolding AllocatedAt
    tested-AllocatedAt false o aligned small e found = λ placeable. IsFreeAt-fits placeable.2 e
    tested-AllocatedAt true none aligned small e found =
        let is_free =
          sized-IsFreeAt e ((finds compare (put parent).children (ordered e)).0 found) in
        let before : IsFreeAt s = (
          is_free.0,
          is_free.1,
          Clear-before s child (record (s child) { page_count = n }) n _ (s parent).children out
              is_free.2,
        ) in
        linked-AllocatedAt _ (aligned, small, before)
          (link-based tree inserts parent child apart n s kind free tiled parented pages
            ((sized parent).base + offset) _ (ap (λ v. (v.base + offset) / 4096) sized_same)
            is_free)
    tested-AllocatedAt true (some y) aligned small e found = λ placeable.
        (finds compare (put parent).children (ordered e)).1 y found (IsFreeAt-clear placeable.2 e)

    -- With a tree that, for a comparison in the order of its nodes, finds a node exactly when one compares as
    -- equal, and inserts in order where none does: `vmar_allocate_static`
    -- at an offset that is not `VMAR_ANY_OFFSET`, of a vmar without a parent and of at least a page, in a
    -- region that is not unmapped and whose children tile it and name it as their parent, returns. With
    -- a success the offset is aligned, the address does not wrap, the pages from there on were free in
    -- the region, and the vmar is a child in its place between the others, which tile the region still.
    -- With an error one of the first three does not hold.
    pub vmar_allocate_static-AllocatedAt :
        (s parent).unmapped ≡ false
        → offset ≢ any_offset
        → Returns (AllocatedAt s) (vmar_allocate_static tree parent child offset n s)
    unfolding vmar_allocate_static vmar_find_place vmar_find_fixed AllocatedAt
    vmar_allocate_static-AllocatedAt mapped fixed =
        let some_pages : (n == 0) ≡ false = ground arith in
        let not_any : (offset == any_offset) ≡ false = ground arith in
        let base : (sized parent).base ≡ (s parent).base = ap (λ v. v.base) sized_same in
        elim (Bool-cases (offset % 4096 == 0)) [
          | inr bent ↦
              rw
                (
                  vmar_allocate_static, kind, some_pages, vmar_find_place, mapped, not_any,
                  vmar_find_fixed, bent,
                )
                (λ (zero_offset, _, _). ground arith)
          | inl aligned ↦ elim (Bool-cases (leb u64_mod ((sized parent).base + offset))) [
            | inl wraps ↦
                rw
                  (
                    vmar_allocate_static, kind, some_pages, vmar_find_place, mapped, not_any,
                    vmar_find_fixed, aligned, wraps,
                  )
                  (λ (_, below, _). ground (arith, base))
            | inr small ↦
                rw
                  (
                    vmar_allocate_static, kind, some_pages, vmar_find_place, mapped, not_any,
                    vmar_find_fixed, aligned, small,
                  )
                  (tested-AllocatedAt fits _ (ground arith) (ground (arith, base)) refl refl)
          ]
        ]
