-- ===== src/Mem/Vmar/Tiles/Link.antt =====
-- src/mem/vmar.c: `vmar_link_internal` and the children of the region that it links to.
use tomato.Base.{
  ℕ, ◌+◌, ◌≤◌, ◌≡◌, ◌≢◌, refl, sym, ap, subst, ◌∙◌, List, [], ◌∷◌, ◌++◌, none, some, Bool, true,
  false, arith, inl, inr, Run, Returns, ◌>>◌, assert, ok, halt, ◌/◌, update, update_ne,
  update-cases,
}
use tomato.Mem.Vmar.{
  Sign, Tree, Store, vmar_first_page, vmar_compare_ranges, vmar_link_internal, link_at, is_region,
  is_null,
}
use tomato.Mem.Vmar.Tiles.{Tiles, IsTiled, insert, page_limit}
use tomato.Mem.Vmar.Tiles.Insert.{after_page, Clear, insert-Cut}
use tomato.Mem.Vmar.Tiles.Compare.{NoneEqual, IsOrdered, Tiles-IsOrdered, Clear-NoneEqual}
use tomato.Mem.Vmar.Tiles.Siblings.{Out}
use tomato.Mem.Vmar.Tiles.Linked.{
  Keeps, Keeps-update, Tiles-Keeps, first_page-Keeps, after_page-Keeps,
}
use tomato.Mem.Vmar.Tiles.Kept.{Parented, Parented-right, link_at-Grown, Grown}

-- What the code relies on of `rb_find_add`, for a comparison that defines the order of the nodes and with
-- no node that compares as equal: in the sequence of the nodes the new one goes to its place.
abbrev pub Inserts : Tree → Type 0
Inserts tree =
    (cmp : ℕ → Sign) (x : ℕ) (xs : List ℕ)
    → IsOrdered cmp xs
    → NoneEqual cmp xs
    → tree.rb_find_add cmp x xs ≡ insert cmp x xs

Returns-asserts :
    {A : Type 0} (P : A → Type 0) (b c : Bool) (r : Run A)
    → b ≡ true
    → c ≡ true
    → Returns P r
    → Returns P (assert b >> assert c >> r)
Returns-asserts P true true r e f h = h
Returns-asserts P true false r e f h = cc f
Returns-asserts P false c r e f h = cc e

pub Out-free :
    (s : Store) (parent x : ℕ) (xs : List ℕ) → (s x).parent ≡ none → Parented s parent xs → Out x xs
Out-free s parent x [] f p = tt
Out-free s parent x (y ∷ ys) f (e, p) = (
  λ same. let clash : none ≡ some parent = sym f ∙ ap (λ i. (s i).parent) same ∙ e in cc clash,
  Out-free s parent x ys f p,
)

Clear-Keeps :
    (child : ℕ) (s t : Store) (xs : List ℕ) → Keeps child s t → Clear s child xs → Clear t child xs
Clear-Keeps child s t [] k c = tt
Clear-Keeps child s t (y ∷ ys) k (inl h, c) =
    let end = after_page-Keeps child child s t k in
    let page = first_page-Keeps child y s t k in (inl (omega arith), Clear-Keeps child s t ys k c)
Clear-Keeps child s t (y ∷ ys) k (inr h, c) =
    let end = after_page-Keeps child y s t k in
    let page = first_page-Keeps child child s t k in
    (inr (omega arith), Clear-Keeps child s t ys k c)

-- A region with one more child: its children are tiled, and they are those there were with the new one
-- between them.
pub record HasLinked (parent child : ℕ) (s s' : Store) : Type 0 where
  pub tiled : IsTiled s' parent
  pub before : List ℕ
  pub after : List ℕ
  pub split : (s parent).children ≡ before ++ after
  pub children : (s' parent).children ≡ before ++ child ∷ after

pub Returns-map :
    {A : Type 0} (P Q : A → Type 0) (r : Run A) → ((a : A) → P a → Q a) → Returns P r → Returns Q r
Returns-map P Q (ok a) f h = f a h
Returns-map P Q halt f h = h

module _ (tree : Tree) (inserts : Inserts tree) (parent child : ℕ) (apart : child ≢ parent) where
  link-cleared :
      (t : Store)
      → IsTiled t parent
      → 1 ≤ (t child).page_count
      → vmar_first_page (t parent) ≤ vmar_first_page (t child)
      → after_page t child ≤ after_page t parent
      → Clear t child (t parent).children
      → Parented t parent (t parent).children
      → Returns (HasLinked parent child t) (
          link_at tree parent child
            (tree.rb_find_add (λ y. vmar_compare_ranges (t child) (t y)) child (t parent).children)
            t)
  unfolding Grown
  link-cleared t tiled pages low high clear parented =
      let bounded = tiled.bounded in
      let c =
        insert-Cut t child (vmar_first_page (t parent)) (t parent).children (after_page t parent)
          tiled.bounded pages low high clear tiled.tiles in
      let found =
        inserts (λ y. vmar_compare_ranges (t child) (t y)) child (t parent).children
          (Tiles-IsOrdered t child (vmar_first_page (t parent)) (t parent).children
            (after_page t parent) bounded (omega arith) tiled.tiles)
          (Clear-NoneEqual t child (vmar_first_page (t parent)) (t parent).children
            (after_page t parent) bounded (omega arith) tiled.tiles clear)
        ∙ c.placed in
      let p =
        Parented-right t parent c.before c.after (subst (Parented t parent) c.split parented) in
      subst (λ f. Returns (HasLinked parent child t) (link_at tree parent child f t)) (sym found)
        (Returns-map _ (HasLinked parent child t) _
          (λ v g. record {
            tiled = g.0;
            before = c.before;
            after = c.after;
            split = c.split;
            children = g.1;
          })
          (link_at-Grown parent child apart t tiled.bounded pages c p high tree))

  cleared_parent :
      (s : Store) (y : ℕ) → (update s child (record (s child) { gap = 0 }) y).parent ≡ (s y).parent
  cleared_parent s y = elim (update-cases s child (record (s child) { gap = 0 }) y) [
    | inl (e, same) ↦ ap (λ v. v.parent) same ∙ ap (λ i. (s i).parent) e
    | inr (_, same) ↦ ap (λ v. v.parent) same
  ]

  Parented-cleared :
      (s : Store) (xs : List ℕ)
      → Parented s parent xs
      → Parented (update s child (record (s child) { gap = 0 })) parent xs
  Parented-cleared s [] p = tt
  Parented-cleared s (y ∷ ys) (e, p) = (cleared_parent s y ∙ e, Parented-cleared s ys p)

  -- With a tree that, for a comparison in the order of its nodes, inserts in order where no node compares as
  -- equal: `vmar_link_internal` of a vmar without a parent, of at least a page,
  -- inside a region whose children tile it and name it as their parent, and without a page that a child has, returns.
  -- The children of the region are those that there were with the new one between them, and they tile
  -- the region still, with the gap of each.
  pub vmar_link_internal-HasLinked :
      (s : Store)
      → is_region (s parent).kind ≡ true
      → (s child).parent ≡ none
      → IsTiled s parent
      → Parented s parent (s parent).children
      → 1 ≤ (s child).page_count
      → vmar_first_page (s parent) ≤ vmar_first_page (s child)
      → after_page s child ≤ after_page s parent
      → Clear s child (s parent).children
      → Returns (HasLinked parent child s) (vmar_link_internal tree parent child s)
  unfolding vmar_link_internal
  vmar_link_internal-HasLinked s kind free tiled parented pages low high clear =
      let t : Store = update s child (record (s child) { gap = 0 }) in
      let k : Keeps child s t =
        Keeps-update child child s (record (s child) { gap = 0 }) refl refl
          (λ n. absurd (n refl)) in
      let same : t parent ≡ s parent =
        update_ne s child parent (record (s child) { gap = 0 }) apart in
      let out = Out-free s parent child (s parent).children free parented in
      let tiles =
        Tiles-Keeps child s t (vmar_first_page (s parent)) (s parent).children (after_page s parent)
          k out tiled.tiles in
      let tiled_t : IsTiled t parent = record {
        tiles =
            subst (λ v. Tiles t (v.base / 4096) v.children (v.base / 4096 + v.page_count))
              (sym same) tiles;
        bounded = subst (λ v. v.base / 4096 + v.page_count ≤ page_limit) (sym same) tiled.bounded;
      } in
      let page = first_page-Keeps child child s t k in
      let start = first_page-Keeps child parent s t k in
      let end = after_page-Keeps child child s t k in
      let last = after_page-Keeps child parent s t k in
      let count = k.page_count child in
      Returns-asserts (HasLinked parent child s) _ _ _ kind (ap is_null free) (
        Returns-map (HasLinked parent child t) (HasLinked parent child s) _
          (λ v h. record {
            tiled = h.tiled;
            before = h.before;
            after = h.after;
            split = sym (ap (λ w. w.children) same) ∙ h.split;
            children = h.children;
          })
          (link-cleared t tiled_t (omega arith) (omega arith) (omega arith)
            (subst (λ v. Clear t child v.children) (sym same)
              (Clear-Keeps child s t (s parent).children k clear))
            (subst (λ v. Parented t parent v.children) (sym same)
              (Parented-cleared s (s parent).children parented))))
