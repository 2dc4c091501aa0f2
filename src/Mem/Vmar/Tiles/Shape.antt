-- ===== src/Mem/Vmar/Tiles/Shape.antt =====
-- src/mem/vmar.c: what a link leaves as it is. Only gaps change, but for the parent of the new vmar and the
-- children of the region.
use tomato.Base.{
  ℕ, ◌≡◌, ◌≢◌, refl, sym, ap, ◌∙◌, List, Option, none, some, Bool, true, false, Run, ok, halt,
  Returns, ◌>>=◌, ◌>>◌, assert, update, update-cases, update_self, update_ne, inl, inr, sub_u64,
}
use tomato.Mem.Vmar.{
  Vmar, Tree, Store, vmar_first_page, prev_of, next_of, end_or_start, vmar_gap_update,
  gap_update_next, link_at, vmar_link_internal, is_region, is_null, vmar_compare_ranges,
}

-- What a run returns, if it does.
abbrev pub IfReturns : {A : Type 0} → (A → Type 0) → Run A → Type 0
IfReturns P (ok a) = P a
IfReturns P halt = Unit

pub Returns-both :
    {A : Type 0} (P Q : A → Type 0) (r : Run A)
    → Returns P r
    → IfReturns Q r
    → Returns (λ a. P a × Q a) r
Returns-both P Q (ok a) p q = (p, q)
Returns-both P Q halt p q = p

pub IfReturns-then :
    {A B : Type 0} (P : A → Type 0) (Q : B → Type 0) (r : Run A) (f : A → Run B)
    → IfReturns P r
    → ((a : A) → P a → IfReturns Q (f a))
    → IfReturns Q (r >>= f)
IfReturns-then P Q (ok a) f p k = k a p
IfReturns-then P Q halt f p k = tt

IfReturns-map :
    {A : Type 0} {P Q : A → Type 0} (r : Run A)
    → IfReturns P r
    → ((a : A) → P a → Q a)
    → IfReturns Q r
IfReturns-map (ok a) p f = f a p
IfReturns-map halt p f = tt

IfReturns-assert :
    {A : Type 0} (Q : A → Type 0) (b : Bool) (r : Run A)
    → IfReturns Q r
    → IfReturns Q (assert b >> r)
IfReturns-assert Q true r h = h
IfReturns-assert Q false r h = tt

IfReturns-asserts :
    {A : Type 0} (Q : A → Type 0) (b c : Bool) (r : Run A)
    → IfReturns Q r
    → IfReturns Q (assert b >> assert c >> r)
IfReturns-asserts Q true true r h = h
IfReturns-asserts Q true false r h = tt
IfReturns-asserts Q false c r h = tt

-- A vmar without its gap.
abbrev pub shape : Vmar → Vmar
shape v = record v { gap = 0 }

abbrev pub SameShapes : Store → Store → Type 0
SameShapes s s' = (y : ℕ) → shape (s' y) ≡ shape (s y)

shapes-update : (s : Store) (x : ℕ) (v : Vmar) → shape v ≡ shape (s x) → SameShapes s (update s x v)
shapes-update s x v h y = elim (update-cases s x v y) [
  | inl (e, same) ↦ ap shape same ∙ h ∙ ap (λ i. shape (s i)) e
  | inr (n, same) ↦ ap shape same
]

gap_at-shapes :
    (x : ℕ) (s : Store) (o : Option ℕ)
    → IfReturns (SameShapes s) (elim o as (λ _. Run Store) [
      | none ↦ halt
      | some parent ↦ ok (
          update s x (record (s x) {
            gap =
                sub_u64
                  (vmar_first_page (s x))
                  (end_or_start (prev_of x (s parent).children) parent s);
          }))
    ])
gap_at-shapes x s none = tt
gap_at-shapes x s (some parent) = shapes-update s x _ refl

vmar_gap_update-shapes : (x : ℕ) (s : Store) → IfReturns (SameShapes s) (vmar_gap_update x s)
unfolding vmar_gap_update
vmar_gap_update-shapes x s = gap_at-shapes x s (s x).parent

gap_update_next-shapes : (o : Option ℕ) (s : Store) → IfReturns (SameShapes s) (gap_update_next o s)
gap_update_next-shapes none s = λ y. refl
gap_update_next-shapes (some next) s = vmar_gap_update-shapes next s

module _ (tree : Tree) (parent child : ℕ) where
  -- The store that the gaps are measured in.
  abbrev linked_store : List ℕ → Store → Store
  linked_store kids s =
      let tied = update s parent (record (s parent) { children = kids }) in
      update tied child (record (tied child) { parent = some parent })

  link_at-shapes :
      (found : Option ℕ × List ℕ) (s : Store)
      → IfReturns (λ s'. SameShapes (linked_store found.1 s) s') (link_at tree parent child found s)
  link_at-shapes (clash, kids) s = IfReturns-assert _ (is_null clash) _ (
      IfReturns-then (SameShapes (linked_store kids s)) (SameShapes (linked_store kids s))
        (vmar_gap_update child (linked_store kids s)) _
        (vmar_gap_update-shapes child (linked_store kids s))
        (λ measured h.
          IfReturns-map (gap_update_next (next_of child kids) measured)
            (gap_update_next-shapes (next_of child kids) measured) (λ s' k y. k y ∙ h y)))

  -- The vmar has its parent, the region its new children, and apart from gaps nothing else changes.
  pub record IsTied (s s' : Store) : Type 0 where
    pub mine : (gap : ℕ) × (s' child ≡ record (s child) { parent = some parent; gap = gap })
    pub above :
        (kids : List ℕ) × (shape (s' parent) ≡ shape (record (s parent) { children = kids }))
    pub others : (y : ℕ) → child ≢ y → parent ≢ y → shape (s' y) ≡ shape (s y)

  module _ (apart : child ≢ parent) where
    cleared_store : Store → Store
    cleared_store s = update s child (record (s child) { gap = 0 })

    linked-child :
        (kids : List ℕ) (s : Store)
        → shape (linked_store kids (cleared_store s) child)
          ≡ shape (record (s child) { parent = some parent })
    unfolding cleared_store
    linked-child kids s =
        let t : Store = cleared_store s in
        let tied : Store = update t parent (record (t parent) { children = kids }) in
        ap shape (update_self tied child (record (tied child) { parent = some parent }))
        ∙ ap {A = Vmar} (λ v. shape (record v { parent = some parent }))
            (update_ne t parent child (record (t parent) { children = kids }) (λ e. apart (sym e))
              ∙ update_self s child (record (s child) { gap = 0 }))

    linked-parent :
        (kids : List ℕ) (s : Store)
        → shape (linked_store kids (cleared_store s) parent)
          ≡ shape (record (s parent) { children = kids })
    unfolding cleared_store
    linked-parent kids s =
        let t : Store = cleared_store s in
        let tied : Store = update t parent (record (t parent) { children = kids }) in
        ap shape (
          update_ne tied child parent (record (tied child) { parent = some parent }) apart
          ∙ update_self t parent (record (t parent) { children = kids }))
        ∙ ap {A = Vmar} (λ v. shape (record v { children = kids }))
            (update_ne s child parent (record (s child) { gap = 0 }) apart)

    linked-other :
        (kids : List ℕ) (s : Store) (y : ℕ)
        → child ≢ y
        → parent ≢ y
        → shape (linked_store kids (cleared_store s) y) ≡ shape (s y)
    unfolding cleared_store
    linked-other kids s y n k =
        let t : Store = cleared_store s in
        let tied : Store = update t parent (record (t parent) { children = kids }) in
        ap shape (
          update_ne tied child y (record (tied child) { parent = some parent }) n
          ∙ update_ne t parent y (record (t parent) { children = kids }) k
          ∙ update_ne s child y (record (s child) { gap = 0 }) n)

    pub vmar_link_internal-IsTied :
        (s : Store) → IfReturns (IsTied s) (vmar_link_internal tree parent child s)
    unfolding vmar_link_internal cleared_store
    vmar_link_internal-IsTied s =
        let found =
          tree.rb_find_add
            (λ exist. vmar_compare_ranges (cleared_store s child) (cleared_store s exist)) child
            (cleared_store s parent).children in
        let linked = link_at tree parent child found (cleared_store s) in
        IfReturns-asserts (IsTied s) (is_region (s parent).kind) (is_null (s child).parent) linked (
          (IfReturns-map (link_at tree parent child found (cleared_store s))
            (link_at-shapes found (cleared_store s))
            (λ s' same. record {
              mine = (
                (s' child).gap,
                ap {A = Vmar} (λ v. record v { gap = (s' child).gap })
                    (same child ∙ linked-child found.1 s),
              );
              above = (found.1, same parent ∙ linked-parent found.1 s);
              others = λ y n k. same y ∙ linked-other found.1 s y n k;
            })))
