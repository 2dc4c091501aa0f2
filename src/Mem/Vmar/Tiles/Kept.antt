-- ===== src/Mem/Vmar/Tiles/Kept.antt =====
-- src/mem/vmar.c: `vmar_link_internal` links a vmar that overlaps no child.
use tomato.Base.{
  ℕ, ◌+◌, ◌≤◌, ◌≡◌, ◌≢◌, refl, sym, ap, ap₂, subst, ◌∙◌, List, [], ◌∷◌, ◌++◌, none, some, arith, ok,
  Returns, ◌>>=◌, update, update-cases, update_self, update_ne, inl, inr, sub_u64, sub_u64-eq,
  add_u64-eq,
}
use tomato.Mem.Vmar.{
  Tree, Store, vmar_first_page, prev_of, next_of, last_of, end_or_start, vmar_gap_update,
  gap_update_next, link_at,
}
use tomato.Mem.Vmar.Tiles.{Tiles, IsTiled, page_limit}
use tomato.Mem.Vmar.Tiles.FirstFit.{Tiles-le, last_end}
use tomato.Mem.Vmar.Tiles.Insert.{after_page, Room, Cut}
use tomato.Mem.Vmar.Tiles.Siblings.{
  Out, head_of, prev_of_self, prev_of-next, next_of_self, last_end-eq, last_end-le, Out-left,
  Out-right,
}
use tomato.Mem.Vmar.Tiles.Linked.{
  Keeps, Keeps-trans, Keeps-update, gap_update-eq, join-last, join-before, last_end-Keeps,
  first_page-Keeps, after_page-Keeps,
}

-- Every child names its parent.
abbrev pub Parented : Store → (parent : ℕ) → List ℕ → Type 0
Parented s parent [] = Unit
Parented s parent (y ∷ ys) = ((s y).parent ≡ some parent) × Parented s parent ys

pub Parented-right :
    (s : Store) (parent : ℕ) (l r : List ℕ) → Parented s parent (l ++ r) → Parented s parent r
Parented-right s parent [] r p = p
Parented-right s parent (y ∷ l) r (e, p) = Parented-right s parent l r p

-- The region with the new child.
record Linked (parent child : ℕ) (before after : List ℕ) (s' : Store) : Type 0 where
  pub tiled : IsTiled s' parent
  pub children : (s' parent).children ≡ before ++ child ∷ after
  pub tied : (s' child).parent ≡ some parent

module _ (parent child : ℕ) (apart : child ≢ parent) (t : Store)
    (bounded : vmar_first_page (t parent) + (t parent).page_count ≤ page_limit)
    (pages : 1 ≤ (t child).page_count)
    (c : Cut t child
      (vmar_first_page (t parent))
      (t parent).children
      (vmar_first_page (t parent) + (t parent).page_count))
    (parented : Parented t parent c.after)
    (inside : after_page t child ≤ vmar_first_page (t parent) + (t parent).page_count) where
  abbrev kids : List ℕ
  kids = c.before ++ child ∷ c.after

  abbrev tied_store : Store
  tied_store = update t parent (record (t parent) { children = kids })

  abbrev linked_store : Store
  linked_store = update tied_store child (record (tied_store child) { parent = some parent })

  abbrev measured_store : Store
  measured_store = update linked_store child (record (linked_store child) {
    gap =
        sub_u64 (vmar_first_page (linked_store child))
          (end_or_start (last_of c.before) parent linked_store);
  })

  linked-Keeps : Keeps child t linked_store
  linked-Keeps =
      Keeps-trans
        (Keeps-update child parent t (record (t parent) { children = kids }) refl refl (λ _. refl))
        (Keeps-update child child tied_store (record (tied_store child) { parent = some parent })
          refl refl (λ _. refl))

  measured-Keeps : Keeps child t measured_store
  measured-Keeps =
      Keeps-trans linked-Keeps
        (Keeps-update child child linked_store _ refl refl (λ n. absurd (n refl)))

  linked_parent : (linked_store parent).children ≡ kids
  linked_parent =
      ap (λ v. v.children)
        (update_ne tied_store child parent _ apart
          ∙ update_self t parent (record (t parent) { children = kids }))

  measured_parent : (measured_store parent).children ≡ kids
  measured_parent =
      ap (λ v. v.children) (update_ne linked_store child parent _ apart) ∙ linked_parent

  linked_child : (linked_store child).parent ≡ some parent
  linked_child = ap (λ v. v.parent) (update_self tied_store child _)

  out_before : Out child c.before
  out_before =
      Out-left t child (vmar_first_page (t parent)) c.before (vmar_first_page (t child)) c.left
        (omega arith)

  out_of :
      (d : ℕ) (xs : List ℕ) (end : ℕ)
      → Tiles t d xs end
      → Room t (after_page t child) xs end
      → Out child xs
  unfolding Tiles
  out_of d [] end u r = tt
  out_of d (h ∷ xs) end (e, p, u) r = (
    λ same. let page = ap (λ i. vmar_first_page (t i)) same in omega arith,
    Out-right t child (after_page t h) xs end u (omega arith),
  )

  out_after : Out child c.after
  out_after = out_of _ c.after _ c.right c.room

  measured_gap :
      vmar_first_page (t child)
      ≡ last_end t (vmar_first_page (t parent)) c.before + (measured_store child).gap
  measured_gap =
      let gap =
        ap (λ v. v.gap)
          (update_self linked_store child (record (linked_store child) {
            gap =
                sub_u64 (vmar_first_page (linked_store child))
                  (end_or_start (last_of c.before) parent linked_store);
          })) in
      let page = first_page-Keeps child child t linked_store linked-Keeps in
      let start = first_page-Keeps child parent t linked_store linked-Keeps in
      let last =
        last_end-eq linked_store parent c.before
        ∙ ap (λ d. last_end linked_store d c.before) start
        ∙ last_end-Keeps child t linked_store (vmar_first_page (t parent)) c.before linked-Keeps in
      let le =
        last_end-le t (vmar_first_page (t parent)) c.before (vmar_first_page (t child)) c.left
          (omega arith) in
      let sub =
        sub_u64-eq (vmar_first_page (t child)) (last_end t (vmar_first_page (t parent)) c.before)
          (omega arith) le in
      let same = gap ∙ ap₂ sub_u64 page last ∙ sub in omega arith

  measure-child : vmar_gap_update child linked_store ≡ ok measured_store
  measure-child =
      gap_update-eq child parent linked_store kids (last_of c.before) linked_child linked_parent
        (prev_of_self child c.before c.after out_before out_after)

  -- The region of a store that has the pages of the vmars still.
  region-IsTiled :
      (x : ℕ) (u v : Store)
      → Keeps child t u
      → Keeps x u v
      → (v parent).children ≡ kids
      → Tiles v
          (vmar_first_page (t parent))
          kids
          (vmar_first_page (t parent) + (t parent).page_count)
      → IsTiled v parent
  region-IsTiled x u v k l e ts =
      let start = first_page-Keeps x parent u v l ∙ first_page-Keeps child parent t u k in
      let end = after_page-Keeps x parent u v l ∙ after_page-Keeps child parent t u k in
      record {
        tiles =
            subst (λ n. Tiles v n (v parent).children (after_page v parent)) (sym start)
              (subst (λ n. Tiles v (vmar_first_page (t parent)) (v parent).children n) (sym end)
                (subst
                  (λ xs.
                    Tiles v (vmar_first_page (t parent)) xs
                      (vmar_first_page (t parent) + (t parent).page_count))
                  (sym e) ts));
        bounded = omega arith;
      }

  -- The region is tiled, and its children are the ones before with the new one.
  unfoldable pub Grown : Store → Type 0
  Grown v = IsTiled v parent × ((v parent).children ≡ kids)

  last-Grown : c.after ≡ [] → Grown measured_store
  unfolding Grown
  last-Grown e =
      let end = vmar_first_page (t parent) + (t parent).page_count in
      let joined =
        join-last child (vmar_first_page (t parent)) end c.before t measured_store measured-Keeps
          out_before c.left inside bounded pages measured_gap in
      let ts =
        subst (λ a. Tiles measured_store (vmar_first_page (t parent)) (c.before ++ child ∷ a) end)
          (sym e) joined in
      let same : Keeps child measured_store measured_store = record {
        base = λ y. refl;
        page_count = λ y. refl;
        gap = λ y n. refl;
      } in
      (
        region-IsTiled child measured_store measured_store measured-Keeps same measured_parent ts,
        measured_parent,
      )

  measured_sibling :
      (h : ℕ) → h ≢ child → (t h).parent ≡ some parent → (measured_store h).parent ≡ some parent
  measured_sibling h n p =
      let away : child ≢ h = λ e. n (sym e) in
      let here =
        ap (λ v. v.parent)
          (update_ne linked_store child h _ away ∙ update_ne tied_store child h _ away) in
      here ∙ elim (update-cases t parent (record (t parent) { children = kids }) h) [
        | inl (e, same) ↦ ap (λ v. v.parent) same ∙ ap (λ i. (t i).parent) e ∙ p
        | inr (_, same) ↦ ap (λ v. v.parent) same ∙ p
      ]

  abbrev final_store : ℕ → Store
  final_store h = update measured_store h (record (measured_store h) {
    gap =
        sub_u64 (vmar_first_page (measured_store h))
          (end_or_start (some child) parent measured_store);
  })

  final_gap :
      (h : ℕ)
      → after_page t child ≤ vmar_first_page (t h)
      → vmar_first_page (t h) ≤ page_limit
      → vmar_first_page (t h) ≡ after_page t child + (final_store h h).gap
  final_gap h room b =
      let gap =
        ap (λ v. v.gap)
          (update_self measured_store h (record (measured_store h) {
            gap =
                sub_u64 (vmar_first_page (measured_store h))
                  (end_or_start (some child) parent measured_store);
          })) in
      let page = first_page-Keeps child h t measured_store measured-Keeps in
      let after = after_page-Keeps child child t measured_store measured-Keeps in
      let end =
        add_u64-eq (vmar_first_page (measured_store child)) (measured_store child).page_count
          (omega arith) in
      let sub = sub_u64-eq (vmar_first_page (t h)) (after_page t child) (omega arith) room in
      let same = gap ∙ ap₂ sub_u64 page (end ∙ after) ∙ sub in omega arith

  final_parent : (h : ℕ) → (final_store h parent).children ≡ kids
  final_parent h =
      elim (update-cases measured_store h
        (record (measured_store h) {
          gap =
              sub_u64 (vmar_first_page (measured_store h))
                (end_or_start (some child) parent measured_store);
        })
        parent) [
          | inl (e, same) ↦
              ap (λ v. v.children) same ∙ ap (λ i. (measured_store i).children) e ∙ measured_parent
          | inr (_, same) ↦ ap (λ v. v.children) same ∙ measured_parent
        ]

  sibling-Grown :
      (h : ℕ) (r : List ℕ)
      → c.after ≡ h ∷ r
      → (t h).parent ≡ some parent
      → Returns Grown (vmar_gap_update h measured_store)
  unfolding Grown Tiles
  sibling-Grown h r e p =
      let start = vmar_first_page (t parent) in
      let end = start + (t parent).page_count in
      let right = subst (λ a. Tiles t (last_end t start c.before) a end) e c.right in
      let room = subst (λ a. Room t (after_page t child) a end) e c.room in
      let le = Tiles-le t (after_page t h) r end right.2 in
      let count = right.1 in
      let apart_h : h ≢ child =
        λ same. let page = ap (λ i. vmar_first_page (t i)) same in omega arith in
      let out_h = Out-left t h start c.before (vmar_first_page (t child)) c.left (omega arith) in
      let child_r = Out-right t child (after_page t h) r end right.2 (omega arith) in
      let h_r = Out-right t h (after_page t h) r end right.2 (omega arith) in
      let prev =
        ap (λ a. prev_of h (c.before ++ child ∷ a)) e
        ∙ prev_of-next child h c.before r out_h apart_h in
      let keeps : Keeps h measured_store (final_store h) =
        Keeps-update h h measured_store _ refl refl (λ n. absurd (n refl)) in
      let gap = final_gap h room (omega arith) in
      let joined =
        join-before child h start end c.before r t measured_store (final_store h) measured-Keeps
          keeps apart_h out_before out_h child_r h_r c.left right.2 room (omega arith) pages count
          measured_gap gap in
      let ts =
        subst (λ a. Tiles (final_store h) start (c.before ++ child ∷ a) end) (sym e) joined in
      let children = final_parent h in
      subst (Returns Grown)
        (sym (
          gap_update-eq h parent measured_store kids (some child) (measured_sibling h apart_h p)
            measured_parent prev))
        (region-IsTiled h measured_store (final_store h) measured-Keeps keeps children ts, children)

  next-Grown :
      (a : List ℕ)
      → c.after ≡ a
      → Parented t parent a
      → Returns Grown (gap_update_next (next_of child kids) measured_store)
  next-Grown [] e p =
      subst (λ o. Returns Grown (gap_update_next o measured_store))
        (sym (next_of_self child c.before c.after out_before ∙ ap head_of e)) (last-Grown e)
  next-Grown (h ∷ r) e (p, _) =
      subst (λ o. Returns Grown (gap_update_next o measured_store))
        (sym (next_of_self child c.before c.after out_before ∙ ap head_of e))
        (sibling-Grown h r e p)

  pub link_at-Grown : (tree : Tree) → Returns Grown (link_at tree parent child (none, kids) t)
  link_at-Grown tree =
      subst (λ m. Returns Grown (m >>= λ measured. gap_update_next (next_of child kids) measured))
        (sym measure-child) (next-Grown c.after refl parented)
