-- ===== src/Mem/Vmar/Tiles/Unlinked.antt =====
-- src/mem/vmar.c: what the unlink in `vmar_unmap_internal` leaves of the children of a region.
use tomato.Base.{
  ℕ, ◌+◌, ◌≤◌, ◌≡◌, ◌≢◌, refl, sym, ap, ap₂, subst, ◌∙◌, List, [], ◌∷◌, ◌++◌, Option, none, some,
  true, arith, Run, ok, Returns, ◌>>=◌, update, update-cases, update_self, update_ne, inl, inr,
  sub_u64, sub_u64-eq, List-cases,
}
use tomato.Mem.Vmar.{
  Vmar, Tree, Store, vmar_first_page, prev_of, next_of, last_of, end_or_start, vmar_gap_update,
  gap_update_next,
}
use tomato.Mem.Vmar.Place.{Services}
use tomato.Mem.Vmar.Unmap.{vmar_unlink}
use tomato.Mem.Vmar.Tiles.{Tiles, IsTiled}
use tomato.Mem.Vmar.Tiles.FirstFit.{Tiles-le, last_end}
use tomato.Mem.Vmar.Tiles.Insert.{after_page}
use tomato.Mem.Vmar.Tiles.Siblings.{
  head_of, prev_of_self, next_of_self, last_end-eq, last_end-le, Out-left, Out-right, Tiles-join,
}
use tomato.Mem.Vmar.Tiles.Linked.{
  Keeps, Keeps-trans, Keeps-update, Tiles-Keeps, gap_update-eq, last_end-Keeps, first_page-Keeps,
  after_page-Keeps,
}
use tomato.Mem.Vmar.Tiles.Parts.{
  Erases, Tiles-before, Tiles-after, Tiles-wider, Tiles-head, append_nil, Keeps-IsTiled,
}
use tomato.Mem.Vmar.Tiles.Kept.{Parented}

-- A region without one of its children: the others are those there were, they tile it with the gap of each, and
-- the child is unmapped and has no parent.
pub record IsUnlinked (parent x : ℕ) (kids : List ℕ) (s' : Store) : Type 0 where
  pub tiled : IsTiled s' parent
  pub children : (s' parent).children ≡ kids
  pub unmapped : (s' x).unmapped ≡ true
  pub parentless : (s' x).parent ≡ none

module _ (parent x : ℕ) (apart : x ≢ parent) (s : Store) (before after : List ℕ)
    (split : (s parent).children ≡ before ++ x ∷ after) (tiled : IsTiled s parent) where
  abbrev start : ℕ
  start = vmar_first_page (s parent)

  abbrev erased_store : Store
  erased_store = update s parent (record (s parent) { children = before ++ after })

  abbrev gone_store : Store → Store
  gone_store t = update t x (record (t x) { parent = none; unmapped = true })

  all-Tiles : Tiles s start (before ++ x ∷ after) (after_page s parent)
  all-Tiles = subst (λ xs. Tiles s start xs (after_page s parent)) split tiled.tiles

  gone-Keeps : (h : ℕ) (t : Store) → Keeps h t (gone_store t)
  gone-Keeps h t =
      Keeps-update h x t (record (t x) { parent = none; unmapped = true }) refl refl (λ n. refl)

  erased-Keeps : (h : ℕ) → Keeps h s erased_store
  erased-Keeps h =
      Keeps-update h parent s (record (s parent) { children = before ++ after }) refl refl
        (λ n. refl)

  gone-children : (t : Store) → (gone_store t parent).children ≡ (t parent).children
  gone-children t = ap (λ v. v.children) (update_ne t x parent _ apart)

  gone-IsUnlinked :
      (h : ℕ) (t : Store)
      → Keeps h s t
      → (t parent).children ≡ before ++ after
      → Tiles (gone_store t) start (before ++ after) (after_page s parent)
      → IsUnlinked parent x (before ++ after) (gone_store t)
  gone-IsUnlinked h t k e ts = record {
    tiled =
        Keeps-IsTiled h parent s (gone_store t) (before ++ after) (Keeps-trans k (gone-Keeps h t))
          tiled.bounded (gone-children t ∙ e) ts;
    children = gone-children t ∙ e;
    unmapped =
        ap (λ v. v.unmapped) (update_self t x (record (t x) { parent = none; unmapped = true }));
    parentless =
        ap (λ v. v.parent) (update_self t x (record (t x) { parent = none; unmapped = true }));
  }

  erased-children : (erased_store parent).children ≡ before ++ after
  erased-children =
      ap (λ v. v.children) (update_self s parent (record (s parent) { children = before ++ after }))

  IsUnlinked-last : after ≡ [] → IsUnlinked parent x (before ++ after) (gone_store erased_store)
  unfolding Tiles
  IsUnlinked-last e =
      let (pages, rest) = Tiles-after s x start before after (after_page s parent) all-Tiles in
      let later = Tiles-le s (after_page s x) after (after_page s parent) rest in
      let left = Tiles-before s x start before after (after_page s parent) all-Tiles in
      let out = Out-left s x start before (vmar_first_page (s x)) left (omega arith) in
      let k = Keeps-trans (erased-Keeps x) (gone-Keeps x erased_store) in
      let wide =
        Tiles-wider s start before (vmar_first_page (s x)) (after_page s parent) (omega arith)
          left in
      let kept =
        Tiles-Keeps x s (gone_store erased_store) start before (after_page s parent) k out wide in
      gone-IsUnlinked x erased_store (erased-Keeps x) erased-children (
        subst (λ xs. Tiles (gone_store erased_store) start xs (after_page s parent))
          (sym (ap (λ a. before ++ a) e ∙ append_nil before)) kept)

  module _ (h : ℕ) (r : List ℕ) (next : after ≡ h ∷ r) where
    abbrev measured : Vmar
    measured = record (erased_store h) {
      gap =
          sub_u64 (vmar_first_page (erased_store h))
            (end_or_start (last_of before) parent erased_store);
    }

    measured_store : Store
    measured_store = update erased_store h measured

    measured-Keeps : Keeps h s measured_store
    unfolding measured_store
    measured-Keeps =
        Keeps-trans (erased-Keeps h)
          (Keeps-update h h erased_store _ refl refl (λ n. absurd (n refl)))

    final-Keeps : Keeps h s (gone_store measured_store)
    final-Keeps = Keeps-trans measured-Keeps (gone-Keeps h measured_store)

    rest-Tiles : (1 ≤ (s x).page_count) × Tiles s (after_page s x) (h ∷ r) (after_page s parent)
    rest-Tiles =
        subst (λ a. (1 ≤ (s x).page_count) × Tiles s (after_page s x) a (after_page s parent)) next
          (Tiles-after s x start before after (after_page s parent) all-Tiles)

    left-Tiles : Tiles s start before (vmar_first_page (s x))
    left-Tiles = Tiles-before s x start before after (after_page s parent) all-Tiles

    measured-children : (measured_store parent).children ≡ before ++ after
    unfolding measured_store
    measured-children = elim (update-cases erased_store h measured parent) [
      | inl (e, same) ↦
          ap (λ v. v.children) same ∙ ap (λ i. (erased_store i).children) e ∙ erased-children
      | inr (n, same) ↦ ap (λ v. v.children) same ∙ erased-children
    ]

    final-gap :
        x ≢ h
        → vmar_first_page (s x) ≤ vmar_first_page (s h)
        → vmar_first_page (s h) ≡ last_end s start before + (gone_store measured_store h).gap
    unfolding measured_store
    final-gap n le =
        let gap =
          ap (λ v. v.gap)
            (update_ne measured_store x h
                (record (measured_store x) { parent = none; unmapped = true }) n
              ∙ update_self erased_store h measured) in
        let page = first_page-Keeps h h s erased_store (erased-Keeps h) in
        let first = first_page-Keeps h parent s erased_store (erased-Keeps h) in
        let last =
          last_end-eq erased_store parent before
          ∙ ap (λ d. last_end erased_store d before) first
          ∙ last_end-Keeps h s erased_store start before (erased-Keeps h) in
        let (pages, rest) = rest-Tiles in
        let bounded = tiled.bounded in
        let x_end = Tiles-le s (after_page s x) (h ∷ r) (after_page s parent) rest in
        let bound = last_end-le s start before (vmar_first_page (s x)) left-Tiles (omega arith) in
        let small = Tiles-head s (after_page s x) h r (after_page s parent) rest in
        let sub =
          sub_u64-eq (vmar_first_page (s h)) (last_end s start before) (omega arith)
            (omega arith) in
        let same = gap ∙ ap₂ sub_u64 page last ∙ sub in omega arith

    IsUnlinked-next : IsUnlinked parent x (before ++ after) (gone_store measured_store)
    unfolding Tiles
    IsUnlinked-next =
        let (pages, (e, count, right)) = rest-Tiles in
        let bounded = tiled.bounded in
        let h_end = Tiles-le s (after_page s h) r (after_page s parent) right in
        let apart_h : x ≢ h =
          λ same. let page = ap (λ i. vmar_first_page (s i)) same in omega arith in
        let out_h = Out-left s h start before (vmar_first_page (s x)) left-Tiles (omega arith) in
        let out_r = Out-right s h (after_page s h) r (after_page s parent) right (omega arith) in
        let k = final-Keeps in
        let page = first_page-Keeps h h s (gone_store measured_store) k in
        let last = last_end-Keeps h s (gone_store measured_store) start before k in
        let gap = final-gap apart_h (omega arith) in
        let count_h = k.page_count h in
        let after_h = after_page-Keeps h h s (gone_store measured_store) k in
        let wide =
          Tiles-wider s start before (vmar_first_page (s x)) (vmar_first_page (s h)) (omega arith)
            left-Tiles in
        let joined =
          Tiles-join (gone_store measured_store) h start before r (after_page s parent)
            (subst (λ n. Tiles (gone_store measured_store) start before n) (sym page)
              (Tiles-Keeps h s (gone_store measured_store) start before (vmar_first_page (s h)) k
                out_h wide))
            (omega arith) (omega arith) (omega arith)
            (subst (λ n. Tiles (gone_store measured_store) n r (after_page s parent)) (sym after_h)
              (Tiles-Keeps h s (gone_store measured_store) (after_page s h) r (after_page s parent)
                k out_r right)) in
        gone-IsUnlinked h measured_store measured-Keeps measured-children (
          subst (λ a. Tiles (gone_store measured_store) start (before ++ a) (after_page s parent))
            (sym next) joined)

    erased-parent : (s h).parent ≡ some parent → (erased_store h).parent ≡ some parent
    erased-parent e =
        elim (update-cases s parent (record (s parent) { children = before ++ after }) h) [
          | inl (same, here) ↦ ap (λ v. v.parent) here ∙ ap (λ i. (s i).parent) same ∙ e
          | inr (n, kept) ↦ ap (λ v. v.parent) kept ∙ e
        ]

    gap_update-measured :
        (s h).parent ≡ some parent → vmar_gap_update h erased_store ≡ ok measured_store
    unfolding measured_store Tiles
    gap_update-measured e =
        let (pages, (first, count, right)) = rest-Tiles in
        let out_h = Out-left s h start before (vmar_first_page (s x)) left-Tiles (omega arith) in
        let out_r = Out-right s h (after_page s h) r (after_page s parent) right (omega arith) in
        gap_update-eq h parent erased_store (before ++ after) (last_of before) (erased-parent e)
          erased-children
          (subst (λ a. prev_of h (before ++ a) ≡ last_of before) (sym next)
            (prev_of_self h before r out_h out_r))

  module _ (tree : Tree) (erases : Erases tree) {State : Type 0} (services : Services State) where
    -- With a tree that takes a node out: the unlink of a child, from a region whose children tile it and
    -- where those after it name it as their parent, returns. The other children are in the region in
    -- their order and tile it still, with the gap of each, and the child is unmapped and has no parent.
    pub vmar_unlink-IsUnlinked :
        Parented s parent after
        → Returns (IsUnlinked parent x (before ++ after)) (vmar_unlink tree services x parent s)
    unfolding vmar_unlink
    vmar_unlink-IsUnlinked parented =
        let left = Tiles-before s x start before after (after_page s parent) all-Tiles in
        let out = Out-left s x start before (vmar_first_page (s x)) left (omega arith) in
        let step : Option ℕ → List ℕ → Run Store = λ o kids.
          gap_update_next o (update s parent (record (s parent) { children = kids })) >>= λ t.
          ok (gone_store t) in
        let next = ap (next_of x) split ∙ next_of_self x before after out in
        let kids = ap (tree.rb_erase x) split ∙ erases x before after out in
        subst (Returns (IsUnlinked parent x (before ++ after))) (sym (ap₂ step next kids))
          (elim (List-cases after) [
            | inl none_after ↦
                subst
                  (λ a.
                    Returns (IsUnlinked parent x (before ++ after))
                      (step (head_of a) (before ++ after)))
                  (sym none_after) (IsUnlinked-last none_after)
            | inr (h, r, more) ↦
                let up = (subst (Parented s parent) more parented).0 in
                subst
                  (λ a.
                    Returns (IsUnlinked parent x (before ++ after))
                      (step (head_of a) (before ++ after)))
                  (sym more)
                  (subst
                    (λ t.
                      Returns (IsUnlinked parent x (before ++ after))
                        (t >>= λ u. ok (gone_store u)))
                    (sym (gap_update-measured h r more up)) (IsUnlinked-next h r more))
          ])
