-- ===== src/Mem/Vmar/Tiles/Linked.antt =====
-- src/mem/vmar.c: `vmar_link_internal` keeps the children of a region tiled.
use tomato.Base.{
  ℕ, ◌+◌, ◌/◌, ◌≤◌, ◌≡◌, ◌≢◌, refl, sym, ap, ap₂, subst, ◌∙◌, List, [], ◌∷◌, ◌++◌, Option, none,
  some, arith, Run, ok, halt, update, update-cases, inl, inr, sub_u64,
}
use tomato.Mem.Vmar.{
  Vmar, Store, vmar_first_page, vmar_end_page, prev_of, end_or_start, vmar_gap_update,
}
use tomato.Mem.Vmar.Tiles.{Tiles, page_limit}
use tomato.Mem.Vmar.Tiles.FirstFit.{last_end}
use tomato.Mem.Vmar.Tiles.Insert.{after_page}
use tomato.Mem.Vmar.Tiles.Siblings.{Out, Tiles-join}

-- A vmar has its pages still, and its parent.
pub record SamePages (v v' : Vmar) : Type 0 where
  pub base : v'.base ≡ v.base
  pub page_count : v'.page_count ≡ v.page_count

-- All vmars have their pages, and all but one their gap.
pub record Keeps (x : ℕ) (s s' : Store) : Type 0 where
  pub base : (y : ℕ) → (s' y).base ≡ (s y).base
  pub page_count : (y : ℕ) → (s' y).page_count ≡ (s y).page_count
  pub gap : (y : ℕ) → x ≢ y → (s' y).gap ≡ (s y).gap

pub Keeps-trans : {x : ℕ} {s t u : Store} → Keeps x s t → Keeps x t u → Keeps x s u
Keeps-trans k l = record {
  base = λ y. l.base y ∙ k.base y;
  page_count = λ y. l.page_count y ∙ k.page_count y;
  gap = λ y n. l.gap y n ∙ k.gap y n;
}

-- A change of one vmar that keeps its pages, and its gap if it is another one.
pub Keeps-update :
    (x z : ℕ) (s : Store) (v : Vmar)
    → v.base ≡ (s z).base
    → v.page_count ≡ (s z).page_count
    → (x ≢ z → v.gap ≡ (s z).gap)
    → Keeps x s (update s z v)
Keeps-update x z s v b c g = record {
  base = λ y. elim (update-cases s z v y) [
    | inl (e, h) ↦ ap (λ w. w.base) h ∙ b ∙ ap (λ i. (s i).base) e
    | inr (n, h) ↦ ap (λ w. w.base) h
  ];
  page_count = λ y. elim (update-cases s z v y) [
    | inl (e, h) ↦ ap (λ w. w.page_count) h ∙ c ∙ ap (λ i. (s i).page_count) e
    | inr (n, h) ↦ ap (λ w. w.page_count) h
  ];
  gap = λ y n. elim (update-cases s z v y) [
    | inl (e, h) ↦ ap (λ w. w.gap) h ∙ g (λ same. n (same ∙ e)) ∙ ap (λ i. (s i).gap) e
    | inr (m, h) ↦ ap (λ w. w.gap) h
  ];
}

-- Tiles without the vmar stay, with their ends.
pub Tiles-Keeps :
    (x : ℕ) (s s' : Store) (start : ℕ) (xs : List ℕ) (end : ℕ)
    → Keeps x s s'
    → Out x xs
    → Tiles s start xs end
    → Tiles s' start xs end
unfolding Tiles
Tiles-Keeps x s s' start [] end k o t = t
Tiles-Keeps x s s' start (y ∷ ys) end k (n, o) (e, p, t) =
    rw (k.base y, k.page_count y, k.gap y n)
      (e, p, Tiles-Keeps x s s' (vmar_first_page (s y) + (s y).page_count) ys end k o t)

pub last_end-Keeps :
    (x : ℕ) (s s' : Store) (start : ℕ) (xs : List ℕ)
    → Keeps x s s'
    → last_end s' start xs ≡ last_end s start xs
unfolding last_end
last_end-Keeps x s s' start [] k = refl
last_end-Keeps x s s' start (y ∷ ys) k =
    rw (k.base y, k.page_count y) (last_end-Keeps x s s' (vmar_end_page (s y)) ys k)

-- A gap that is measured.
abbrev pub gap_at : (x : ℕ) → Store → (before : Option ℕ) → (parent : ℕ) → Run Store
gap_at x s before parent = ok (
    update s x
      (record (s x) { gap = sub_u64 (vmar_first_page (s x)) (end_or_start before parent s) }))

pub gap_update-eq :
    (x parent : ℕ) (s : Store) (children : List ℕ) (before : Option ℕ)
    → (s x).parent ≡ some parent
    → (s parent).children ≡ children
    → prev_of x children ≡ before
    → vmar_gap_update x s ≡ gap_at x s before parent
unfolding vmar_gap_update
gap_update-eq x parent s children before p c e =
    ap
      (λ o. elim o as (λ _. Run Store) [
        | none ↦ halt
        | some q ↦ gap_at x s (prev_of x (s q).children) q
      ])
      p
    ∙ ap (λ b. gap_at x s b parent) (ap (prev_of x) c ∙ e)

pub first_page-Keeps :
    (x y : ℕ) (s s' : Store) → Keeps x s s' → vmar_first_page (s' y) ≡ vmar_first_page (s y)
first_page-Keeps x y s s' k = ap (λ b. b / 4096) (k.base y)

pub after_page-Keeps : (x y : ℕ) (s s' : Store) → Keeps x s s' → after_page s' y ≡ after_page s y
after_page-Keeps x y s s' k = ap₂ (λ b c. b / 4096 + c) (k.base y) (k.page_count y)

-- The new vmar is the last one.
pub join-last :
    (child start end : ℕ) (before : List ℕ) (t u : Store)
    → Keeps child t u
    → Out child before
    → Tiles t start before (vmar_first_page (t child))
    → after_page t child ≤ end
    → end ≤ page_limit
    → 1 ≤ (t child).page_count
    → vmar_first_page (t child) ≡ last_end t start before + (u child).gap
    → Tiles u start (before ++ child ∷ []) end
unfolding Tiles
join-last child start end before t u k o left room b c g =
    let page = first_page-Keeps child child t u k in
    let last = last_end-Keeps child t u start before k in
    let count = k.page_count child in
    let after = after_page-Keeps child child t u k in
    Tiles-join u child start before [] end
      (subst (λ n. Tiles u start before n) (sym page)
        (Tiles-Keeps child t u start before (vmar_first_page (t child)) k o left))
      (omega arith) (omega arith) (omega arith) (omega arith)

-- Another one follows, with its gap measured again.
pub join-before :
    (child h start end : ℕ) (before rest : List ℕ) (t u v : Store)
    → Keeps child t u
    → Keeps h u v
    → h ≢ child
    → Out child before
    → Out h before
    → Out child rest
    → Out h rest
    → Tiles t start before (vmar_first_page (t child))
    → Tiles t (after_page t h) rest end
    → after_page t child ≤ vmar_first_page (t h)
    → vmar_first_page (t child) ≤ page_limit
    → 1 ≤ (t child).page_count
    → 1 ≤ (t h).page_count
    → vmar_first_page (t child) ≡ last_end t start before + (u child).gap
    → vmar_first_page (t h) ≡ after_page t child + (v h).gap
    → Tiles v start (before ++ child ∷ h ∷ rest) end
unfolding Tiles
join-before child h start end before rest t u v k l n o p q r left right room b c d g f =
    let page = first_page-Keeps h child u v l ∙ first_page-Keeps child child t u k in
    let page_h = first_page-Keeps h h u v l ∙ first_page-Keeps child h t u k in
    let last = last_end-Keeps h u v start before l ∙ last_end-Keeps child t u start before k in
    let count = l.page_count child ∙ k.page_count child in
    let count_h = l.page_count h ∙ k.page_count h in
    let after = after_page-Keeps h child u v l ∙ after_page-Keeps child child t u k in
    let after_h = after_page-Keeps h h u v l ∙ after_page-Keeps child h t u k in
    let gap = l.gap child n in
    Tiles-join v child start before (h ∷ rest) end
      (subst (λ m. Tiles v start before m) (sym page)
        (Tiles-Keeps h u v start before (vmar_first_page (t child)) l p
          (Tiles-Keeps child t u start before (vmar_first_page (t child)) k o left)))
      (omega arith) (omega arith) (omega arith)
      (
        omega arith,
        omega arith,
        subst (λ m. Tiles v m rest end) (sym after_h)
            (Tiles-Keeps h u v (after_page t h) rest end l r
              (Tiles-Keeps child t u (after_page t h) rest end k q right)),
      )
