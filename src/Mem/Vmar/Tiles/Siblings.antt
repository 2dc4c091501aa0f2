-- ===== src/Mem/Vmar/Tiles/Siblings.antt =====
-- src/mem/vmar.c: the siblings of a vmar that stands in the tree, and the gaps around it.
use tomato.Base.{
  ℕ, ◌+◌, ◌≤◌, ◌<◌, ◌≡◌, ◌≢◌, ◌==◌, refl, ap, ◌∙◌, List, [], ◌∷◌, ◌++◌, Option, none, some, true,
  false, arith,
}
use tomato.Mem.Vmar.{Store, vmar_first_page, vmar_end_page, prev_of, next_of, last_of, end_or_start}
use tomato.Mem.Vmar.Tiles.{Tiles, page_limit}
use tomato.Mem.Vmar.Tiles.FirstFit.{Tiles-le, end_page-eq, last_end}
use tomato.Mem.Vmar.Tiles.Insert.{after_page}

-- The vmar is none of the children.
abbrev pub Out : (x : ℕ) → List ℕ → Type 0
Out x [] = Unit
Out x (y ∷ ys) = (x ≢ y) × Out x ys

abbrev pub head_of : List ℕ → Option ℕ
head_of [] = none
head_of (x ∷ xs) = some x

eq_no : (x y : ℕ) → x ≢ y → (y == x) ≡ false
eq_no x y h = ground arith

eq_yes : (x : ℕ) → (x == x) ≡ true
eq_yes x = ground arith

prev_of-out : (x a : ℕ) (r : List ℕ) → Out x r → prev_of x (a ∷ r) ≡ none
unfolding prev_of
prev_of-out x a [] o = refl
prev_of-out x a (b ∷ r) (n, o) = rw (prev_of, eq_no x b n) (prev_of-out x b r o)

pub prev_of_self : (x : ℕ) (l r : List ℕ) → Out x l → Out x r → prev_of x (l ++ x ∷ r) ≡ last_of l
unfolding prev_of last_of
prev_of_self x [] r o q = prev_of-out x x r q
prev_of_self x (a ∷ []) r o q = rw (prev_of, eq_yes x) refl
prev_of_self x (a ∷ b ∷ l) r (n, (m, o)) q =
    rw (prev_of, eq_no x b m) (prev_of_self x (b ∷ l) r (m, o) q)

-- The one after the new one.
pub prev_of-next : (x y : ℕ) (l r : List ℕ) → Out y l → y ≢ x → prev_of y (l ++ x ∷ y ∷ r) ≡ some x
unfolding prev_of
prev_of-next x y [] r o n = rw (prev_of, eq_yes y) refl
prev_of-next x y (a ∷ []) r o n = rw (prev_of, eq_no y x n) (prev_of-next x y [] r tt n)
prev_of-next x y (a ∷ b ∷ l) r (m, (k, o)) n =
    rw (prev_of, eq_no y b k) (prev_of-next x y (b ∷ l) r (k, o) n)

pub next_of_self : (x : ℕ) (l r : List ℕ) → Out x l → next_of x (l ++ x ∷ r) ≡ head_of r
unfolding next_of
next_of_self x [] [] o = refl
next_of_self x [] (b ∷ r) o = rw (next_of, eq_yes x) refl
next_of_self x (a ∷ []) r (n, o) = rw (next_of, eq_no x a n) (next_of_self x [] r tt)
next_of_self x (a ∷ b ∷ l) r (n, o) = rw (next_of, eq_no x a n) (next_of_self x (b ∷ l) r o)

-- Where the gap of a vmar starts.
last_end-some :
    (s : Store) (parent d b : ℕ) (l : List ℕ)
    → end_or_start (last_of (b ∷ l)) parent s ≡ last_end s d (b ∷ l)
unfolding last_of last_end
last_end-some s parent d b [] = refl
last_end-some s parent d b (c ∷ l) = last_end-some s parent (vmar_end_page (s b)) c l

pub last_end-eq :
    (s : Store) (parent : ℕ) (l : List ℕ)
    → end_or_start (last_of l) parent s ≡ last_end s (vmar_first_page (s parent)) l
unfolding last_of last_end
last_end-eq s parent [] = refl
last_end-eq s parent (b ∷ l) = last_end-some s parent (vmar_first_page (s parent)) b l

pub last_end-le :
    (s : Store) (start : ℕ) (l : List ℕ) (n : ℕ)
    → Tiles s start l n
    → n ≤ page_limit
    → last_end s start l ≤ n
unfolding Tiles last_end
last_end-le s start [] n t b = t
last_end-le s start (y ∷ l) n (e, p, t) b =
    rw (end_page-eq s y l n t b) (last_end-le s (after_page s y) l n t b)

-- A vmar from a page on is none of those before it, and one before the first is none of them.
pub Out-left :
    (s : Store) (z start : ℕ) (l : List ℕ) (n : ℕ)
    → Tiles s start l n
    → n ≤ vmar_first_page (s z)
    → Out z l
unfolding Tiles
Out-left s z start [] n t h = tt
Out-left s z start (y ∷ l) n (e, p, t) h =
    let later = Tiles-le s (after_page s y) l n t in
    (
      λ same. let pages = ap (λ i. vmar_first_page (s i)) same in omega arith,
      Out-left s z (after_page s y) l n t h,
    )

pub Out-right :
    (s : Store) (z d : ℕ) (r : List ℕ) (end : ℕ)
    → Tiles s d r end
    → vmar_first_page (s z) < d
    → Out z r
unfolding Tiles
Out-right s z d [] end t h = tt
Out-right s z d (y ∷ r) end (e, p, t) h = (
  λ same. let pages = ap (λ i. vmar_first_page (s i)) same in omega arith,
  Out-right s z (after_page s y) r end t (omega arith),
)

-- The vmars with the new one between them.
pub Tiles-join :
    (s : Store) (child start : ℕ) (l r : List ℕ) (end : ℕ)
    → Tiles s start l (vmar_first_page (s child))
    → vmar_first_page (s child) ≤ page_limit
    → vmar_first_page (s child) ≡ last_end s start l + (s child).gap
    → 1 ≤ (s child).page_count
    → Tiles s (after_page s child) r end
    → Tiles s start (l ++ child ∷ r) end
unfolding Tiles last_end
Tiles-join s child start [] r end t b g c u = (g, c, u)
Tiles-join s child start (y ∷ l) r end (e, p, t) b g c u =
    let same = end_page-eq s y l (vmar_first_page (s child)) t b in
    (
      e,
      p,
      Tiles-join s child (after_page s y) l r end t b
          (g ∙ ap (λ d. last_end s d l + (s child).gap) same) c u,
    )
