-- ===== src/Mem/Vmar/Tiles/Parts.antt =====
-- src/mem/vmar.c: the children before a child and those after it.
use tomato.Base.{ℕ, ◌≤◌, ◌≡◌, refl, sym, ap, subst, List, [], ◌∷◌, ◌++◌, arith}
use tomato.Mem.Vmar.{Tree, Store, vmar_first_page}
use tomato.Mem.Vmar.Tiles.{Tiles, IsTiled, page_limit}
use tomato.Mem.Vmar.Tiles.FirstFit.{Tiles-le}
use tomato.Mem.Vmar.Tiles.Insert.{after_page}
use tomato.Mem.Vmar.Tiles.Siblings.{Out}
use tomato.Mem.Vmar.Tiles.Linked.{Keeps, first_page-Keeps, after_page-Keeps}

-- What the code relies on of `rb_erase`: the node goes, and the others stay in their order.
abbrev pub Erases : Tree → Type 0
Erases tree = (x : ℕ) (l r : List ℕ) → Out x l → tree.rb_erase x (l ++ x ∷ r) ≡ l ++ r

-- The children before one and those after it.
pub Tiles-before :
    (s : Store) (x start : ℕ) (l r : List ℕ) (end : ℕ)
    → Tiles s start (l ++ x ∷ r) end
    → Tiles s start l (vmar_first_page (s x))
unfolding Tiles
Tiles-before s x start [] r end (e, p, t) = omega arith
Tiles-before s x start (y ∷ l) r end (e, p, t) = (e, p, Tiles-before s x (after_page s y) l r end t)

pub Tiles-after :
    (s : Store) (x start : ℕ) (l r : List ℕ) (end : ℕ)
    → Tiles s start (l ++ x ∷ r) end
    → (1 ≤ (s x).page_count) × Tiles s (after_page s x) r end
unfolding Tiles
Tiles-after s x start [] r end (e, p, t) = (p, t)
Tiles-after s x start (y ∷ l) r end (e, p, t) = Tiles-after s x (after_page s y) l r end t

pub Tiles-wider :
    (s : Store) (start : ℕ) (l : List ℕ) (n m : ℕ) → n ≤ m → Tiles s start l n → Tiles s start l m
unfolding Tiles
Tiles-wider s start [] n m h t = omega arith
Tiles-wider s start (y ∷ l) n m h (e, p, t) = (e, p, Tiles-wider s (after_page s y) l n m h t)

-- The first child starts inside.
pub Tiles-head :
    (s : Store) (start h : ℕ) (r : List ℕ) (end : ℕ)
    → Tiles s start (h ∷ r) end
    → vmar_first_page (s h) ≤ end
unfolding Tiles
Tiles-head s start h r end (e, p, t) =
    let later = Tiles-le s (after_page s h) r end t in omega arith

pub append_nil : (xs : List ℕ) → xs ++ [] ≡ xs
append_nil [] = refl
append_nil (x ∷ xs) = ap (λ l. x ∷ l) (append_nil xs)

pub Keeps-IsTiled :
    (x parent : ℕ) (s s' : Store) (kids : List ℕ)
    → Keeps x s s'
    → after_page s parent ≤ page_limit
    → (s' parent).children ≡ kids
    → Tiles s' (vmar_first_page (s parent)) kids (after_page s parent)
    → IsTiled s' parent
Keeps-IsTiled x parent s s' kids k b e t =
    let start = first_page-Keeps x parent s s' k in
    let end = after_page-Keeps x parent s s' k in
    record {
      tiles =
          subst (λ n. Tiles s' n (s' parent).children (after_page s' parent)) (sym start)
            (subst (λ n. Tiles s' (vmar_first_page (s parent)) (s' parent).children n) (sym end)
              (subst (λ xs. Tiles s' (vmar_first_page (s parent)) xs (after_page s parent)) (sym e)
                t));
      bounded = omega arith;
    }
