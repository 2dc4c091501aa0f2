-- ===== src/Mem/Vmar/Tiles.antt =====
-- src/mem/vmar.c: the children of a region in address order, each with its gap, and what the code relies
-- on of the tree that holds them.
pub mod FirstFit
pub mod Lowest
pub mod Insert
pub mod Siblings
pub mod Linked
pub mod Kept
pub mod Link
pub mod Placed
pub mod Shape
pub mod Parts
pub mod Unlinked
pub mod Compare
pub mod Fixed
use tomato.Base.{ℕ, ◌+◌, ◌≤◌, ◌≡◌, List, [], ◌∷◌, Option, none, some, Bool, true, false}
use tomato.Mem.Vmar.{Sign, Tree, Store, vmar_first_page}

-- The children lie one after the other in the pages from `start` to `end`, and `gap` of each is the
-- number of pages before it.
unfoldable pub Tiles : Store → (start : ℕ) → List ℕ → (end : ℕ) → Type 0
Tiles s start [] end = start ≤ end
Tiles s start (x ∷ xs) end =
    (vmar_first_page (s x) ≡ start + (s x).gap)
    × (1 ≤ (s x).page_count)
    × Tiles s (vmar_first_page (s x) + (s x).page_count) xs end

-- An address has 64 bits, and a page 4096 bytes.
abbrev pub page_limit : ℕ
page_limit = 4503599627370496

pub record IsTiled (s : Store) (parent : ℕ) : Type 0 where
  pub tiles :
      Tiles s
        (vmar_first_page (s parent))
        (s parent).children
        (vmar_first_page (s parent) + (s parent).page_count)
  pub bounded : vmar_first_page (s parent) + (s parent).page_count ≤ page_limit

-- The first node that fits.
unfoldable pub first_fit : (ℕ → Bool) → List ℕ → Option ℕ
first_fit fits [] = none
first_fit fits (x ∷ xs) =
    let rest = first_fit fits xs in elim (fits x) [ true ↦ some x | false ↦ rest ]

-- "Find the leftmost node that fits", as rbtree_augmented.h documents `rb_find_first_fit`.
abbrev pub FindsFirstFit : Tree → Type 0
FindsFirstFit tree =
    (fits : ℕ → Bool) (xs : List ℕ) → tree.rb_find_first_fit fits xs ≡ first_fit fits xs

-- The node stands before the first one that it compares as less than, unless it equals one on the way.
unfoldable pub insert : (cmp : ℕ → Sign) → ℕ → List ℕ → Option ℕ × List ℕ
insert cmp x [] = (none, x ∷ [])
insert cmp x (y ∷ ys) =
    let (clash, rest) = insert cmp x ys in
    elim (cmp y) [
      | Sign.negative ↦ (none, x ∷ y ∷ ys)
      | Sign.equal ↦ (some y, y ∷ ys)
      | Sign.positive ↦ (clash, y ∷ rest)
    ]
