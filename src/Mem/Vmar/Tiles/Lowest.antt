-- ===== src/Mem/Vmar/Tiles/Lowest.antt =====
-- src/mem/vmar.c: the place that `vmar_find_gap` finds, against all the places that are free.
use tomato.Base.{
  ℕ, ◌+◌, ◌≤◌, ◌<◌, ◌⊎◌, inl, inr, List, [], ◌∷◌, Option, none, some, leb, Bool-cases, arith,
}
use tomato.Mem.Vmar.{Tree, Store, vmar_first_page}
use tomato.Mem.Vmar.Place.{vmar_find_gap}
use tomato.Mem.Vmar.Tiles.{Tiles, IsTiled, FindsFirstFit}
use tomato.Mem.Vmar.Tiles.FirstFit.{lowest_gap, Tiles-le, vmar_find_gap-lowest_gap}

-- The `n` pages from `page` on meet no child.
abbrev pub Clear : (n : ℕ) → Store → List ℕ → (page : ℕ) → Type 0
Clear n s [] page = Unit
Clear n s (x ∷ xs) page =
    ((vmar_first_page (s x) + (s x).page_count ≤ page) ⊎ (page + n ≤ vmar_first_page (s x)))
    × Clear n s xs page

-- They lie between `start` and `end`, and meet no child.
abbrev pub IsFree : (n : ℕ) → Store → (start : ℕ) → List ℕ → (end page : ℕ) → Type 0
IsFree n s start xs end page = (start ≤ page) × (page + n ≤ end) × Clear n s xs page

abbrev pub Lowest : (n : ℕ) → Store → (start : ℕ) → List ℕ → (end : ℕ) → Option ℕ → Type 0
Lowest n s start xs end none = (page : ℕ) → ¬ IsFree n s start xs end page
Lowest n s start xs end (some low) =
    IsFree n s start xs end low × ((page : ℕ) → IsFree n s start xs end page → low ≤ page)

Clear-below :
    (n : ℕ) (s : Store) (start : ℕ) (xs : List ℕ) (end page : ℕ)
    → Tiles s start xs end
    → page + n ≤ start
    → Clear n s xs page
unfolding Tiles
Clear-below n s start [] end page t h = tt
Clear-below n s start (x ∷ xs) end page (e, p, t) h = (
  inr (omega arith),
  Clear-below n s (vmar_first_page (s x) + (s x).page_count) xs end page t (omega arith),
)

-- A free place is before the first child or after it.
after_first :
    (n : ℕ) (s : Store) (start x : ℕ) (xs : List ℕ) (end page : ℕ)
    → vmar_first_page (s x) < start + n
    → IsFree n s start (x ∷ xs) end page
    → IsFree n s (vmar_first_page (s x) + (s x).page_count) xs end page
after_first n s start x xs end page h (lo, hi, (inl c, cs)) = (c, hi, cs)
after_first n s start x xs end page h (lo, hi, (inr c, cs)) = absurd (omega arith)

before_first :
    (n : ℕ) (s : Store) (start x : ℕ) (xs : List ℕ) (end page : ℕ)
    → start ≤ vmar_first_page (s x)
    → IsFree n s (vmar_first_page (s x) + (s x).page_count) xs end page
    → IsFree n s start (x ∷ xs) end page
before_first n s start x xs end page h (lo, hi, cs) = (omega arith, hi, (inl lo, cs))

Lowest-after :
    (n : ℕ) (s : Store) (start x : ℕ) (xs : List ℕ) (end : ℕ) (found : Option ℕ)
    → start ≤ vmar_first_page (s x)
    → vmar_first_page (s x) < start + n
    → Lowest n s (vmar_first_page (s x) + (s x).page_count) xs end found
    → Lowest n s start (x ∷ xs) end found
Lowest-after n s start x xs end none le lt l =
    λ page f. l page (after_first n s start x xs end page lt f)
Lowest-after n s start x xs end (some low) le lt (free, least) = (
  before_first n s start x xs end low le free,
  λ page f. least page (after_first n s start x xs end page lt f),
)

lowest_gap-Lowest :
    (n : ℕ) (s : Store) (start : ℕ) (xs : List ℕ) (end : ℕ)
    → Tiles s start xs end
    → Lowest n s start xs end (lowest_gap n s start xs end)
unfolding Tiles lowest_gap
lowest_gap-Lowest n s start [] end t = elim (Bool-cases (leb (start + n) end)) [
  | inl e ↦ rw (lowest_gap, e) ((omega arith, ground arith, tt), λ page f. f.0)
  | inr e ↦ rw (lowest_gap, e) (λ page f. ground arith)
]
lowest_gap-Lowest n s start (x ∷ xs) end (e, p, t) =
    elim (Bool-cases (leb (start + n) (vmar_first_page (s x)))) [
      | inl fits ↦
          let bound = Tiles-le s (vmar_first_page (s x) + (s x).page_count) xs end t in
          let room : start + n ≤ vmar_first_page (s x) = ground arith in
          rw (lowest_gap, fits)
            (
              (
                omega arith,
                omega arith,
                (
                  inr room,
                  Clear-below n s (vmar_first_page (s x) + (s x).page_count) xs end start t
                      (omega arith),
                ),
              ),
              λ page f. f.0,
            )
      | inr not ↦
          rw (lowest_gap, not)
            (Lowest-after n s start x xs end _ (omega arith) (ground arith)
              (lowest_gap-Lowest n s (vmar_first_page (s x) + (s x).page_count) xs end t))
    ]

-- With a tree that finds the leftmost fit, and with children that tile the region: the page that
-- `vmar_find_gap` returns starts `page_count` pages inside the region that meet no child, and no lower
-- page does. Where it finds none, no page of the region does.
pub vmar_find_gap-Lowest :
    (tree : Tree) (parent page_count : ℕ) (s : Store)
    → FindsFirstFit tree
    → IsTiled s parent
    → Lowest page_count s
        (vmar_first_page (s parent))
        (s parent).children
        (vmar_first_page (s parent) + (s parent).page_count)
        (vmar_find_gap tree parent page_count s)
vmar_find_gap-Lowest tree parent n s finds tiled =
    rw (vmar_find_gap-lowest_gap tree parent n s finds tiled)
      (lowest_gap-Lowest n s (vmar_first_page (s parent)) (s parent).children _ tiled.tiles)
