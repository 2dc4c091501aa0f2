-- ===== src/Mem/Vmar/Tiles/Insert.antt =====
-- src/mem/vmar.c: where a vmar that overlaps no child goes into the tree of a region.
use tomato.Base.{
  ℕ, ◌+◌, ◌≤◌, ◌≡◌, ◌⊎◌, refl, ap, List, [], ◌∷◌, ◌++◌, none, true, false, leb, arith, inl, inr,
  add_u64-eq,
}
use tomato.Mem.Vmar.{Sign, Store, vmar_first_page, vmar_end_page, vmar_compare_ranges}
use tomato.Mem.Vmar.Tiles.{Tiles, insert, page_limit}
use tomato.Mem.Vmar.Tiles.FirstFit.{end_page-eq, last_end}

-- The page after a vmar.
abbrev pub after_page : Store → ℕ → ℕ
after_page s x = vmar_first_page (s x) + (s x).page_count

-- The vmar shares no page with the children.
abbrev pub Clear : Store → (child : ℕ) → List ℕ → Type 0
Clear s child [] = Unit
Clear s child (y ∷ ys) =
    ((after_page s child ≤ vmar_first_page (s y)) ⊎ (after_page s y ≤ vmar_first_page (s child)))
    × Clear s child ys

-- The next child, or the end, is not before the page.
abbrev pub Room : Store → (page : ℕ) → List ℕ → (end : ℕ) → Type 0
Room s page [] end = page ≤ end
Room s page (y ∷ ys) end = page ≤ vmar_first_page (s y)

compare_negative :
    (s : Store) (x y : ℕ)
    → after_page s x ≤ page_limit
    → after_page s x ≤ vmar_first_page (s y)
    → vmar_compare_ranges (s x) (s y) ≡ Sign.negative
unfolding vmar_compare_ranges
compare_negative s x y b h =
    let e = add_u64-eq (vmar_first_page (s x)) (s x).page_count (omega arith) in
    let test : leb (vmar_end_page (s x)) (vmar_first_page (s y)) ≡ true = ground (arith, e) in
    rw (vmar_compare_ranges, test) refl

compare_positive :
    (s : Store) (x y : ℕ)
    → after_page s x ≤ page_limit
    → after_page s y ≤ vmar_first_page (s x)
    → 1 ≤ (s x).page_count
    → 1 ≤ (s y).page_count
    → vmar_compare_ranges (s x) (s y) ≡ Sign.positive
unfolding vmar_compare_ranges
compare_positive s x y b h c d =
    let e = add_u64-eq (vmar_first_page (s x)) (s x).page_count (omega arith) in
    let f = add_u64-eq (vmar_first_page (s y)) (s y).page_count (omega arith) in
    let test : leb (vmar_end_page (s x)) (vmar_first_page (s y)) ≡ false = ground (arith, e) in
    let back : leb (vmar_end_page (s y)) (vmar_first_page (s x)) ≡ true = ground (arith, f) in
    rw (vmar_compare_ranges, test, back) refl

-- The children before and after the place of the new one.
pub record Cut (s : Store) (child start : ℕ) (xs : List ℕ) (end : ℕ) : Type 0 where
  pub before : List ℕ
  pub after : List ℕ
  pub split : xs ≡ before ++ after
  pub placed :
      insert (λ y. vmar_compare_ranges (s child) (s y)) child xs ≡ (none, before ++ child ∷ after)
  pub left : Tiles s start before (vmar_first_page (s child))
  pub right : Tiles s (last_end s start before) after end
  pub room : Room s (after_page s child) after end

place_later :
    (s : Store) (child start y : ℕ) (ys : List ℕ) (end : ℕ)
    → after_page s child ≤ page_limit
    → 1 ≤ (s child).page_count
    → vmar_first_page (s y) ≡ start + (s y).gap
    → 1 ≤ (s y).page_count
    → after_page s y ≤ vmar_first_page (s child)
    → vmar_end_page (s y) ≡ after_page s y
    → Cut s child (after_page s y) ys end
    → Cut s child start (y ∷ ys) end
unfolding insert Tiles last_end
place_later s child start y ys end b c e p h same k = record {
  before = y ∷ k.before;
  after = k.after;
  split = ap (λ l. y ∷ l) k.split;
  placed = rw (insert, compare_positive s child y b h c p, k.placed) refl;
  left = (e, p, k.left);
  right = rw same k.right;
  room = k.room;
}

pub insert-Cut :
    (s : Store) (child start : ℕ) (xs : List ℕ) (end : ℕ)
    → end ≤ page_limit
    → 1 ≤ (s child).page_count
    → start ≤ vmar_first_page (s child)
    → after_page s child ≤ end
    → Clear s child xs
    → Tiles s start xs end
    → Cut s child start xs end
unfolding insert Tiles last_end
insert-Cut s child start [] end b c low high clear t = record {
  before = [];
  after = [];
  split = refl;
  placed = refl;
  left = low;
  right = t;
  room = high;
}
insert-Cut s child start (y ∷ ys) end b c low high (inl h, clear) (e, p, t) = record {
  before = [];
  after = y ∷ ys;
  split = refl;
  placed = rw (insert, compare_negative s child y (omega arith) h) refl;
  left = low;
  right = (e, p, t);
  room = h;
}
insert-Cut s child start (y ∷ ys) end b c low high (inr h, clear) (e, p, t) =
    place_later s child start y ys end (omega arith) c e p h (end_page-eq s y ys end t b)
      (insert-Cut s child (after_page s y) ys end b c h high clear t)
