-- ===== src/Mem/Vmar/Tiles/FirstFit.antt =====
-- src/mem/vmar.c: `vmar_find_gap` against a scan of the addresses that reads no gap.
use tomato.Base.{
  ℕ, ◌+◌, ◌≤◌, ◌≡◌, refl, ◌∙◌, List, [], ◌∷◌, Option, none, some, Bool, true, false, leb,
  if◌then◌else◌, sub_u64, arith, Bool-cases, inl, inr, add_u64-eq, sub_u64-eq,
}
use tomato.Mem.Vmar.{
  Tree, Store, vmar_first_page, vmar_end_page, vmar_tail_gap, last_of, end_or_start,
}
use tomato.Mem.Vmar.Place.{vmar_find_gap}
use tomato.Mem.Vmar.Tiles.{Tiles, IsTiled, first_fit, FindsFirstFit, page_limit}

-- The lowest page from `start` on with `n` free pages before the next child or the end.
unfoldable pub lowest_gap : (n : ℕ) → Store → (start : ℕ) → List ℕ → (end : ℕ) → Option ℕ
lowest_gap n s start [] end = if leb (start + n) end then some start else none
lowest_gap n s start (x ∷ xs) end =
    let rest = lowest_gap n s (vmar_first_page (s x) + (s x).page_count) xs end in
    if leb (start + n) (vmar_first_page (s x)) then some start else rest

-- What `vmar_find_gap` computes from the fit that the tree finds and the start of the last gap.
chosen : (n : ℕ) → Store → Option ℕ → (tail end : ℕ) → Option ℕ
chosen n s (some x) tail end = some (sub_u64 (vmar_first_page (s x)) (s x).gap)
chosen n s none tail end = if leb n (sub_u64 end tail) then some tail else none

unfoldable pub last_end : Store → (start : ℕ) → List ℕ → ℕ
last_end s start [] = start
last_end s start (x ∷ xs) = last_end s (vmar_end_page (s x)) xs

pub Tiles-le : (s : Store) (start : ℕ) (xs : List ℕ) (end : ℕ) → Tiles s start xs end → start ≤ end
unfolding Tiles
Tiles-le s start [] end t = t
Tiles-le s start (x ∷ xs) end (e, p, t) =
    omega (arith, e, Tiles-le s (vmar_first_page (s x) + (s x).page_count) xs end t)

pub end_page-eq :
    (s : Store) (x : ℕ) (xs : List ℕ) (end : ℕ)
    → Tiles s (vmar_first_page (s x) + (s x).page_count) xs end
    → end ≤ page_limit
    → vmar_end_page (s x) ≡ vmar_first_page (s x) + (s x).page_count
end_page-eq s x xs end t h =
    add_u64-eq (vmar_first_page (s x)) (s x).page_count (omega (arith, Tiles-le s _ xs end t))

first_fit-nil : (fits : ℕ → Bool) → first_fit fits [] ≡ none
unfolding first_fit
first_fit-nil fits = refl

first_fit-yes :
    (fits : ℕ → Bool) (x : ℕ) (xs : List ℕ) → fits x ≡ true → first_fit fits (x ∷ xs) ≡ some x
unfolding first_fit
first_fit-yes fits x xs e = rw (first_fit, e) refl

first_fit-no :
    (fits : ℕ → Bool) (x : ℕ) (xs : List ℕ)
    → fits x ≡ false
    → first_fit fits (x ∷ xs) ≡ first_fit fits xs
unfolding first_fit
first_fit-no fits x xs e = rw (first_fit, e) refl

chosen-lowest_gap :
    (n : ℕ) (s : Store) (start : ℕ) (xs : List ℕ) (end : ℕ)
    → Tiles s start xs end
    → end ≤ page_limit
    → chosen n s (first_fit (λ x. leb n (s x).gap) xs) (last_end s start xs) end
      ≡ lowest_gap n s start xs end
unfolding chosen lowest_gap last_end Tiles
chosen-lowest_gap n s start [] end t h =
    rw (first_fit-nil (λ y. leb n (s y).gap))
      (rw (sub_u64-eq end start (omega arith) t) (ground arith))
chosen-lowest_gap n s start (x ∷ xs) end (e, p, t) h =
    let last = end_page-eq s x xs end t h in
    let rest = chosen-lowest_gap n s (vmar_first_page (s x) + (s x).page_count) xs end t h in
    let bound = Tiles-le s _ xs end t in
    elim (Bool-cases (leb n (s x).gap)) [
      | inl fits ↦ rw (first_fit-yes (λ y. leb n (s y).gap) x xs fits) (
          rw (sub_u64-eq (vmar_first_page (s x)) (s x).gap (omega arith) (omega arith))
            (ground arith))
      | inr not ↦ rw (first_fit-no (λ y. leb n (s y).gap) x xs not, last, rest) (ground arith)
    ]

end_or_start-last_of :
    (s : Store) (parent x : ℕ) (xs : List ℕ)
    → end_or_start (last_of (x ∷ xs)) parent s ≡ last_end s (vmar_end_page (s x)) xs
unfolding last_of last_end
end_or_start-last_of s parent x [] = refl
end_or_start-last_of s parent x (y ∷ xs) = end_or_start-last_of s parent y xs

tail_start :
    (s : Store) (parent : ℕ) (xs : List ℕ)
    → end_or_start (last_of xs) parent s ≡ last_end s (vmar_first_page (s parent)) xs
unfolding last_of last_end
tail_start s parent [] = refl
tail_start s parent (x ∷ xs) = end_or_start-last_of s parent x xs

find_gap-chosen :
    (tree : Tree) (n : ℕ) (s : Store) (parent : ℕ) (found : Option ℕ)
    → tree.rb_find_first_fit (λ x. leb n (s x).gap) (s parent).children ≡ found
    → vmar_find_gap tree parent n s
      ≡ chosen n s found
          (end_or_start (last_of (s parent).children) parent s)
          (vmar_end_page (s parent))
unfolding vmar_find_gap vmar_tail_gap chosen
find_gap-chosen tree n s parent none e = rw (vmar_find_gap, e) refl
find_gap-chosen tree n s parent (some x) e = rw (vmar_find_gap, e) refl

-- With a tree that finds the leftmost fit, and with children that tile the region: `vmar_find_gap` finds
-- the lowest free range of `page_count` pages, as a scan of all the children by their addresses does, and
-- finds none exactly when the scan does.
pub vmar_find_gap-lowest_gap :
    (tree : Tree) (parent page_count : ℕ) (s : Store)
    → FindsFirstFit tree
    → IsTiled s parent
    → vmar_find_gap tree parent page_count s
      ≡ lowest_gap page_count s
          (vmar_first_page (s parent))
          (s parent).children
          (vmar_first_page (s parent) + (s parent).page_count)
vmar_find_gap-lowest_gap tree parent n s finds tiled =
    let bound = Tiles-le s (vmar_first_page (s parent)) (s parent).children _ tiled.tiles in
    let whole =
      add_u64-eq (vmar_first_page (s parent)) (s parent).page_count
        (omega (arith, tiled.bounded)) in
    find_gap-chosen tree n s parent _ (finds (λ x. leb n (s x).gap) (s parent).children)
    ∙ rw (tail_start s parent (s parent).children, whole)
        (chosen-lowest_gap n s (vmar_first_page (s parent)) (s parent).children _ tiled.tiles
          tiled.bounded)
