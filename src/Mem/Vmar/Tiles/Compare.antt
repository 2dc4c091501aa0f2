-- ===== src/Mem/Vmar/Tiles/Compare.antt =====
-- src/mem/vmar.c: `vmar_compare_ranges` against the children of a region, and the places that meet none of them.
use tomato.Base.{
  ℕ, Bool-cases, leb, true, false, refl, ◌+◌, ◌≤◌, ◌≡◌, ◌≢◌, ◌⊎◌, ap, List, [], ◌∷◌, none, some,
  arith, inl, inr, update, update_ne, update_self,
}
use tomato.Mem.Vmar.{Vmar, Sign, Tree, Store, vmar_first_page, vmar_end_page, vmar_compare_ranges}
use tomato.Mem.Vmar.Tiles.{Tiles, page_limit}
use tomato.Mem.Vmar.Tiles.FirstFit.{Tiles-le}
use tomato.Mem.Vmar.Tiles.Lowest
use tomato.Mem.Vmar.Tiles.Insert
use tomato.Mem.Vmar.Tiles.Siblings.{Out}

-- No node compares as equal.
abbrev pub NoneEqual : (ℕ → Sign) → List ℕ → Type 0
NoneEqual cmp [] = Unit
NoneEqual cmp (x ∷ xs) = (cmp x ≢ Sign.equal) × NoneEqual cmp xs

-- What a node may compare as that stands after one that compares as the first sign.
abbrev pub MayFollow : Sign → Sign → Type 0
MayFollow Sign.positive b = Unit
MayFollow Sign.equal b = b ≢ Sign.positive
MayFollow Sign.negative b = b ≡ Sign.negative

-- The comparison agrees with the order of the nodes: the greater ones come last.
abbrev pub IsOrdered : (ℕ → Sign) → List ℕ → Type 0
IsOrdered cmp [] = Unit
IsOrdered cmp (x ∷ []) = Unit
IsOrdered cmp (x ∷ y ∷ ys) = MayFollow (cmp x) (cmp y) × IsOrdered cmp (y ∷ ys)

-- What the code relies on of `rb_find`, for a comparison that defines the order of the nodes: it finds a
-- node exactly when one compares as equal.
abbrev pub FindsEqual : Tree → Type 0
FindsEqual tree =
    (cmp : ℕ → Sign) (xs : List ℕ)
    → IsOrdered cmp xs
    → (tree.rb_find cmp xs ≡ none → NoneEqual cmp xs)
      × ((y : ℕ) → tree.rb_find cmp xs ≡ some y → ¬ NoneEqual cmp xs)

-- A vmar `v` of pages that do not wrap compares as equal exactly with a child that it meets.
compare-apart :
    (v w : Vmar)
    → vmar_first_page v + v.page_count ≤ page_limit
    → vmar_first_page w + w.page_count ≤ page_limit
    → vmar_compare_ranges v w ≢ Sign.equal
    → (vmar_first_page w + w.page_count ≤ vmar_first_page v)
      ⊎ (vmar_first_page v + v.page_count ≤ vmar_first_page w)
unfolding vmar_compare_ranges
compare-apart v w a b n = ground arith

apart-compare :
    (v w : Vmar)
    → vmar_first_page v + v.page_count ≤ page_limit
    → vmar_first_page w + w.page_count ≤ page_limit
    → (vmar_first_page w + w.page_count ≤ vmar_first_page v)
      ⊎ (vmar_first_page v + v.page_count ≤ vmar_first_page w)
    → vmar_compare_ranges v w ≢ Sign.equal
unfolding vmar_compare_ranges
apart-compare v w a b n = ground arith

MayFollow-compare :
    (v w u : Vmar)
    → vmar_first_page v + v.page_count ≤ page_limit
    → vmar_first_page u + u.page_count ≤ page_limit
    → 1 ≤ w.page_count
    → 1 ≤ u.page_count
    → vmar_first_page w + w.page_count ≤ vmar_first_page u
    → MayFollow (vmar_compare_ranges v w) (vmar_compare_ranges v u)
unfolding vmar_compare_ranges
MayFollow-compare v w u a b c d h = elim (Bool-cases (leb (vmar_end_page v) (vmar_first_page w))) [
  | inl before ↦
      let still : leb (vmar_end_page v) (vmar_first_page u) ≡ true = ground arith in
      rw (before, still) refl
  | inr reaches ↦ elim (Bool-cases (leb (vmar_end_page w) (vmar_first_page v))) [
    | inl after ↦ rw (reaches, after) tt
    | inr meets ↦
        let never : leb (vmar_end_page u) (vmar_first_page v) ≡ false = ground arith in
        rw (reaches, meets, never)
          (elim (Bool-cases (leb (vmar_end_page v) (vmar_first_page u))) [
            | inl e ↦ rw e (λ q. cc q)
            | inr e ↦ rw e (λ q. cc q)
          ])
  ]
]

-- Children that tile a region are in the order of the comparison.
pub Tiles-IsOrdered :
    (p : Store) (child start : ℕ) (xs : List ℕ) (end : ℕ)
    → end ≤ page_limit
    → Insert.after_page p child ≤ page_limit
    → Tiles p start xs end
    → IsOrdered (λ y. vmar_compare_ranges (p child) (p y)) xs
unfolding Tiles
Tiles-IsOrdered p child start [] end b c t = tt
Tiles-IsOrdered p child start (y ∷ []) end b c t = tt
Tiles-IsOrdered p child start (y ∷ z ∷ zs) end b c (e, q, (f, r, t)) =
    let last = Tiles-le p (Insert.after_page p z) zs end t in
    (
      MayFollow-compare (p child) (p y) (p z) c (omega arith) q r (omega arith),
      Tiles-IsOrdered p child (Insert.after_page p y) (z ∷ zs) end b c (f, r, t),
    )

pub NoneEqual-Clear :
    (p : Store) (child start : ℕ) (xs : List ℕ) (end : ℕ)
    → end ≤ page_limit
    → Insert.after_page p child ≤ page_limit
    → Tiles p start xs end
    → NoneEqual (λ y. vmar_compare_ranges (p child) (p y)) xs
    → Insert.Clear p child xs
unfolding Tiles
NoneEqual-Clear p child start [] end b c t n = tt
NoneEqual-Clear p child start (y ∷ ys) end b c (e, q, t) (n, ns) =
    let last = Tiles-le p (Insert.after_page p y) ys end t in
    let rest = NoneEqual-Clear p child (Insert.after_page p y) ys end b c t ns in
    elim (compare-apart (p child) (p y) c (omega arith) n) [
      | inl h ↦ (inr h, rest)
      | inr h ↦ (inl h, rest)
    ]

pub Clear-NoneEqual :
    (p : Store) (child start : ℕ) (xs : List ℕ) (end : ℕ)
    → end ≤ page_limit
    → Insert.after_page p child ≤ page_limit
    → Tiles p start xs end
    → Insert.Clear p child xs
    → NoneEqual (λ y. vmar_compare_ranges (p child) (p y)) xs
unfolding Tiles
Clear-NoneEqual p child start [] end b c t n = tt
Clear-NoneEqual p child start (y ∷ ys) end b c (e, q, t) (n, ns) =
    let last = Tiles-le p (Insert.after_page p y) ys end t in
    let rest = Clear-NoneEqual p child (Insert.after_page p y) ys end b c t ns in
    elim n [
      | inl h ↦ (apart-compare (p child) (p y) c (omega arith) (inr h), rest)
      | inr h ↦ (apart-compare (p child) (p y) c (omega arith) (inl h), rest)
    ]

-- A place of a vmar that meets no child.
pub Clear-taken :
    (s : Store) (x : ℕ) (v : Vmar) (n page : ℕ) (xs : List ℕ)
    → Out x xs
    → vmar_first_page v ≡ page
    → v.page_count ≡ n
    → Insert.Clear (update s x v) x xs
    → Lowest.Clear n s xs page
Clear-taken s x v n page [] o e c h = tt
Clear-taken s x v n page (y ∷ ys) (m, o) e c (inl h, hs) =
    let first = ap vmar_first_page (update_self s x v) in
    let size = ap (λ w. w.page_count) (update_self s x v) in
    let start = ap vmar_first_page (update_ne s x y v m) in
    (inr (omega arith), Clear-taken s x v n page ys o e c hs)
Clear-taken s x v n page (y ∷ ys) (m, o) e c (inr h, hs) =
    let first = ap vmar_first_page (update_self s x v) in
    let start = ap vmar_first_page (update_ne s x y v m) in
    let count = ap (λ w. w.page_count) (update_ne s x y v m) in
    (inl (omega arith), Clear-taken s x v n page ys o e c hs)

pub Clear-before :
    (s : Store) (x : ℕ) (v : Vmar) (n page : ℕ) (xs : List ℕ)
    → Out x xs
    → Lowest.Clear n (update s x v) xs page
    → Lowest.Clear n s xs page
Clear-before s x v n page [] o c = tt
Clear-before s x v n page (y ∷ ys) (m, o) (c, cs) =
    let start = ap vmar_first_page (update_ne s x y v m) in
    let count = ap (λ w. w.page_count) (update_ne s x y v m) in
    (
      elim c [ inl h ↦ inl (omega arith) | inr h ↦ inr (omega arith) ],
      Clear-before s x v n page ys o cs,
    )
