-- ===== src/Mem/Vmar/Tests.antt =====
-- Runs of src/mem/vmar.c.
use tomato.Base.{
  ◌+◌, ok, ℕ, inl, inr, ◌*◌, ◌≡◌, ◌≢◌, refl, arith, Option, none, some, List, [], ◌∷◌, Returns,
  true, false, update, success, ◌==◌,
}
use tomato.Mem.Vmar.{
  Kind, Sign, Tree, Store, vmar_link_internal, vmar_gap_update, prev_of, next_of, last_of,
  vmar_tail_gap, vmar_compare_ranges,
}
use tomato.Mem.Vmar.Unmap.{vmar_unlink}
use tomato.Mem.Vmar.Tiles.Parts.{Erases}
use tomato.Mem.Vmar.Tiles.Unlinked.{IsUnlinked, vmar_unlink-IsUnlinked}
use tomato.Mem.Vmar.Dump.{Line, vmar_dump}
use tomato.Mem.Vmar.Dump.Prefix.{vmar_dump-returns}
use tomato.Mem.Vmar.Place.{
  Services, vmar_find_gap, vmar_find_place, vmar_find_any, vmar_allocate_static, new_vmar,
  any_offset,
}
use tomato.Mem.Vmar.Tiles.{Tiles, IsTiled, first_fit, insert}
use tomato.Mem.Vmar.Tiles.Compare.{NoneEqual, FindsEqual}
use tomato.Mem.Vmar.Tiles.Fixed.{AllocatedAt, vmar_allocate_static-AllocatedAt}
use tomato.Mem.Vmar.Tiles.Link.{Inserts, HasLinked, vmar_link_internal-HasLinked}

abbrev equals : (ℕ → Sign) → List ℕ → Option ℕ
equals cmp [] = none
equals cmp (x ∷ xs) = let rest = equals cmp xs in elim (cmp x) [ Sign.equal ↦ some x | _ ↦ rest ]

abbrev remove : ℕ → List ℕ → List ℕ
remove x [] = []
remove x (y ∷ ys) = let rest = remove x ys in elim (x == y) [ true ↦ ys | false ↦ y ∷ rest ]

-- A tree that is the sequence of its nodes.
abbrev pub listed : Tree
listed = record {
  rb_find = equals;
  rb_find_add = insert;
  rb_find_first_fit = first_fit;
  rb_erase = remove;
}

-- A region of 16 pages from page 1, with the children 1 at page 3 and 2 at page 9.
abbrev sample : Store
sample =
    update
      (update
        (update (λ _. new_vmar Kind.region) 0
          (record (new_vmar Kind.region) { base = 4096; page_count = 16; children = 1 ∷ 2 ∷ [] }))
        1
        (record (new_vmar Kind.mapping) {
          base = 3 * 4096;
          page_count = 2;
          parent = some 0;
          gap = 2;
        }))
      2
      (record (new_vmar Kind.mapping) { base = 9 * 4096; page_count = 1; parent = some 0; gap = 4 })

sample-IsTiled : IsTiled sample 0
unfolding Tiles
sample-IsTiled = record {
  tiles = (refl, omega arith, (refl, omega arith, omega arith));
  bounded = omega arith;
}

-- Three pages fit between the children, two before them.
gaps :
    (vmar_find_gap listed 0 3 sample ≡ some 5)
    × (vmar_find_gap listed 0 2 sample ≡ some 1)
    × (vmar_find_gap listed 0 8 sample ≡ none)
unfolding vmar_find_gap first_fit vmar_tail_gap last_of
gaps = (refl, refl, refl)

-- The new child 3 goes between 1 and 2, whose gaps follow.
allocated :
    Returns
      (λ result.
        (result.0 ≡ success)
        × ((result.1 0).children ≡ 1 ∷ 3 ∷ 2 ∷ [])
        × ((result.1 3).base ≡ 5 * 4096)
        × ((result.1 3).gap ≡ 0)
        × ((result.1 2).gap ≡ 1))
      (vmar_allocate_static listed 0 3 any_offset 3 sample)
unfolding vmar_allocate_static vmar_find_place vmar_find_any vmar_find_gap first_fit vmar_tail_gap
    last_of vmar_link_internal insert vmar_gap_update prev_of next_of vmar_compare_ranges
allocated = (refl, refl, refl, refl, refl)

-- Child 3, of three pages from page 5 on, and both children name the region.
abbrev pub unlinked : Store
unlinked =
    update
      (update
        (update
          (update (λ _. new_vmar Kind.region) 0
            (record (new_vmar Kind.region) { base = 4096; page_count = 16; children = 1 ∷ 2 ∷ [] }))
          1
          (record (new_vmar Kind.mapping) {
            base = 3 * 4096;
            page_count = 2;
            parent = some 0;
            gap = 2;
          }))
        2
        (record (new_vmar Kind.mapping) {
          base = 9 * 4096;
          page_count = 1;
          parent = some 0;
          gap = 4;
        }))
      3 (record (new_vmar Kind.mapping) { base = 5 * 4096; page_count = 3 })

pub unlinked-IsTiled : IsTiled unlinked 0
unfolding Tiles
unlinked-IsTiled = record {
  tiles = (refl, omega arith, (refl, omega arith, omega arith));
  bounded = omega arith;
}

pub listed-Inserts : Inserts listed
listed-Inserts cmp x xs ordered none_equal = refl

vmar_link_internal-HasLinked_example :
    Returns (HasLinked 0 3 unlinked) (vmar_link_internal listed 0 3 unlinked)
vmar_link_internal-HasLinked_example =
    vmar_link_internal-HasLinked listed listed-Inserts 0 3 (λ e. absurd (omega arith)) unlinked refl
      refl unlinked-IsTiled (refl, (refl, tt)) (omega arith) (omega arith) (omega arith)
      (inr (omega arith), (inl (omega arith), tt))

abbrev equals_at : Sign → ℕ → Option ℕ → Option ℕ
equals_at c x rest = elim c [ Sign.equal ↦ some x | _ ↦ rest ]

equals_at-none :
    (c : Sign) (x : ℕ) (rest : Option ℕ)
    → equals_at c x rest ≡ none
    → (c ≢ Sign.equal) × (rest ≡ none)
equals_at-none Sign.equal x rest e = cc e
equals_at-none Sign.negative x rest e = (λ h. cc h, e)
equals_at-none Sign.positive x rest e = (λ h. cc h, e)

equals_at-some :
    (c : Sign) (x y : ℕ) (rest : Option ℕ)
    → c ≢ Sign.equal
    → equals_at c x rest ≡ some y
    → rest ≡ some y
equals_at-some Sign.equal x y rest n e = absurd (n refl)
equals_at-some Sign.negative x y rest n e = e
equals_at-some Sign.positive x y rest n e = e

equals-NoneEqual : (cmp : ℕ → Sign) (xs : List ℕ) → equals cmp xs ≡ none → NoneEqual cmp xs
equals-NoneEqual cmp [] e = tt
equals-NoneEqual cmp (x ∷ xs) e =
    let (differs, rest) = equals_at-none (cmp x) x (equals cmp xs) e in
    (differs, equals-NoneEqual cmp xs rest)

NoneEqual-equals :
    (cmp : ℕ → Sign) (xs : List ℕ) (y : ℕ) → equals cmp xs ≡ some y → ¬ NoneEqual cmp xs
NoneEqual-equals cmp [] y e n = cc e
NoneEqual-equals cmp (x ∷ xs) y e (n, ns) =
    NoneEqual-equals cmp xs y (equals_at-some (cmp x) x y (equals cmp xs) n e) ns

listed-FindsEqual : FindsEqual listed
listed-FindsEqual cmp xs ordered = (equals-NoneEqual cmp xs, NoneEqual-equals cmp xs)

-- Four pages of child 3 at the fifth page of the region, after child 1 and before child 2.
vmar_allocate_static-AllocatedAt_example :
    Returns
      (AllocatedAt listed listed-FindsEqual listed-Inserts 0 3
        (λ e. absurd (omega arith))
        16384
        4
        unlinked)
      (vmar_allocate_static listed 0 3 16384 4 unlinked)
vmar_allocate_static-AllocatedAt_example =
    vmar_allocate_static-AllocatedAt listed listed-FindsEqual listed-Inserts 0 3
      (λ e. absurd (omega arith)) 16384 4 unlinked refl refl unlinked-IsTiled (refl, (refl, tt))
      (omega arith) refl (λ e. absurd (omega arith))

-- The number of the next object, and page tables that are always there.
abbrev pub numbered : Services ℕ
numbered = record {
  virt_reserve_page_tables = λ base page_count m. ok (success, m);
  virt_populate = λ base page_count global m. ok m;
  virt_make_global = λ base page_count m. ok m;
  virt_free = λ base page_count m. ok m;
  alloc_vmar = λ m. (some m, m + 1);
  free_vmar = λ x m. m;
}

listed-Erases : Erases listed
listed-Erases x [] r o = ground arith
listed-Erases x (y ∷ l) r (n, o) = ground (arith, listed-Erases x l r o)

vmar_unlink-IsUnlinked_example :
    Returns (IsUnlinked 0 1 (2 ∷ [])) (vmar_unlink listed numbered 1 0 unlinked)
vmar_unlink-IsUnlinked_example =
    vmar_unlink-IsUnlinked 0 1 (λ e. absurd (omega arith)) unlinked [] (2 ∷ []) refl
      unlinked-IsTiled listed listed-Erases numbered (refl, tt)

vmar_dump-returns_example : (lines : List Line) × (vmar_dump 2 0 unlinked ≡ ok lines)
vmar_dump-returns_example = vmar_dump-returns 2 0 unlinked (tt, (tt, tt))
