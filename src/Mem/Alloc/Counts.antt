-- ===== src/Mem/Alloc/Counts.antt =====
-- src/mem/alloc.c: the use count of a slab and its free list.
use tomato.Base.{
  ℕ, ◌%◌, ◌+◌, ◌≤◌, ◌<◌, ◌≡◌, ◌≢◌, refl, ap, sym, ◌∙◌, ◌⊎◌, inl, inr, ◌==◌, ==_iff, Option, some,
  List, [], ◌∷◌, ok, Returns, length, update, update_self, update_ne, if◌then◌else◌, Bool-cases,
  List-cases, arith,
}
use tomato.Mem.Alloc.{Meta, Slab, Allocator, take_object, list_del, fill, unlink}

-- Every object of the slab is free or in use.
abbrev pub IsCounted : Meta → Slab → Type 0
IsCounted meta slab =
    (length slab.free + slab.in_use ≡ meta.objects_per_slab) × (meta.objects_per_slab < 65536)

-- The slab `x` has one object fewer to give, the others are as they were, and the slab has gone to the
-- full list exactly when that was its last one.
pub record Took (meta : Meta) (x : ℕ) (a : Allocator) (result : Option ℕ × Allocator) : Type 0 where
  pub object : ℕ
  pub given : result.0 ≡ some object
  pub first : (a.slab x).free ≡ object ∷ (result.1.slab x).free
  pub counted : IsCounted meta (result.1.slab x)
  pub in_use : (result.1.slab x).in_use ≡ (a.slab x).in_use + 1
  pub others : (y : ℕ) → x ≢ y → result.1.slab y ≡ a.slab y
  pub lists :
      (((result.1.slab x).free ≡ [])
        × (result.1.full ≡ x ∷ list_del x a.full)
        × (result.1.partial ≡ list_del x a.partial)
        × (result.1.empty ≡ list_del x a.empty))
      ⊎ ((1 ≤ length (result.1.slab x).free)
          × (result.1.full ≡ a.full)
          × (result.1.partial ≡ a.partial)
          × (result.1.empty ≡ a.empty))

length-nil : (xs : List ℕ) → length xs ≡ 0 → xs ≡ []
length-nil [] e = refl
length-nil (x ∷ xs) e = absurd (omega (arith, e))

module _ (meta : Meta) (x object : ℕ) (rest : List ℕ) (a : Allocator) where
  -- The slab with its first object taken.
  abbrev used : Slab
  used = record { free = rest; alloc = (a.slab x).alloc; in_use = (a.slab x).in_use + 1 }

  abbrev taken : Allocator
  taken = record a { slab = update a.slab x used; bytes = fill object 0 16 a.bytes }

  abbrev moved : Allocator
  moved = record (unlink x taken) { full = x ∷ list_del x a.full }

  take_object-eq :
      (a.slab x).free ≡ object ∷ rest
      → (a.slab x).in_use + 1 < 65536
      → take_object meta x a
        ≡ ok (some object, if (a.slab x).in_use + 1 == meta.objects_per_slab then moved else taken)
  unfolding take_object
  take_object-eq e small =
      let fits : ((a.slab x).in_use + 1) % 65536 ≡ (a.slab x).in_use + 1 = omega arith in
      rw (take_object, e, fits) refl

  take_object-some :
      (a.slab x).free ≡ object ∷ rest
      → IsCounted meta (a.slab x)
      → Returns (Took meta x a) (take_object meta x a)
  take_object-some e (c, small) =
      let more : length rest + ((a.slab x).in_use + 1) ≡ meta.objects_per_slab =
        omega (arith, ap length e) in
      let now = update_self a.slab x used in
      rw (take_object-eq e (omega arith))
        (elim (Bool-cases ((a.slab x).in_use + 1 == meta.objects_per_slab)) [
          | inl full ↦
              let last : (a.slab x).in_use + 1 ≡ meta.objects_per_slab = (==_iff _ _).0 full in
              rw full (record {
                object = object;
                given = refl;
                first = e ∙ ap (λ l. object ∷ l) (sym (ap (λ t. t.free) now));
                counted = rw now (more, small);
                in_use = ap (λ t. t.in_use) now;
                others = λ y n. update_ne a.slab x y used n;
                lists =
                    inl (ap (λ t. t.free) now ∙ length-nil rest (omega arith), refl, refl, refl);
              })
          | inr more_left ↦
              let left : (a.slab x).in_use + 1 ≢ meta.objects_per_slab = λ q. ground arith in
              rw more_left (record {
                object = object;
                given = refl;
                first = e ∙ ap (λ l. object ∷ l) (sym (ap (λ t. t.free) now));
                counted = rw now (more, small);
                in_use = ap (λ t. t.in_use) now;
                others = λ y n. update_ne a.slab x y used n;
                lists = inr (rw now (omega arith), refl, refl, refl);
              })
        ])

-- From a slab whose objects are all free or in use, with one that is free: the first free object is
-- given out and the slab is counted again, with one more in use. The other slabs are as they were, and
-- the slab is moved from the list that it was on to the full list exactly when it has no free object
-- left: else all three lists are as they were.
pub take_object-Took :
    (meta : Meta) (x : ℕ) (a : Allocator)
    → IsCounted meta (a.slab x)
    → (a.slab x).in_use < meta.objects_per_slab
    → Returns (Took meta x a) (take_object meta x a)
take_object-Took meta x a c free = elim (List-cases (a.slab x).free) [
  | inl e ↦ absurd (omega (arith, ap length e, c.0))
  | inr (object, rest, e) ↦ take_object-some meta x object rest a e c
]
