-- ===== src/Mem/Vmar/Dump/Prefix.antt =====
-- src/mem/vmar.c: the dump stays in its buffer.
use tomato.Base.{
  ℕ, zero, suc, ◌&&◌, ◌==◌, ◌+◌, ◌≤◌, ◌<◌, ◌≡◌, ◌≢◌, refl, sym, ap, subst, ◌∙◌, List, [], ◌∷◌, ◌++◌,
  Run, ok, halt, Returns, ◌>>=◌, ltb, lt→ltb, update, update-cases, ltb→lt, update_self, update_ne,
  length, arith, Bool-cases, inl, inr,
}
use tomato.Mem.Vmar.{Kind, Store, vmar_tail_gap}
use tomato.Mem.Vmar.Tiles.Link.{Returns-map}
use tomato.Mem.Vmar.Dump.{
  dump_prefix_size, is_empty, vmar_dump_line, DumpGlyphs, Prefix, copy_to, Line, glyphs_of, Dump,
  cut_at, descend, dump_siblings, dump_kind, vmar_dump_children, vmar_dump,
}

-- A text with its null byte, written at `i`.
copy_to-Written :
    (i : ℕ) (bs : List ℕ) (p : Prefix)
    → i + length bs < dump_prefix_size
    → Returns
        (λ q. ((j : ℕ) → j < i → q j ≡ p j) × (q (i + length bs) ≡ 0))
        (copy_to i (bs ++ 0 ∷ []) p)
unfolding copy_to
copy_to-Written i [] p h =
    let here : i + 0 ≡ i = omega arith in
    rw (copy_to, lt→ltb i dump_prefix_size (omega arith), here)
      (λ j lt. update_ne p i j 0 (λ e. absurd (omega arith)), update_self p i 0)
copy_to-Written i (b ∷ bs) p h =
    let here : i + 1 + length bs ≡ i + suc (length bs) = omega arith in
    rw (copy_to, lt→ltb i dump_prefix_size (omega arith))
      (Returns-map (λ q. ((j : ℕ) → j < i + 1 → q j ≡ update p i b j) × (q (i + 1 + length bs) ≡ 0))
        (λ q. ((j : ℕ) → j < i → q j ≡ p j) × (q (i + suc (length bs)) ≡ 0))
        (copy_to (i + 1) (bs ++ 0 ∷ []) (update p i b))
        (λ q (same, null). (
          λ j lt. same j (omega arith) ∙ update_ne p i j b (λ e. absurd (omega arith)),
          subst (λ k. q k ≡ 0) here null,
        ))
        (copy_to-Written (i + 1) bs (update p i b) (omega arith)))

lt_of_le_ne : (j n : ℕ) → j ≤ n → j ≢ n → j < n
lt_of_le_ne j n h k = ground arith

-- The text of the ancestors is as it was, with its null byte.
abbrev pub Restores : (prefix_len : ℕ) → Prefix → List Line × Prefix → Type 0
Restores prefix_len p (lines, q) = (j : ℕ) → j ≤ prefix_len → q j ≡ p j

Returns-then :
    {A B : Type 0} (P : A → Type 0) (Q : B → Type 0) (r : Run A) (f : A → Run B)
    → Returns P r
    → ((a : A) → P a → Returns Q (f a))
    → Returns Q (r >>= f)
Returns-then P Q (ok a) f p k = k a p
Returns-then P Q halt f p k = p

-- A dump that stays in the buffer and restores the text.
abbrev pub IsTidy : Dump → (x : ℕ) → Type 0
IsTidy dump x =
    (p : Prefix) (n : ℕ) → n < dump_prefix_size → p n ≡ 0 → Returns (Restores n p) (dump x p n)

cut_at-Restores :
    (n m : ℕ) (p q : Prefix) (a : List Line × Prefix)
    → n < dump_prefix_size
    → n ≤ m
    → p n ≡ 0
    → ((j : ℕ) → j < n → q j ≡ p j)
    → Restores m q a
    → Returns (Restores n p) (cut_at n a)
unfolding copy_to
cut_at-Restores n m p q (lines, r) h le z same kept =
    rw (copy_to, lt→ltb n dump_prefix_size h)
      (λ j lt. elim (update-cases r n 0 j) [
        | inl (e, here) ↦ here ∙ sym z ∙ ap p e
        | inr (k, there) ↦
            there ∙ kept j (omega arith) ∙ same j (lt_of_le_ne j n lt (λ e. k (sym e)))
      ])

descend-Restores :
    (dump : Dump) (child : ℕ) (glyphs : DumpGlyphs) (p : Prefix) (n : ℕ)
    → IsTidy dump child
    → n < dump_prefix_size
    → p n ≡ 0
    → Returns (Restores n p) (descend dump child glyphs p n)
unfolding descend
descend-Restores dump child glyphs p n tidy h z =
    elim (Bool-cases (ltb (n + length glyphs.indent) dump_prefix_size)) [
      | inr e ↦ rw (descend, e) (tidy p n h z)
      | inl e ↦
          let fits = ltb→lt (n + length glyphs.indent) dump_prefix_size e in
          rw (descend, e)
            (Returns-then _ (Restores n p) (copy_to n (glyphs.indent ++ 0 ∷ []) p) _
              (copy_to-Written n glyphs.indent p fits)
              (λ q (same, null).
                Returns-then (Restores (n + length glyphs.indent) q) (Restores n p)
                  (dump child q (n + length glyphs.indent)) _
                  (tidy q (n + length glyphs.indent) fits null)
                  (λ a kept.
                    cut_at-Restores n (n + length glyphs.indent) p q a h (omega arith) z same
                      kept)))
    ]

abbrev pub All : (ℕ → Type 0) → List ℕ → Type 0
All P [] = Unit
All P (x ∷ xs) = P x × All P xs

All-map : (P Q : ℕ → Type 0) (xs : List ℕ) → ((x : ℕ) → P x → Q x) → All P xs → All Q xs
All-map P Q [] f a = tt
All-map P Q (x ∷ xs) f (p, a) = (f x p, All-map P Q xs f a)

dump_siblings-Restores :
    (dump : Dump) (s : Store) (tail_gap : ℕ) (xs : List ℕ) (p : Prefix) (n : ℕ)
    → All (IsTidy dump) xs
    → n < dump_prefix_size
    → p n ≡ 0
    → Returns (Restores n p) (dump_siblings dump s tail_gap xs p n)
unfolding dump_siblings
dump_siblings-Restores dump s tail_gap [] p n a h z = λ j le. refl
dump_siblings-Restores dump s tail_gap (child ∷ rest) p n (tidy, a) h z =
    let glyphs = glyphs_of (is_empty rest && tail_gap == 0) in
    Returns-then (Restores n p) (Restores n p) (descend dump child glyphs p n) _
      (descend-Restores dump child glyphs p n tidy h z)
      (λ (below, q) kept.
        Returns-then (Restores n q) (Restores n p) (dump_siblings dump s tail_gap rest q n) _
          (dump_siblings-Restores dump s tail_gap rest q n a h (kept n (omega arith) ∙ z))
          (λ (others, r) still j le. still j le ∙ kept j le))

-- The vmars below one are at most so many levels deep.
abbrev pub HasDepth : (levels : ℕ) → Store → (x : ℕ) → Type 0
HasDepth zero s x = ⊥
HasDepth (suc levels) s x = All (HasDepth levels s) (s x).children

dump_kind-IsTidy :
    (dump : Dump) (s : Store) (kind : Kind) (x : ℕ)
    → All (IsTidy dump) (s x).children
    → IsTidy (dump_kind dump s kind) x
dump_kind-IsTidy dump s Kind.region x a p n h z =
    Returns-then (Restores n p) (Restores n p)
      (dump_siblings dump s (vmar_tail_gap x s).0 (s x).children p n) _
      (dump_siblings-Restores dump s (vmar_tail_gap x s).0 (s x).children p n a h z)
      (λ (lines, q) kept. kept)
dump_kind-IsTidy dump s Kind.special x a p n h z = λ j le. refl
dump_kind-IsTidy dump s Kind.mapping x a p n h z = λ j le. refl

vmar_dump_children-IsTidy :
    (levels : ℕ) (s : Store) (x : ℕ) → HasDepth levels s x → IsTidy (vmar_dump_children levels s) x
unfolding vmar_dump_children
vmar_dump_children-IsTidy zero s x d = absurd d
vmar_dump_children-IsTidy (suc levels) s x d =
    dump_kind-IsTidy (vmar_dump_children levels s) s (s x).kind x (
      All-map (HasDepth levels s) (IsTidy (vmar_dump_children levels s)) (s x).children
        (λ y e. vmar_dump_children-IsTidy levels s y e) d)

returned :
    {A B : Type 0} (P : A → Type 0) (r : Run A) (f : A → B)
    → Returns P r
    → (b : B) × ((r >>= λ a. ok (f a)) ≡ ok b)
returned P (ok a) f p = (f a, refl)
returned P halt f p = absurd p

-- Of a tree of any depth, `vmar_dump` returns with its lines: no write is past the end of the buffer for the
-- guide lines, also where the tree is deeper than the buffer has room for.
pub vmar_dump-returns :
    (levels root : ℕ) (s : Store)
    → HasDepth levels s root
    → (lines : List Line) × (vmar_dump levels root s ≡ ok lines)
unfolding vmar_dump
vmar_dump-returns levels root s d =
    returned (Restores 0 (λ _. 0)) (vmar_dump_children levels s root (λ _. 0) 0)
      (λ (lines, drawn). vmar_dump_line (s root) [] [] ∷ lines)
      (vmar_dump_children-IsTidy levels s root d (λ _. 0) 0 (omega arith) refl)
