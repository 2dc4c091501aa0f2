-- ===== src/Mem/Phys/Regions.antt =====
-- src/mem/phys.c, `get_best_level_for_block`: how a range of memory is cut into blocks.
use native.Mathlib.Decide.{ℕ_discrete}
use native.Mathlib.Nat.{pow-le-pow_right}
use tomato.Base.{
  ℕ, zero, suc, ◌%◌, ◌≤◌, ◌<◌, ◌≡◌, Option, none, some, ltb, ◌==◌, add_u64, add_u64-eq, u64_mod,
  ◌+◌, Bool-cases, inl, inr, arith,
}
use tomato.Mem.Phys.{block_size, max_level, max_size, best_level_below, get_best_level_for_block}

-- A block of the level fits the range at its start, aligned to its own size.
pub record Fits (start end level : ℕ) : Type 0 where
  pub inside : start + block_size level ≤ end
  pub aligned : start % block_size level ≡ 0

-- The greatest level below `i` that fits, or none.
abbrev pub IsBest : (start end i : ℕ) → Option ℕ → Type 0
IsBest start end i none = (j : ℕ) → j < i → ¬ Fits start end j
IsBest start end i (some level) =
    (level < i) × Fits start end level × ((j : ℕ) → level < j → j < i → ¬ Fits start end j)

IsBest-suc :
    (start end i : ℕ) (o : Option ℕ)
    → ¬ Fits start end i
    → IsBest start end i o
    → IsBest start end (suc i) o
IsBest-suc start end i none no_fit b =
    λ j h. elim (ℕ_discrete j i) [ yes e ↦ rw e no_fit | no n ↦ b j (omega arith) ]
IsBest-suc start end i (some level) no_fit (lt, fits, best) = (
  omega arith,
  fits,
  λ j p h. elim (ℕ_discrete j i) [ yes e ↦ rw e no_fit | no n ↦ best j p (omega arith) ],
)

-- The end of a block does not wrap.
block_end :
    (i start : ℕ)
    → i < max_level
    → start + max_size < u64_mod
    → add_u64 start (block_size i) ≡ start + block_size i
block_end i start h b =
    add_u64-eq start (block_size i)
      (omega (arith, pow-le-pow_right {n = 2} (omega arith) {i = i + 6} {j = 21} (omega arith)))

best_level_below-IsBest :
    (i start end : ℕ)
    → i ≤ max_level
    → start + max_size < u64_mod
    → IsBest start end i (best_level_below i start end)
unfolding best_level_below
best_level_below-IsBest zero start end le b = λ j h. absurd (omega arith)
best_level_below-IsBest (suc i) start end le b =
    let whole = block_end i start (omega arith) b in
    elim (Bool-cases (ltb end (add_u64 start (block_size i)))) [
      | inl over ↦ rw over (
          IsBest-suc start end i _ (λ f. ground (arith, f.inside, whole))
            (best_level_below-IsBest i start end (omega arith) b))
      | inr inside ↦ elim (Bool-cases (start % block_size i == 0)) [
        | inl aligned ↦
            rw (inside, aligned)
              (
                omega arith,
                record { inside = ground (arith, whole); aligned = ground arith },
                λ j p h. absurd (omega arith),
              )
        | inr skew ↦
            rw (inside, skew)
              (IsBest-suc start end i _ (λ f. ground (arith, f.aligned))
                (best_level_below-IsBest i start end (omega arith) b))
      ]
    ]

-- For a start at least a greatest block below 2 ^ 64: `get_best_level_for_block` returns the greatest
-- level whose block is aligned at the start of the range and ends inside it, and fails exactly when no
-- level does.
pub get_best_level_for_block-IsBest :
    (start end : ℕ)
    → start + max_size < u64_mod
    → IsBest start end max_level (get_best_level_for_block start end)
unfolding get_best_level_for_block
get_best_level_for_block-IsBest start end b =
    best_level_below-IsBest max_level start end (omega arith) b
