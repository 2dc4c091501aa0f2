-- ===== src/Mem/Phys/Rounds.antt =====
-- src/mem/phys.c, the loop of `phys_add_memory`: it ends after a round for each page of the range.
use tomato.Base.{
  Returns, ◌&&◌, add_u64, sub_u64, sub_u64-eq, ℕ, zero, suc, ◌+◌, ◌-◌, ◌*◌, ◌/◌, ◌%◌, ◌^◌, ◌≤◌, ◌<◌,
  ◌≡◌, refl, ap, ◌∙◌, Option, none, some, ok, ltb, u64_mod, Bool-cases, false, true, not, ◌==◌,
  ==_refl, inl, inr, arith,
}
use native.Mathlib.Nat.{one-le-pow, pow-suc, pow-le-pow_right}
use native.Mathlib.Decide.{dec_lt}
use tomato.Mem.Phys.{
  Phys, block_size, max_level, max_size, free_internal, get_best_level_for_block, add_blocks, merge,
  add_memory, zero_range, merged, neighbor_of, take_block, is_block_free, mark_freed, put_block,
  set_block_free,
}
use tomato.Mem.Accounting.{add_total}
use tomato.Mem.Phys.Regions.{IsBest, get_best_level_for_block-IsBest}

-- The block of a level from the page level on is whole pages, and none is greater than the greatest.
pow_shift : (k : ℕ) → 2 ^ (k + 12) ≡ 2 ^ k * 4096
pow_shift zero = refl
pow_shift (suc k) =
    let shifted : suc k + 12 ≡ suc (k + 12) = omega arith in
    let doubled = pow-suc 2 (k + 12) in
    let double = pow-suc 2 k in
    ap (λ n. 2 ^ n) shifted ∙ omega (arith, pow_shift k, doubled, double)

block_size-pages : (k : ℕ) → block_size (k + 6) ≡ 2 ^ k * 4096
block_size-pages k = let sum : k + 6 + 6 ≡ k + 12 = omega arith in ap (λ n. 2 ^ n) sum ∙ pow_shift k

-- What the loop does with a level that it finds: a step of whole pages inside the range.
Step : (start end : ℕ) → Option ℕ → Type 0
Step start end none = ⊥
Step start end (some level) =
    (1 ≤ block_size level / 4096)
    × (block_size level % 4096 ≡ 0)
    × (start % block_size level ≡ 0)
    × (start + block_size level ≤ end)

IsBest-Step :
    (start end : ℕ) (o : Option ℕ)
    → start % 4096 ≡ 0
    → end % 4096 ≡ 0
    → start < end
    → end + max_size < u64_mod
    → IsBest start end max_level o
    → Step start end o
unfolding Step
IsBest-Step start end none s e h b best =
    absurd (best 6 (omega arith) (record { inside = omega arith; aligned = s }))
IsBest-Step start end (some level) s e h b (low, fits, best) = elim (dec_lt level 6) [
  | yes p ↦ absurd (best 6 p (omega arith) (record { inside = omega arith; aligned = s }))
  | no n ↦
      let k = level - 6 in
      let same : level ≡ k + 6 = omega arith in
      let pages = ap block_size same ∙ block_size-pages k in
      let size : block_size level ≤ max_size =
        pow-le-pow_right {n = 2} (omega arith) {i = level + 6} {j = 21} (omega arith) in
      let some_page : 1 ≤ 2 ^ k = one-le-pow k 2 (omega arith) in
      (omega arith, omega arith, fits.aligned, fits.inside)
]

merge-acct : (r level ptr : ℕ) (s : Phys) → (merge r level ptr s).2.acct ≡ s.acct
unfolding merge take_block
merge-acct zero level ptr s = refl
merge-acct (suc r) level ptr s =
    let neighbor = neighbor_of level ptr in
    let later = merge-acct r (level + 1) (merged ptr neighbor) (take_block level neighbor s) in
    elim (Bool-cases (not (is_block_free neighbor s))) [
      | inl used ↦ rw (merge, used) refl
      | inr free ↦ elim (Bool-cases (not (s.header neighbor == level))) [
        | inl other ↦ rw (merge, free, other) refl
        | inr same ↦ rw (merge, free, same) later
      ]
    ]

-- A block that is put there for the first time, which is not marked as allocated before.
free_internal-unchecked :
    (ptr level : ℕ) (s : Phys)
    → ptr % block_size level ≡ 0
    → (r : ℕ × Phys) × (free_internal ptr level false s ≡ ok r) × (r.1.acct ≡ s.acct)
unfolding free_internal mark_freed put_block set_block_free
free_internal-unchecked ptr level s e =
    let m = merge (max_level - 1 - level) level ptr s in
    (
      (m.0, put_block m.0 m.1 m.2),
      rw (free_internal, ==_refl _ 0 e) refl,
      merge-acct (max_level - 1 - level) level ptr s,
    )

module _ (end : ℕ) (end_aligned : end % 4096 ≡ 0) (bounded : end + max_size < u64_mod) where
  -- The loop ends in a state with the same counters, whatever number of rounds it is given that is enough.
  abbrev Ends : (start : ℕ) → Phys → Type 0
  Ends start s =
      (t : Phys) × (t.acct ≡ s.acct)
      × ((rounds : ℕ) → end ≤ start + rounds * 4096 → add_blocks rounds start end s ≡ ok (some t))

  ended :
      (rounds start : ℕ) (s : Phys)
      → ltb start end ≡ false
      → add_blocks rounds start end s ≡ ok (some s)
  unfolding add_blocks
  ended zero start s e = rw (add_blocks, e) refl
  ended (suc r) start s e = rw (add_blocks, e) refl

  -- One round of the loop, and the rest of it.
  again :
      (rounds start : ℕ) (s : Phys) (level : ℕ) (r : ℕ × Phys) (t : Phys)
      → ltb start end ≡ true
      → get_best_level_for_block start end ≡ some level
      → free_internal start level false s ≡ ok r
      → start + block_size level ≤ end
      → 1 ≤ block_size level / 4096
      → end ≤ start + rounds * 4096
      → ((more : ℕ)
          → end ≤ start + block_size level + more * 4096
          → add_blocks more (start + block_size level) end r.1 ≡ ok (some t))
      → add_blocks rounds start end s ≡ ok (some t)
  unfolding add_blocks
  again zero start s level r t going found run inside page h rest = absurd (ground arith)
  again (suc more) start s level r t going found run inside page h rest =
      rw (add_blocks, going, found, run) (rest more (omega arith))

  Ends-round :
      (start : ℕ) (s : Phys) (o : Option ℕ)
      → ltb start end ≡ true
      → get_best_level_for_block start end ≡ o
      → Step start end o
      → ((next : ℕ) (u : Phys) → next % 4096 ≡ 0 → start + 4096 ≤ next → Ends next u)
      → start % 4096 ≡ 0
      → Ends start s
  unfolding Step
  Ends-round start s none going found step later a = absurd step
  Ends-round start s (some level) going found (page, whole, aligned, inside) later a =
      let (r, run, same) = free_internal-unchecked start level s aligned in
      let (t, kept, rest) = later (start + block_size level) r.1 (omega arith) (omega arith) in
      (
        t,
        kept ∙ same,
        λ rounds h. again rounds start s level r t going found run inside page h rest,
      )

  add_blocks-Ends :
      (n start : ℕ) (s : Phys) → start % 4096 ≡ 0 → end ≤ start + n * 4096 → Ends start s
  add_blocks-Ends zero start s a e =
      let done : ltb start end ≡ false = ground arith in
      (s, refl, λ rounds h. ended rounds start s done)
  add_blocks-Ends (suc n) start s a e = elim (Bool-cases (ltb start end)) [
    | inr done ↦ (s, refl, λ rounds h. ended rounds start s done)
    | inl going ↦
        Ends-round start s (get_best_level_for_block start end) going refl
          (IsBest-Step start end (get_best_level_for_block start end) a end_aligned (ground arith)
            bounded (get_best_level_for_block-IsBest start end (ground arith)))
          (λ next u aligned far. add_blocks-Ends n next u aligned (omega arith)) a
  ]

-- For a range of whole pages that ends at least a greatest block below 2 ^ 64: the loop of
-- `phys_add_memory` ends without a failed assertion, in the same state for every number of rounds from one
-- for each page of the range on, and it leaves the counters as they are.
pub add_blocks-returns :
    (start end : ℕ) (s : Phys)
    → start % 4096 ≡ 0
    → end % 4096 ≡ 0
    → end + max_size < u64_mod
    → (t : Phys) × (t.acct ≡ s.acct)
      × ((rounds : ℕ) → (end - start) / 4096 ≤ rounds → add_blocks rounds start end s ≡ ok (some t))
add_blocks-returns start end s a e b =
    let (t, same, rest) = add_blocks-Ends end e b ((end - start) / 4096) start s a (omega arith) in
    (t, same, λ rounds h. rest rounds (omega arith))

-- The pages of a range that is added are counted in the total.
pub add_memory-total :
    (start end : ℕ) (s : Phys)
    → start ≤ end
    → start % 4096 ≡ 0
    → end % 4096 ≡ 0
    → end + max_size < u64_mod
    → Returns
        (λ t. t.acct.total ≡ add_u64 s.acct.total ((end - start) / 4096))
        (add_memory start end s)
unfolding add_memory add_total zero_range
add_memory-total start end s low a e b =
    let length : sub_u64 end start ≡ end - start = sub_u64-eq end start (omega arith) low in
    let (t, same, run) = add_blocks-returns start end (zero_range start (end - start) s) a e b in
    let tests : (start % 4096 == 0 && end % 4096 == 0) ≡ true = ground arith in
    rw (add_memory, tests, length, run ((end - start) / 4096) (omega arith))
      (ap (λ c. add_u64 c.total ((end - start) / 4096)) same)
