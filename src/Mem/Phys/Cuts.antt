-- ===== src/Mem/Phys/Cuts.antt =====
-- src/mem/phys.c, `phys_alloc_internal`: which block an allocation hands out, and what the free lists are
-- after it.
use native.Mathlib.Decide.{ℕ_discrete}
use native.Mathlib.Nat.{pow-suc}
use tomato.Base.{
  ◌/◌, ℕ, zero, suc, ◌+◌, ◌-◌, ◌*◌, ◌^◌, ◌≤◌, ◌<◌, ◌≡◌, ◌≢◌, refl, sym, ap, ◌∙◌, ◌⊎◌, inl, inr,
  List, [], ◌∷◌, update_ne, update_self, ==_refl, arith,
}
use tomato.Mem.Phys.{
  Phys, block_size, split, put_block, take_block, set_block_free, set_block_allocated, max_level,
}
use tomato.Mem.Accounting.{Accounting}

-- Where the block is from: it was the first one of the lowest list, from its level on, that is not empty.
-- It has left that list, the upper halves that were split off are alone on the lists between, and all
-- other lists are as they were.
pub record Cuts (level b : ℕ) (s t : Phys) : Type 0 where
  pub found : ℕ
  pub from : level ≤ found
  pub to : found < max_level
  pub skipped : (j : ℕ) → level ≤ j → j < found → s.levels j ≡ []
  pub first : s.levels found ≡ b ∷ t.levels found
  pub halves : (j : ℕ) → level ≤ j → j < found → t.levels j ≡ (b + block_size j) ∷ []
  pub others : (j : ℕ) → (j < level) ⊎ (found < j) → t.levels j ≡ s.levels j

levels-put_block : (k b j : ℕ) (s : Phys) → k ≢ j → (put_block k b s).levels j ≡ s.levels j
unfolding put_block set_block_free
levels-put_block k b j s n = update_ne s.levels k j _ n

half-eq : (k : ℕ) → block_size (suc k) / 2 ≡ block_size k
half-eq k =
    let up : suc k + 6 ≡ suc (k + 6) = omega arith in
    let double : 2 ^ (suc k + 6) ≡ 2 ^ (k + 6) * 2 = ap (λ n. 2 ^ n) up ∙ pow-suc 2 (k + 6) in
    omega arith

split-levels_out :
    (d k b j : ℕ) (s : Phys) → d ≤ k → (j < k - d) ⊎ (k ≤ j) → (split d k b s).levels j ≡ s.levels j
unfolding split
split-levels_out zero k b j s le out = refl
split-levels_out (suc d) k b j s le out =
    split-levels_out d (k - 1) b j (put_block (k - 1) (b + block_size k / 2) s) (omega arith)
      (elim out [ inl h ↦ inl (omega arith) | inr h ↦ inr (omega arith) ])
    ∙ levels-put_block (k - 1) _ j s
        (elim out [ inl h ↦ λ e. omega arith | inr h ↦ λ e. omega arith ])

split-levels_in :
    (d k b j : ℕ) (s : Phys)
    → d ≤ k
    → k - d ≤ j
    → j < k
    → s.levels j ≡ []
    → (split d k b s).levels j ≡ (b + block_size j) ∷ []
unfolding split put_block set_block_free
split-levels_in zero k b j s le low high empty = absurd (omega arith)
split-levels_in (suc d) k b j s le low high empty =
    let below : k ≡ suc (k - 1) = omega arith in
    let half : block_size k / 2 ≡ block_size (k - 1) =
      ap (λ n. block_size n / 2) below ∙ half-eq (k - 1) in
    elim (ℕ_discrete j (k - 1)) [
      | yes top ↦
          split-levels_out d (k - 1) b j (put_block (k - 1) (b + block_size k / 2) s) (omega arith)
            (inr (omega arith))
          ∙ rw top (
              update_self s.levels (k - 1) _
              ∙ rw half (ap (λ l. (b + block_size (k - 1)) ∷ l) (sym (ap s.levels top) ∙ empty)))
      | no under ↦
          split-levels_in d (k - 1) b j (put_block (k - 1) (b + block_size k / 2) s) (omega arith)
            (omega arith) (omega arith) (levels-put_block (k - 1) _ j s (λ e. omega arith) ∙ empty)
    ]

levels-take_block :
    (k b : ℕ) (s : Phys) {rest : List ℕ}
    → s.levels k ≡ b ∷ rest
    → (take_block k b s).levels k ≡ rest
unfolding take_block
levels-take_block k b s e = update_self s.levels k _ ∙ rw (e, ==_refl b b refl) refl

-- The first block of the first list that is not empty.
pub take-Cuts :
    (level k b : ℕ) (s : Phys) {rest : List ℕ}
    → s.levels k ≡ b ∷ rest
    → level ≤ k
    → k < max_level
    → ((j : ℕ) → level ≤ j → j < k → s.levels j ≡ [])
    → Cuts level b s (set_block_allocated b (split (k - level) k b (take_block k b s)))
unfolding set_block_allocated take_block
take-Cuts level k b s {rest} e le lt empty =
    let t = take_block k b s in
    let away : (j : ℕ) → k ≢ j → t.levels j ≡ s.levels j = λ j n. update_ne s.levels k j _ n in
    record {
      found = k;
      from = le;
      to = lt;
      skipped = empty;
      first =
          e
          ∙ ap (λ l. b ∷ l)
              (sym (levels-take_block k b s e)
                ∙ sym (split-levels_out (k - level) k b k t (omega arith) (inr (omega arith))));
      halves = λ j low high.
          split-levels_in (k - level) k b j t (omega arith) (omega arith) high
            (away j (λ q. omega arith) ∙ empty j low high);
      others = λ j out.
          split-levels_out (k - level) k b j t (omega arith)
            (elim out [ inl h ↦ inl (omega arith) | inr h ↦ inr (omega arith) ])
          ∙ away j (elim out [ inl h ↦ λ q. omega arith | inr h ↦ λ q. omega arith ]);
    }

-- The counters do not matter.
pub Cuts-counted :
    (level b : ℕ) (s t : Phys) (a : Accounting)
    → Cuts level b (record s { acct = a }) t
    → Cuts level b s t
Cuts-counted level b s t a c = record {
  found = c.found;
  from = c.from;
  to = c.to;
  skipped = c.skipped;
  first = c.first;
  halves = c.halves;
  others = c.others;
}
