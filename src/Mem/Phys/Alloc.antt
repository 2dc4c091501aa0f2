-- ===== src/Mem/Phys/Alloc.antt =====
-- src/mem/phys.c, `phys_alloc_internal`: what an allocation does to the free lists and the counters.
use native.Mathlib.Decide.{ℕ_discrete}
use tomato.Base.{
  ◌/◌, ℕ, zero, suc, ◌+◌, ◌-◌, ◌^◌, ◌≤◌, ◌<◌, ◌≡◌, ◌≢◌, refl, Bool, true, false, not, ◌||◌, ◌⊎◌,
  inl, inr, Option, none, some, List, ◌∷◌, ok, Returns, ◌==◌, List-cases, ap, ◌∙◌, arith,
}
use tomato.Mem.Accounting.{Accounting}
use tomato.Mem.Phys.Sizes.{bit_length}
use tomato.Mem.Phys.{
  alloc_reserved, get_level_by_size, get_page_level_by_size, Phys, block_size, split, take_first,
  put_block, take_block, find_level, commit_for, alloc_internal, set_block_free,
  set_block_allocated, max_level, page_level,
}
use tomato.Mem.Phys.Pages.{page_weight, free_pages, pages_taken, split-pages, weigh-take_block}
use tomato.Mem.Phys.Commit.{
  IsAccounted, FirstTagged, IsTagged, HasReserved, Commits, commit_for_lem, commit_for-reserved,
  pages_taken_whole, pages_taken_piece,
}
use tomato.Mem.Phys.Cuts.{Cuts, take-Cuts, Cuts-counted}
use tomato.Mem.Phys.Search.{find_level-IsFirst, free_pages-zero}

acct-split : (d k b : ℕ) (s : Phys) → (split d k b s).acct ≡ s.acct
unfolding split put_block set_block_free
acct-split zero k b s = refl
acct-split (suc d) k b s = acct-split d (k - 1) b (put_block (k - 1) (b + block_size k / 2) s)

-- The state that `take_first` leaves, when the first block of the list has its level in its header.
abbrev after_take : (level k b : ℕ) → Phys → Phys
after_take level k b s = set_block_allocated b (split (k - level) k b (take_block k b s))

take_first-ok :
    (level k : ℕ) (s : Phys) {b : ℕ} {rest : List ℕ}
    → s.levels k ≡ b ∷ rest
    → s.header b ≡ k
    → take_first level k s ≡ ok (some b, after_take level k b s)
unfolding take_first
take_first-ok level k s {b} e h = ground arith

after_take-pages :
    (level k b : ℕ) (s : Phys) {rest : List ℕ}
    → s.levels k ≡ b ∷ rest
    → level ≤ k
    → k < max_level
    → free_pages (after_take level k b s) + pages_taken level k ≡ free_pages s
unfolding set_block_allocated
after_take-pages level k b s e le lt = omega (
  arith,
  split-pages (k - level) level k b (take_block k b s) (omega arith) lt,
  weigh-take_block page_weight k b s lt (rw e (ground arith)),
)

after_take-acct : (level k b : ℕ) (s : Phys) → (after_take level k b s).acct ≡ s.acct
unfolding set_block_allocated take_block
after_take-acct level k b s = acct-split (k - level) k b (take_block k b s)

-- What an allocation changes. Without a block nothing has changed. With a block the counters still
-- agree with the free lists; the block's pages, or the one page that was split for a piece, or none,
-- have left the lists and are committed.
pub record Took (level : ℕ) (s t : Phys) : Type 0 where
  pub accounted : IsAccounted t
  pub total : t.acct.total ≡ s.acct.total
  pub moved : t.acct.committed + free_pages t ≡ s.acct.committed + free_pages s
  pub whole : page_level ≤ level → free_pages t + 2 ^ (level - page_level) ≡ free_pages s
  pub piece : level < page_level → (free_pages t ≡ free_pages s) ⊎ (free_pages t + 1 ≡ free_pages s)

abbrev pub Allocated : (level : ℕ) → Phys → Option ℕ × Phys → Type 0
Allocated level s (none, t) = t ≡ s
Allocated level s (some b, t) = Took level s t × Cuts level b s t

-- The `ASSERT` of the code holds where a reserved single page is never missing.
assertion_holds :
    (level : ℕ) (reserved : Bool) (a : Accounting)
    → HasReserved level reserved a
    → (level ≡ page_level → 1 ≤ a.reserved → ⊥)
    → (not reserved || not (level == page_level)) ≡ true
assertion_holds level false a h never = refl
assertion_holds level true a h never = elim (ℕ_discrete level page_level) [
  | yes e ↦
      absurd (never e (let one : 2 ^ (level - 6) ≡ 1 = ap (λ l. 2 ^ (l - 6)) e in omega arith))
  | no n ↦ ground arith
]

FirstTagged-cons :
    (header : ℕ → ℕ) (k : ℕ) {xs : List ℕ} {b : ℕ} {rest : List ℕ}
    → xs ≡ b ∷ rest
    → FirstTagged header k xs
    → header b ≡ k
FirstTagged-cons header k e h = rw e at h

module _ (level : ℕ) (reserved : Bool) (s : Phys) where
  abbrev level_found : ℕ
  level_found = find_level (max_level - level) s.levels level

  alloc_internal-none :
      level_found ≡ max_level
      → (not reserved || not (level == page_level)) ≡ true
      → alloc_internal level reserved s ≡ ok (none, s)
  unfolding alloc_internal
  alloc_internal-none e h = ground arith

  alloc_internal-refused :
      level_found ≢ max_level
      → commit_for level level_found reserved s.acct ≡ ok (false, s.acct)
      → alloc_internal level reserved s ≡ ok (none, s)
  unfolding alloc_internal
  alloc_internal-refused n e = ground arith

  alloc_internal-taken :
      {a : Accounting}
      → level_found ≢ max_level
      → commit_for level level_found reserved s.acct ≡ ok (true, a)
      → alloc_internal level reserved s ≡ take_first level level_found (record s { acct = a })
  unfolding alloc_internal
  alloc_internal-taken n e = ground arith

  -- A reserved page is on a free list.
  page_left : level ≡ page_level → IsAccounted s → 1 ≤ s.acct.reserved → level_found ≢ max_level
  page_left e acc h z =
      let first = find_level-IsFirst (max_level - level) s.levels level in
      absurd (
        omega (
          arith,
          acc.pages,
          free_pages-zero s (λ j p q. first.skipped j (omega arith) (omega arith)),
        ))

  Took-after :
      {a : Accounting} {b : ℕ} {rest : List ℕ} (k : ℕ)
      → level ≤ k
      → k < max_level
      → IsAccounted s
      → Commits (pages_taken level k) s.acct a
      → s.levels k ≡ b ∷ rest
      → Took level s (after_take level k b (record s { acct = a }))
  Took-after {a} {b} k le lt acc committing e =
      let t : Phys = record s { acct = a } in
      let left = after_take-pages level k b t e le lt in
      let same = after_take-acct level k b t in
      record {
        accounted = record {
          balance = rw same committing.balance;
          pages = rw same (omega (arith, left, acc.pages, committing.gone));
        };
        total = rw same committing.total;
        moved = rw same (omega (arith, left, committing.committed));
        whole = λ h. omega (
          arith,
          left,
          ap (λ n. free_pages (after_take level k b t) + n) (pages_taken_whole level k h),
        );
        piece = λ h. elim (pages_taken_piece level k h) [
          | inl z ↦ inl (omega (arith, left, z))
          | inr o ↦ inr (omega (arith, left, o))
        ];
      }

  alloc_taken :
      {a : Accounting}
      → level < max_level
      → IsAccounted s
      → IsTagged s
      → level_found ≢ max_level
      → commit_for level level_found reserved s.acct ≡ ok (true, a)
      → Commits (pages_taken level level_found) s.acct a
      → (b : ℕ) × (t : Phys) × (alloc_internal level reserved s ≡ ok (some b, t))
        × Took level s t
        × Cuts level b s t
  alloc_taken {a} lt acc tagged n e committing =
      let first = find_level-IsFirst (max_level - level) s.levels level in
      let k = level_found in
      let inside : k < max_level = omega (arith, first.to) in
      elim (List-cases (s.levels k)) [
        | inl none_there ↦ absurd (first.full (omega arith) none_there)
        | inr (b, rest, here) ↦
            let tag : s.header b ≡ k = FirstTagged-cons s.header k here (tagged k inside) in
            (
              b,
              after_take level k b (record s { acct = a }),
              alloc_internal-taken n e ∙ take_first-ok level k (record s { acct = a }) here tag,
              Took-after k first.from inside acc committing here,
              Cuts-counted level b s _ a (
                  take-Cuts level k b (record s { acct = a }) here first.from inside
                    (λ j p q. first.skipped j p q)),
            )
      ]

  -- On counters that agree with the free lists and lists whose blocks are tagged with their level, an
  -- allocation at a level that exists returns, where a reserved one asks for whole pages that are
  -- reserved: with nothing and an unchanged state, or with the first block of the lowest list from that level on that is
  -- not empty. The block has left its list, the halves that are split off it are free, the other lists
  -- are as they were, and the pages have moved from the free lists to the committed ones.
  pub alloc_internal-Allocated :
      level < max_level
      → IsAccounted s
      → IsTagged s
      → HasReserved level reserved s.acct
      → Returns (Allocated level s) (alloc_internal level reserved s)
  alloc_internal-Allocated lt acc tagged held = elim (ℕ_discrete level_found max_level) [
    | yes all_empty ↦
        rw
          (alloc_internal-none all_empty
            (assertion_holds level reserved s.acct held (λ e h. page_left e acc h all_empty)))
          refl
    | no n ↦ elim (commit_for_lem level level_found reserved s.acct acc.balance held) [
      | inl refused ↦ rw (alloc_internal-refused n refused) refl
      | inr (a, e, committing) ↦
          let (b, t, run, took, cut) = alloc_taken lt acc tagged n e committing in
          rw run (took, cut)
    ]
  ]

-- On counters that agree with the free lists and lists whose blocks are tagged with their level, where
-- at least one page is reserved, `phys_alloc_reserved` of a page returns a block: it neither fails nor
-- halts. The block is the first one of the lowest list of pages or greater blocks that is not empty,
-- has left that list, and the halves that are split off it are free. The page is gone from the free lists
-- and committed.
pub alloc_reserved-page :
    (s : Phys)
    → IsAccounted s
    → IsTagged s
    → 1 ≤ s.acct.reserved
    → (b : ℕ) × (t : Phys) × (alloc_reserved 4096 s ≡ ok (some b, t))
      × Took page_level s t
      × Cuts page_level b s t
unfolding alloc_reserved get_page_level_by_size get_level_by_size bit_length
alloc_reserved-page s acc tagged held =
    let n = page_left page_level true s refl acc held in
    elim (commit_for_lem page_level (level_found page_level true s) true s.acct acc.balance
      (omega arith, omega arith)) [
        | inl refused ↦ absurd (commit_for-reserved _ _ refused)
        | inr (a, e, committing) ↦
            alloc_taken page_level true s (omega arith) acc tagged n e committing
      ]
