-- ===== src/Boot/NewTable.antt =====
-- src/boot/virt.c: the page tables with a new table in them.
use native.Mathlib.Decide.{ℕ_discrete}
use tomato.Base.{
  ℕ, suc, ◌+◌, ◌*◌, ◌%◌, ◌≤◌, ◌<◌, ◌≡◌, ◌≢◌, refl, sym, ap, ◌∙◌, true, false, Option, some, arith,
  inl, inr, update, update-cases, update_self, update_ne,
}
use tomato.Mem.Virt.{Paging, store, is_present, frame_of}
use tomato.Boot.Tables.{clear_page}
use tomato.Boot.Levels.{Tables, GrowsBelow, one_table, next-same}

abbrev pub with_table : (entry page : ℕ) → Paging → Paging
with_table entry page p = store entry (page + 3) (clear_page (p.direct_base + page) p)

-- The words below a page that is cleared stay, and those of the page are 0.
pub cleared-below : (n a : ℕ) (p : Paging) → a < n → (clear_page n p).word a ≡ p.word a
cleared-below n a p h = ground arith

cleared-inside : (n i : ℕ) (p : Paging) → i < 512 → (clear_page n p).word (n + 8 * i) ≡ 0
cleared-inside n i p h = ground arith

-- The page that the entry of a new table leads to.
new_table-frame :
    (page : ℕ) (p : Paging)
    → page % 4096 ≡ 0
    → page + 4096 ≤ 4503599627370496
    → frame_of p (page + 3) ≡ p.direct_base + page
new_table-frame page p a h = omega arith

-- A page is cleared and an entry that was not present is set.
pub GrowsBelow-cleared :
    (limit entry page value : ℕ) (p : Paging)
    → is_present (p.word entry) ≡ false
    → limit ≤ p.direct_base + page
    → GrowsBelow limit p (store entry value (clear_page (p.direct_base + page) p))
GrowsBelow-cleared limit entry page value p free above = record {
  words = λ e low present.
      let n = p.direct_base + page in
      elim (update-cases (clear_page n p).word entry value e) [
        | inl (same, _) ↦
            let clash : false ≡ true = sym free ∙ ap (λ a. is_present (p.word a)) same ∙ present in
            cc clash
        | inr (_, kept) ↦ kept ∙ cleared-below n e p (omega arith)
      ];
  root = refl;
  levels = refl;
  base = refl;
}

pub Tables-cleared :
    (lv : ℕ → Option ℕ) (limit limit' top n : ℕ) (p : Paging)
    → Tables lv limit top p
    → limit ≤ limit'
    → limit ≤ n
    → Tables lv limit' top (clear_page n p)
Tables-cleared lv limit limit' top n p ts h above = record {
  aligned = ts.aligned;
  below = λ t k at. omega (arith, ts.below t k at);
  root = ts.root;
  levels = ts.levels;
  base = ts.base;
  next = λ t i k at low present.
      let below = ts.below t (suc k) at in
      next-same lv p (clear_page n p) (t + 8 * i) k (cleared-below n (t + 8 * i) p (omega arith))
        refl (ts.next t i k at low) present;
}

module _ (lv : ℕ → Option ℕ) (limit top : ℕ) (p : Paging) (ts : Tables lv limit top p) (page k : ℕ)
    (above : limit ≤ p.direct_base + page) where
  -- The levels with those of the new table.
  abbrev pub levels_with : ℕ → Option ℕ
  levels_with = update lv (p.direct_base + page) (some k)

  -- The tables there were are still of their levels.
  pub levels_with-old : (t j : ℕ) → lv t ≡ some j → levels_with t ≡ some j
  levels_with-old t j e =
      let below = ts.below t j e in
      let apart : p.direct_base + page ≢ t = λ same. omega arith in
      update_ne lv (p.direct_base + page) t (some k) apart ∙ e

  module _ (parent i : ℕ) (parent_level : lv parent ≡ some (suc k)) (low : i < 512)
      (aligned : page % 4096 ≡ 0) (bounded : page + 4096 ≤ 4503599627370496) where
    abbrev grown : Paging
    grown = with_table (parent + 8 * i) page p

    -- An entry of the tables that there were, other than the one that is set.
    next-old :
        (t j l : ℕ)
        → lv t ≡ some (suc l)
        → j < 512
        → parent + 8 * i ≢ t + 8 * j
        → is_present (grown.word (t + 8 * j)) ≡ true
        → levels_with (frame_of grown (grown.word (t + 8 * j))) ≡ some l
    next-old t j l at small apart present =
        let below = ts.below t (suc l) at in
        let cleared = cleared-below (p.direct_base + page) (t + 8 * j) p (omega arith) in
        let same =
          update_ne (clear_page (p.direct_base + page) p).word (parent + 8 * i) (t + 8 * j)
            (page + 3) apart
          ∙ cleared in
        next-same levels_with p grown (t + 8 * j) l same refl
          (λ was. levels_with-old _ l (ts.next t j l at small was)) present

    -- The entry that is set.
    next-set :
        (t j l : ℕ)
        → lv t ≡ some (suc l)
        → j < 512
        → parent + 8 * i ≡ t + 8 * j
        → levels_with (frame_of grown (grown.word (t + 8 * j))) ≡ some l
    next-set t j l at small e =
        let here =
          one_table parent t i j (ts.aligned parent (suc k) parent_level) (ts.aligned t (suc l) at)
            low small e in
        let both : some (suc k) ≡ some (suc l) = sym parent_level ∙ ap lv here ∙ at in
        let same : some k ≡ some l = cc both in
        let value =
          sym (ap grown.word e)
          ∙ update_self (clear_page (p.direct_base + page) p).word (parent + 8 * i) (page + 3) in
        ap (λ w. levels_with (frame_of p w)) value
        ∙ ap levels_with (new_table-frame page p aligned bounded)
        ∙ update_self lv (p.direct_base + page) (some k)
        ∙ same

    -- An entry of the new table is not present.
    next-new : (j : ℕ) → j < 512 → is_present (grown.word (p.direct_base + page + 8 * j)) ≡ false
    next-new j small =
        let below = ts.below parent (suc k) parent_level in
        let apart : parent + 8 * i ≢ p.direct_base + page + 8 * j = λ e. omega arith in
        ap is_present (
          update_ne (clear_page (p.direct_base + page) p).word (parent + 8 * i)
            (p.direct_base + page + 8 * j) (page + 3) apart
          ∙ cleared-inside (p.direct_base + page) j p small)

    next-with :
        (t j l : ℕ)
        → levels_with t ≡ some (suc l)
        → j < 512
        → is_present (grown.word (t + 8 * j)) ≡ true
        → levels_with (frame_of grown (grown.word (t + 8 * j))) ≡ some l
    next-with t j l at small present = elim (update-cases lv (p.direct_base + page) (some k) t) [
      | inl (here, _) ↦
          let clash : false ≡ true =
            sym (next-new j small) ∙ ap (λ n. is_present (grown.word (n + 8 * j))) here ∙ present in
          cc clash
      | inr (_, kept) ↦ elim (ℕ_discrete (parent + 8 * i) (t + 8 * j)) [
        | yes e ↦ next-set t j l (sym kept ∙ at) small e
        | no apart ↦ next-old t j l (sym kept ∙ at) small apart present
      ]
    ]

    -- The tables with the new one.
    pub Tables-with_table : Tables levels_with (p.direct_base + page + 4096) top grown
    Tables-with_table = record {
      aligned = λ t j e. elim (update-cases lv (p.direct_base + page) (some k) t) [
        | inl (here, _) ↦ let base = ts.base in omega arith
        | inr (_, kept) ↦ ts.aligned t j (sym kept ∙ e)
      ];
      below = λ t j e. elim (update-cases lv (p.direct_base + page) (some k) t) [
        | inl (here, _) ↦ omega arith
        | inr (_, kept) ↦ omega (arith, ts.below t j (sym kept ∙ e))
      ];
      root = levels_with-old p.page_table top ts.root;
      levels = ts.levels;
      base = ts.base;
      next = next-with;
    }
