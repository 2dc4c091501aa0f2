-- ===== src/Boot/Levels.antt =====
-- src/boot/virt.c: which pages are tables while the first page tables grow, and of which level.
use tomato.Base.{
  ℕ, zero, suc, ◌+◌, ◌*◌, ◌%◌, ◌≤◌, ◌<◌, ◌≡◌, ◌≢◌, refl, sym, ap, ap₂, ◌∙◌, true, Option, some,
  arith, update_ne,
}
use tomato.Mem.Virt.{Paging, store, is_present, frame_of, address_of, entry_at, index_at}
use tomato.Mem.Virt.Walk.{Leads}

-- The level of a page that is a table. An entry that is present leads to a table of the next level.
pub record Tables (level : ℕ → Option ℕ) (limit top : ℕ) (p : Paging) : Type 0 where
  pub aligned : (t k : ℕ) → level t ≡ some k → t % 4096 ≡ 0
  pub below : (t k : ℕ) → level t ≡ some k → t + 4096 ≤ limit
  pub root : level p.page_table ≡ some top
  pub levels : p.page_table_levels ≡ suc top
  pub base : p.direct_base % 4096 ≡ 0
  pub next :
      (t i k : ℕ)
      → level t ≡ some (suc k)
      → i < 512
      → is_present (p.word (t + 8 * i)) ≡ true
      → level (frame_of p (p.word (t + 8 * i))) ≡ some k

-- The entries below the limit that are present stay as they are.
pub record GrowsBelow (limit : ℕ) (p p' : Paging) : Type 0 where
  pub words : (e : ℕ) → e < limit → is_present (p.word e) ≡ true → p'.word e ≡ p.word e
  pub root : p'.page_table ≡ p.page_table
  pub levels : p'.page_table_levels ≡ p.page_table_levels
  pub base : p'.direct_base ≡ p.direct_base

pub GrowsBelow-refl : (limit : ℕ) (p : Paging) → GrowsBelow limit p p
GrowsBelow-refl limit p = record {
  words = λ e h present. refl;
  root = refl;
  levels = refl;
  base = refl;
}

pub GrowsBelow-trans :
    {limit limit' : ℕ} {p q r : Paging}
    → limit ≤ limit'
    → GrowsBelow limit p q
    → GrowsBelow limit' q r
    → GrowsBelow limit p r
GrowsBelow-trans h g k = record {
  words = λ e low present.
      k.words e (omega arith) (ap is_present (g.words e low present) ∙ present)
      ∙ g.words e low present;
  root = k.root ∙ g.root;
  levels = k.levels ∙ g.levels;
  base = k.base ∙ g.base;
}

-- A way through the tables stays.
pub Leads-GrowsBelow :
    (lv : ℕ → Option ℕ) (limit top : ℕ) (p p' : Paging) (level virt table pte : ℕ)
    → Tables lv limit top p
    → GrowsBelow limit p p'
    → lv table ≡ some level
    → Leads p level virt table pte
    → Leads p' level virt table pte
unfolding Leads
Leads-GrowsBelow lv limit top p p' zero virt table pte ts g h l = l
Leads-GrowsBelow lv limit top p p' (suc level) virt table pte ts g h (present, l) =
    let below = ts.below table (suc level) h in
    let same = g.words (entry_at (suc level) virt table) (omega arith) present in
    let down = ts.next table (index_at (suc level) virt) level h (omega arith) present in
    rw (same, g.base) (present, Leads-GrowsBelow lv limit top p p' level virt _ pte ts g down l)

-- Entries at one address are of one table.
pub one_table :
    (t u i j : ℕ) → t % 4096 ≡ 0 → u % 4096 ≡ 0 → i < 512 → j < 512 → t + 8 * i ≡ u + 8 * j → t ≡ u
one_table t u i j a b h k e = omega arith

-- Tables whose entries are read as before stay tables.
pub next-same :
    (lv : ℕ → Option ℕ) (p p' : Paging) (a k : ℕ)
    → p'.word a ≡ p.word a
    → p'.direct_base ≡ p.direct_base
    → (is_present (p.word a) ≡ true → lv (frame_of p (p.word a)) ≡ some k)
    → is_present (p'.word a) ≡ true
    → lv (frame_of p' (p'.word a)) ≡ some k
next-same lv p p' a k same base h present =
    let before = h (ap is_present (sym same) ∙ present) in
    ap lv (ap₂ (λ d w. d + address_of w) base same) ∙ before

-- An entry of a table of pages may change.
pub Tables-leaf :
    (lv : ℕ → Option ℕ) (limit top : ℕ) (p : Paging) (leaf i value : ℕ)
    → Tables lv limit top p
    → lv leaf ≡ some 0
    → i < 512
    → Tables lv limit top (store (leaf + 8 * i) value p)
Tables-leaf lv limit top p leaf i value ts h low = record {
  aligned = ts.aligned;
  below = ts.below;
  root = ts.root;
  levels = ts.levels;
  base = ts.base;
  next = λ t j k at small present.
      let apart : leaf + 8 * i ≢ t + 8 * j = λ e.
        let same =
          one_table leaf t i j (ts.aligned leaf 0 h) (ts.aligned t (suc k) at) low small e in
        let clash : some 0 ≡ some (suc k) = sym h ∙ ap lv same ∙ at in cc clash in
      next-same lv p (store (leaf + 8 * i) value p) (t + 8 * j) k
        (update_ne p.word (leaf + 8 * i) (t + 8 * j) value apart) refl (ts.next t j k at small)
        present;
}
