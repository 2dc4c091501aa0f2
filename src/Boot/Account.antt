-- ===== src/Boot/Account.antt =====
-- src/boot/virt.c: `early_phys_add_memory`, and the count of the pages that the system has after it.
use tomato.Base.{
  ℕ, ◌+◌, ◌-◌, ◌*◌, ◌/◌, ◌%◌, ◌≤◌, ◌<◌, ◌≡◌, false, inl, inr, refl, sym, subst, ltb, List, [], ◌∷◌,
  Run, ok, halt, Returns, ◌>>=◌, arith, add_u64, u64_mod, Bool-cases,
}
use tomato.Boot.Early.{
  MemmapEntry, usable, reclaimable, reserved, EarlyAlloc, add_entries, early_phys_add_memory,
}
use tomato.Boot.Next.{IsMap, usable_bytes, below}
use tomato.Boot.Handed.{IsEarly}
use tomato.Boot.Walk.{IsPhysical}
use tomato.Mem.Accounting.{add_committed}
use tomato.Mem.Phys.{Phys, max_size}
use tomato.Mem.Phys.Rounds.{add_memory-total}

-- The range that is added ends at least a greatest block below 2 ^ 64, where the direct map does.
abbrev IsBelow : (direct_base : ℕ) → Type 0
IsBelow direct_base = direct_base + 4503599627370496 + max_size < u64_mod

module _ (direct_base top : ℕ) (aligned : direct_base % 4096 ≡ 0) (top_aligned : top % 4096 ≡ 0)
    (room : IsBelow direct_base) where
  -- The pages that are counted are those of all the bytes but the early ones, which were counted before.
  abbrev Counted : (early bytes : ℕ) → Phys → Phys → Type 0
  Counted early bytes m m' =
      (k : ℕ) × (k * 4096 + early ≡ bytes)
      × (m'.acct.total % u64_mod ≡ (m.acct.total + k) % u64_mod)

  -- With some pages counted in between.
  Counted-after :
      (early bytes early' bytes' more : ℕ) (m n : Phys) (r : Run Phys)
      → n.acct.total % u64_mod ≡ (m.acct.total + more) % u64_mod
      → bytes' + early ≡ bytes + early' + more * 4096
      → Returns (Counted early bytes n) r
      → Returns (Counted early' bytes' m) r
  Counted-after early bytes early' bytes' more m n halt c e d = d
  Counted-after early bytes early' bytes' more m n (ok m') c e (k, sum, total) =
      (k + more, omega arith, omega arith)

  add-step :
      (start end early bytes early' bytes' : ℕ) (rest : List MemmapEntry) (m : Phys) (r : Run Phys)
      → start ≤ end
      → start % 4096 ≡ 0
      → end % 4096 ≡ 0
      → bytes' + early ≡ bytes + early' + (end - start)
      → ((n : Phys) → Returns (Counted early bytes n) (add_entries direct_base rest top n))
      → Returns
          (λ m'.
            m'.acct.total
            ≡ add_u64 m.acct.total ((direct_base + end - (direct_base + start)) / 4096))
          r
      → Returns (Counted early' bytes' m) (r >>= λ added. add_entries direct_base rest top added)
  add-step start end early bytes early' bytes' rest m halt h s e b later c = c
  add-step start end early bytes early' bytes' rest m (ok n) h s e b later c =
      Counted-after early bytes early' bytes' ((end - start) / 4096) m n _ (omega arith)
        (omega arith) (later n)

  -- An entry that reaches the top or beyond.
  add-entry :
      (base length early bytes : ℕ) (rest : List MemmapEntry) (m : Phys)
      → base % 4096 ≡ 0
      → length % 4096 ≡ 0
      → base + length ≤ 4503599627370496
      → top ≤ base + length
      → ((n : Phys) → Returns (Counted early bytes n) (add_entries direct_base rest top n))
      → Returns
          (Counted (top - base + early) (length + bytes) m)
          (add_entries direct_base (usable base length ∷ rest) top m)
  unfolding add_entries
  add-entry base length early bytes rest m a l w h later =
      let end : add_u64 base length ≡ base + length = ground arith in
      let test : ltb (base + length) top ≡ false = ground arith in
      elim (Bool-cases (ltb base top)) [
        | inl inner ↦
            let low : base ≤ top = ground arith in
            rw (add_entries, end, test, inner)
              (add-step top (base + length) early bytes (top - base + early) (length + bytes) rest m
                _ h top_aligned (ground arith) (omega arith) later
                (add_memory-total (direct_base + top) (direct_base + (base + length)) m
                  (omega arith) (omega arith) (omega arith) (omega arith)))
        | inr outer ↦
            let high : top ≤ base = ground arith in
            rw (add_entries, end, test, outer)
              (add-step base (base + length) early bytes (top - base + early) (length + bytes) rest
                m _ (omega arith) a (ground arith) (omega arith) later
                (add_memory-total (direct_base + base) (direct_base + (base + length)) m
                  (omega arith) (omega arith) (omega arith) (omega arith)))
      ]

  add_entries-Counted :
      (from : ℕ) (map : List MemmapEntry) (m : Phys)
      → IsMap from map
      → IsPhysical map
      → Returns (Counted (below top map) (usable_bytes map) m) (add_entries direct_base map top m)
  unfolding add_entries usable_bytes below
  add_entries-Counted from [] m h ph = (0, refl, omega arith)
  add_entries-Counted from (usable base length ∷ rest) m (u, h) (within, ph) =
      elim (Bool-cases (ltb (base + length) top)) [
        | inl passed ↦
            let bounded = u.bounded in
            let end : add_u64 base length ≡ base + length = ground arith in
            rw (add_entries, end, passed)
              (Counted-after (below top rest) (usable_bytes rest) _ _ 0 m m _ (omega arith)
                (omega arith) (add_entries-Counted (base + length) rest m h ph))
        | inr reached ↦ rw reached (
            add-entry base length (below top rest) (usable_bytes rest) rest m u.aligned u.pages
              within (ground arith) (λ n. add_entries-Counted (base + length) rest n h ph))
      ]
  add_entries-Counted from (reclaimable _ _ ∷ rest) m h ph = add_entries-Counted from rest m h ph
  add_entries-Counted from (reserved _ _ ∷ rest) m h ph = add_entries-Counted from rest m h ph

  committed-Counted :
      (pages bytes : ℕ) (m : Phys) (r : Run Phys)
      → Returns (Counted (pages * 4096) bytes m) r
      → Returns
          (λ m'. m'.acct.total ≡ add_u64 m.acct.total (bytes / 4096))
          (r >>= λ added. ok (record added { acct = add_committed pages added.acct }))
  unfolding add_committed
  committed-Counted pages bytes m halt c = c
  committed-Counted pages bytes m (ok n) (k, sum, total) = omega arith

-- On a sorted map of whole usable pages below 2 ^ 52, with a direct map whose pages for them end at least a
-- greatest block below 2 ^ 64, and with an allocator in the state that the boot leaves it in:
-- `early_phys_add_memory` returns, whatever the physical allocator holds. Its total, a 64-bit count, has
-- grown by every usable page of the map, those that were handed out before among them.
pub early_phys_add_memory-total :
    (direct_base : ℕ) (map : List MemmapEntry) (e : EarlyAlloc) (m : Phys)
    → direct_base % 4096 ≡ 0
    → IsBelow direct_base
    → IsMap 0 map
    → IsPhysical map
    → IsEarly map e
    → Returns
        (λ m'. m'.acct.total ≡ add_u64 m.acct.total (usable_bytes map / 4096))
        (early_phys_add_memory direct_base map e m)
unfolding early_phys_add_memory
early_phys_add_memory-total direct_base map e m aligned high h ph i =
    committed-Counted direct_base e.top aligned i.aligned high e.page_count (usable_bytes map) m _ (
      subst
        (λ n.
          Returns (Counted direct_base e.top aligned i.aligned high n (usable_bytes map) m)
            (add_entries direct_base map e.top m))
        (sym i.counted) (add_entries-Counted direct_base e.top aligned i.aligned high 0 map m h ph))
