-- ===== src/Strings/Move.antt =====
-- src/lib/string.c: what the copy loops leave in memory.
use tomato.Base.{
  ℕ, suc, zero, ◌+◌, ◌-◌, ◌≤◌, ◌<◌, ◌≡◌, refl, ap, sym, subst, ◌∙◌, ltb, leb, ◌&&◌, if◌then◌else◌,
  update, update-cases, add_u64, u64_mod, Bool-cases, ◌⊎◌, inl, inr, arith,
}
use tomato.Strings.{move_loop, memmove, minus_one}

-- The memory with the bytes from the offset `from` to the offset `to` taken from the source.
unfoldable pub copied : (dst src from to : ℕ) → (ℕ → ℕ) → ℕ → ℕ
copied dst src from to mem a =
    if leb (dst + from) a && ltb a (dst + to) then mem (src + (a - dst)) else mem a

move_loop-step :
    (len dst src pos pos' dir : ℕ) (mem : ℕ → ℕ) (a : ℕ)
    → add_u64 pos dir ≡ pos'
    → dst + pos' < u64_mod
    → src + pos' < u64_mod
    → move_loop (suc len) dst src pos dir mem a
      ≡ move_loop len dst src pos' dir (update mem (dst + pos') (mem (src + pos'))) a
unfolding move_loop
move_loop-step len dst src pos pos' dir mem a e hd hs =
    let d : add_u64 dst pos' ≡ dst + pos' = omega arith in
    let s : add_u64 src pos' ≡ src + pos' = omega arith in rw (move_loop, e, d, s) refl

module _ (dst src : ℕ) (mem : ℕ → ℕ) where
  copied-in :
      (from to a : ℕ)
      → dst + from ≤ a
      → a < dst + to
      → copied dst src from to mem a ≡ mem (src + (a - dst))
  unfolding copied
  copied-in from to a lo hi = ground arith

  copied-out :
      (from to a : ℕ) → (dst + to ≤ a) ⊎ (a < dst + from) → copied dst src from to mem a ≡ mem a
  unfolding copied
  copied-out from to a (inl h) = ground arith
  copied-out from to a (inr h) = ground arith

  -- One more byte, at either end of the part that is copied.
  up :
      (i : ℕ) (m : ℕ → ℕ)
      → dst < src
      → ((a : ℕ) → m a ≡ copied dst src 0 i mem a)
      → (a : ℕ) → update m (dst + i) (m (src + i)) a ≡ copied dst src 0 (suc i) mem a
  unfolding copied
  up i m lt h a = elim (update-cases m (dst + i) (m (src + i)) a) [
    | inl (e, u) ↦
        let same : src + (a - dst) ≡ src + i = omega arith in
        u
        ∙ h (src + i)
        ∙ copied-out 0 i (src + i) (inl (omega arith))
        ∙ sym (ap mem same)
        ∙ sym (copied-in 0 (suc i) a (omega arith) (omega arith))
    | inr (n, u) ↦ rw (u, h a) (ground arith)
  ]

  down :
      (i len : ℕ) (m : ℕ → ℕ)
      → src ≤ dst
      → i < len
      → ((a : ℕ) → m a ≡ copied dst src (suc i) len mem a)
      → (a : ℕ) → update m (dst + i) (m (src + i)) a ≡ copied dst src i len mem a
  unfolding copied
  down i len m le lt h a = elim (update-cases m (dst + i) (m (src + i)) a) [
    | inl (e, u) ↦
        let same : src + (a - dst) ≡ src + i = omega arith in
        u
        ∙ h (src + i)
        ∙ copied-out (suc i) len (src + i) (inr (omega arith))
        ∙ sym (ap mem same)
        ∙ sym (copied-in i len a (omega arith) (omega arith))
    | inr (n, u) ↦ rw (u, h a) (ground arith)
  ]

  forward :
      (k i pos : ℕ) (m : ℕ → ℕ)
      → dst < src
      → dst + (i + k) < u64_mod
      → src + (i + k) < u64_mod
      → add_u64 pos 1 ≡ i
      → ((a : ℕ) → m a ≡ copied dst src 0 i mem a)
      → (a : ℕ) → move_loop k dst src pos 1 m a ≡ copied dst src 0 (i + k) mem a
  unfolding move_loop
  forward zero i pos m lt hd hs e h a = let z : i + 0 ≡ i = omega arith in rw z (h a)
  forward (suc k) i pos m lt hd hs e h a =
      let z : i + suc k ≡ suc i + k = omega arith in
      move_loop-step k dst src pos i 1 m a e (omega arith) (omega arith)
      ∙ rw z (
          forward k (suc i) i (update m (dst + i) (m (src + i))) lt (omega arith) (omega arith)
            (omega arith) (up i m lt h) a)

  backward :
      (k len : ℕ) (m : ℕ → ℕ)
      → src ≤ dst
      → dst + len < u64_mod
      → k ≤ len
      → ((a : ℕ) → m a ≡ copied dst src k len mem a)
      → (a : ℕ) → move_loop k dst src k minus_one m a ≡ copied dst src 0 len mem a
  unfolding move_loop
  backward zero len m le hd hk h a = h a
  backward (suc k) len m le hd hk h a =
      move_loop-step k dst src (suc k) k minus_one m a (omega arith) (omega arith) (omega arith)
      ∙ backward k len (update m (dst + k) (m (src + k))) le hd (omega arith)
          (down k len m le (omega arith) h) a

  nothing : (n a : ℕ) → mem a ≡ copied dst src n n mem a
  nothing n a = sym (elim (Bool-cases (ltb a (dst + n))) [
    | inl e ↦ copied-out n n a (inr (ground arith))
    | inr e ↦ copied-out n n a (inl (ground arith))
  ])

-- For two ranges below 2 ^ 64, `memmove` leaves each byte of the destination with what the byte of the
-- source at its offset was before the call, also where the ranges overlap, and no other byte changes.
pub memmove-copied :
    (dst src len : ℕ) (mem : ℕ → ℕ) (a : ℕ)
    → dst + len < u64_mod
    → src + len < u64_mod
    → memmove dst src len mem a ≡ copied dst src 0 len mem a
unfolding memmove
memmove-copied dst src len mem a hd hs = elim (Bool-cases (ltb dst src)) [
  | inl e ↦
      let z : 0 + len ≡ len = omega arith in
      rw (memmove, e)
        (subst (λ n. move_loop len dst src minus_one 1 mem a ≡ copied dst src 0 n mem a) z
          (forward dst src mem len 0 minus_one mem (ground arith) (omega arith) (omega arith)
            (omega arith) (nothing dst src mem 0) a))
  | inr e ↦
      rw (memmove, e)
        (backward dst src mem len len mem (ground arith) hd (omega arith) (nothing dst src mem len)
          a)
]
