-- ===== src/Mem/Phys/Sizes.antt =====
-- src/mem/phys.c and phys.h: the levels of the buddy allocator, and the level of a size.
use tomato.Base.{
  ℕ, zero, suc, ◌+◌, ◌-◌, ◌*◌, ◌/◌, ◌^◌, ◌≤◌, ◌<◌, ◌≡◌, ◌≢◌, refl, Option, none, some, ltb, ◌==◌,
  ◌||◌, not, if◌then◌else◌, ◌⊎◌, inl, inr, ap, lt→ltb, ltb-false, arith,
}
use native.Mathlib.Nat.{pow-suc, pow-le-pow_right}
use native.Mathlib.Decide.{ℕ_discrete, dec_le, dec_lt}

abbrev pub max_level : ℕ
max_level = 16

abbrev pub min_order : ℕ
min_order = 6

-- `PHYS_BUDDY_PAGE_LEVEL`
abbrev pub page_level : ℕ
page_level = 6

abbrev pub min_size : ℕ
min_size = 64

-- `1 << (PHYS_BUDDY_MAX_LEVEL + PHYS_BUDDY_MIN_ORDER - 1)`
abbrev pub max_size : ℕ
max_size = 2097152

-- The number of binary digits of a number of at most `fuel` digits.
unfoldable pub bit_length : (fuel n : ℕ) → ℕ
bit_length zero n = 0
bit_length (suc f) n = let rest = bit_length f (n / 2) in if n == 0 then 0 else suc rest

-- `__builtin_clzll`, for an argument other than 0
abbrev pub clzll : ℕ → ℕ
clzll n = 64 - bit_length 64 n

-- `none` stands for -1
unfoldable pub get_level_by_size : ℕ → Option ℕ
get_level_by_size size =
    if ltb max_size size
    then none
    else (let size' = if ltb size min_size then min_size else size in
        some ((64 - clzll (size' - 1)) - min_order))

unfoldable pub get_page_level_by_size : ℕ → Option ℕ
unfolding get_level_by_size
get_page_level_by_size size = elim (get_level_by_size size) [
  | none ↦ none
  | some level ↦
      if ltb level page_level || not (size == 2 ^ (level + min_order)) then none else some level
]

unfoldable pub get_page_count_by_level : ℕ → ℕ
get_page_count_by_level level = 2 ^ (level - page_level)

bit_length-zero : (f : ℕ) → bit_length f 0 ≡ 0
unfolding bit_length
bit_length-zero zero = refl
bit_length-zero (suc f) = refl

bit_length-pos : (f n : ℕ) → 0 < n → bit_length (suc f) n ≡ suc (bit_length f (n / 2))
unfolding bit_length
bit_length-pos f n p = ground arith

-- A positive number lies between two powers of two, by its number of digits.
bit_length_bounds :
    (f n : ℕ)
    → n < 2 ^ f
    → 0 < n
    → (n < 2 ^ bit_length f n) × (2 ^ bit_length f n ≤ 2 * n) × (bit_length f n ≤ f)
bit_length_bounds zero n h p = absurd (omega arith)
bit_length_bounds (suc f) n h p = rw (bit_length-pos f n p) (elim (ℕ_discrete (n / 2) 0) [
  | yes e ↦ rw (e, bit_length-zero f) (omega arith)
  | no e ↦
      let (above, below, few) =
        bit_length_bounds f (n / 2) (omega (arith, pow-suc 2 f)) (omega arith) in
      let double = pow-suc 2 (bit_length f (n / 2)) in (omega arith, omega arith, omega arith)
])

-- The digits of `size - 1`, for a size that the allocator serves.
digits_of_size :
    (m : ℕ)
    → 63 ≤ m
    → m < max_size
    → let b = bit_length 64 m in (m < 2 ^ b) × (2 ^ b ≤ 2 * m) × (6 ≤ b) × (b ≤ 21)
digits_of_size m lo hi =
    let (above, below, few) = bit_length_bounds 64 m (omega arith) (omega arith) in
    (
      above,
      below,
      elim (dec_le 6 (bit_length 64 m)) [
        | yes p ↦ p
        | no p ↦ absurd (
            omega (
              arith,
              pow-le-pow_right {n = 2} (omega arith) {i = bit_length 64 m} {j = 5} (omega arith),
            ))
      ],
      elim (dec_le (bit_length 64 m) 21) [
        | yes p ↦ p
        | no p ↦ absurd (
            omega (
              arith,
              pow-le-pow_right {n = 2} (omega arith) {i = 22} {j = bit_length 64 m} (omega arith),
            ))
      ],
    )

-- The level that the code computes from the digits of `size - 1`.
level_of_digits :
    (m : ℕ)
    → 63 ≤ m
    → m < max_size
    → let level = (64 - clzll m) - min_order in
      (level < max_level)
      × (m + 1 ≤ 2 ^ (level + min_order))
      × ((level ≡ 0) ⊎ (2 ^ (level - 1 + min_order) ≤ m))
      × (m ≡ 63 → level ≡ 0)
level_of_digits m lo hi =
    let (above, below, least, most) = digits_of_size m lo hi in
    let e : (64 - clzll m) - min_order + min_order ≡ bit_length 64 m = omega arith in
    let top : bit_length 64 m ≢ 6 → 2 ^ (bit_length 64 m - 1) ≤ m = λ n.
      let up : bit_length 64 m ≡ suc (bit_length 64 m - 1) = omega arith in
      omega (arith, ap (λ k. 2 ^ k) up, pow-suc 2 (bit_length 64 m - 1)) in
    (
      omega arith,
      rw e (omega arith),
      elim (ℕ_discrete (bit_length 64 m) 6) [
        | yes six ↦ inl (omega arith)
        | no more ↦
            let down : (64 - clzll m) - min_order - 1 + min_order ≡ bit_length 64 m - 1 =
              omega arith in
            inr (rw down (top more))
      ],
      λ at_least. elim (ℕ_discrete (bit_length 64 m) 6) [
        | yes six ↦ omega arith
        | no more ↦ absurd (
            omega (
              arith,
              pow-le-pow_right {n = 2} (omega arith) {i = 7} {j = bit_length 64 m} (omega arith),
            ))
      ],
    )

-- A size above 2 MiB has no level. Any other size has the least level whose blocks hold it.
pub get_level_by_size-least :
    (size : ℕ)
    → ((max_size < size) × (get_level_by_size size ≡ none))
      ⊎ ((level : ℕ) × (get_level_by_size size ≡ some level)
          × (level < max_level)
          × (size ≤ 2 ^ (level + min_order))
          × ((level ≡ 0) ⊎ (2 ^ (level - 1 + min_order) < size)))
unfolding get_level_by_size
get_level_by_size-least size = elim (dec_lt max_size size) [
  | yes p ↦ inl (p, rw (lt→ltb max_size size p))
  | no p ↦ inr (elim (dec_lt size min_size) [
    | yes q ↦
        let (a, b, c, d) = level_of_digits 63 (omega arith) (omega arith) in
        (
          _,
          rw (ltb-false max_size size (omega arith), lt→ltb size min_size q),
          a,
          omega arith,
          inl (d refl),
        )
    | no q ↦
        let (a, b, c, d) = level_of_digits (size - 1) (omega arith) (omega arith) in
        (
          _,
          rw (ltb-false max_size size (omega arith), ltb-false size min_size (omega arith)),
          a,
          omega arith,
          elim c [ inl z ↦ inl z | inr h ↦ inr (omega arith) ],
        )
  ])
]
