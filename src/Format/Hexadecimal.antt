-- ===== src/Format/Hexadecimal.antt =====
-- src/lib/snprintf.c, `u64toh_r`: the text is the hexadecimal numeral of the number.
use native.Mathlib.Nat.{pow-suc, pow-le-pow_right, mod-add-div', div-div-eq-div-mul}
use native.Mathlib.Decide.{dec_le}
use tomato.Base.{
  ◌≤◌, ◌⊎◌, ℕ, zero, suc, ◌+◌, ◌-◌, ◌*◌, ◌/◌, ◌%◌, ◌^◌, ◌<◌, ◌≡◌, refl, ap, ◌∙◌, Bool, true, false,
  ◌||◌, List, [], ◌∷◌, ltb, leb, if◌then◌else◌, u64_mod, Bool-cases, inl, inr, arith,
}
use tomato.Format.Digits.{hex_char, u64toh_from, u64toh_r}

-- The value of a hexadecimal digit, and of a numeral after the digits read so far.
unfoldable pub hex_value : ℕ → ℕ
hex_value c = if leb c b'9' then c - b'0' else c - b'a' + 10

unfoldable pub read_hex : ℕ → List ℕ → ℕ
read_hex acc [] = acc
read_hex acc (c ∷ cs) = read_hex (acc * 16 + hex_value c) cs

hex_value-hex_char : (d : ℕ) → d < 16 → hex_value (hex_char d) ≡ d
unfolding hex_value hex_char
hex_value-hex_char d h = ground arith

-- The characters from 0 to 9 and from a to f.
abbrev pub IsHexDigit : ℕ → Type 0
IsHexDigit c = ((48 ≤ c) × (c ≤ 57)) ⊎ ((97 ≤ c) × (c ≤ 102))

abbrev pub AreHexDigits : List ℕ → Type 0
AreHexDigits [] = Unit
AreHexDigits (c ∷ cs) = IsHexDigit c × AreHexDigits cs

hex_char-IsHexDigit : (d : ℕ) → d < 16 → IsHexDigit (hex_char d)
unfolding hex_char
hex_char-IsHexDigit d h = elim (dec_le d 9) [
  | yes low ↦ inl (ground arith)
  | no high ↦ inr (ground arith)
]

-- 2 ^ (4 * k) is a power of 16.
pow16-suc : (k : ℕ) → 2 ^ (4 * suc k) ≡ 2 ^ (4 * k) * 16
pow16-suc k =
    let e : 4 * suc k ≡ suc (suc (suc (suc (4 * k)))) = omega arith in
    let m = 4 * k in
    ap (λ (j : ℕ). 2 ^ j) e
    ∙ omega (
      arith,
      pow-suc 2 m,
      pow-suc 2 (suc m),
      pow-suc 2 (suc (suc m)),
      pow-suc 2 (suc (suc (suc m))),
    )

pow16-pos : (k : ℕ) → 0 < 2 ^ (4 * k)
pow16-pos k = pow-le-pow_right {n = 2} (omega arith) {i = 0} {j = 4 * k} (omega arith)

module _ (k in' digits : ℕ) where
  abbrev nibble : ℕ
  nibble = in' / 2 ^ (4 * suc k) % 16

  from-written :
      (ltb 0 nibble || ltb 0 digits) ≡ true
      → u64toh_from (suc k) in' digits ≡ hex_char nibble ∷ u64toh_from k in' (digits + 1)
  unfolding u64toh_from
  from-written e = rw (e, u64toh_from)

  from-skipped :
      (ltb 0 nibble || ltb 0 digits) ≡ false
      → u64toh_from (suc k) in' digits ≡ u64toh_from k in' digits
  unfolding u64toh_from
  from-skipped e = rw (e, u64toh_from)

-- The lowest `k + 1` nibbles are the top one and the others.
split_nibble : (n p : ℕ) → 0 < p → n % (p * 16) ≡ n / p % 16 * p + n % p
split_nibble n p h = omega (
  arith,
  mod-add-div' n (p * 16),
  ap (λ t. t * (p * 16)) (div-div-eq-div-mul n p 16),
  mod-add-div' n p,
  ap (λ t. t * p) (mod-add-div' (n / p) 16),
)

from-zero : (in' digits : ℕ) → u64toh_from zero in' digits ≡ hex_char (in' % 16) ∷ []
unfolding u64toh_from
from-zero in' digits = refl

u64toh_from-AreHexDigits : (k in' digits : ℕ) → AreHexDigits (u64toh_from k in' digits)
u64toh_from-AreHexDigits zero in' digits =
    rw (from-zero in' digits) (hex_char-IsHexDigit (in' % 16) (omega arith), tt)
u64toh_from-AreHexDigits (suc k) in' digits =
    elim (Bool-cases (ltb 0 (nibble k in' digits) || ltb 0 digits)) [
      | inl w ↦ rw (from-written k in' digits w) (
        hex_char-IsHexDigit (nibble k in' digits) (omega arith),
        u64toh_from-AreHexDigits k in' (digits + 1),
      )
      | inr s ↦ rw (from-skipped k in' digits s) (u64toh_from-AreHexDigits k in' digits)
    ]

or_false : (a b : Bool) → (a || b) ≡ false → (a ≡ false) × (b ≡ false)
or_false true b h = (cc, cc)
or_false false b h = (refl, h)

-- From a position down, the loop writes the nibbles of the number from there down.
u64toh_from-reads :
    (k in' digits acc : ℕ)
    → (digits ≡ 0 → acc ≡ 0)
    → read_hex acc (u64toh_from k in' digits) ≡ acc * 2 ^ (4 * suc k) + in' % 2 ^ (4 * suc k)
unfolding read_hex
u64toh_from-reads zero in' digits acc z =
    rw (from-zero in' digits) (ap (λ d. acc * 16 + d) (hex_value-hex_char (in' % 16) (omega arith)))
u64toh_from-reads (suc k) in' digits acc z =
    let p = 2 ^ (4 * suc k) in
    let top = split_nibble in' p (pow16-pos (suc k)) in
    let power = pow16-suc (suc k) in
    elim (Bool-cases (ltb 0 (nibble k in' digits) || ltb 0 digits)) [
      | inl w ↦
          let ih =
            u64toh_from-reads k in' (digits + 1) (acc * 16 + nibble k in' digits)
              (λ n. absurd (omega arith)) in
          let shown = hex_value-hex_char (nibble k in' digits) (omega arith) in
          rw (from-written k in' digits w) (
            ap (λ d. read_hex (acc * 16 + d) (u64toh_from k in' (digits + 1))) shown
            ∙ ih
            ∙ rw power (rw top (omega arith)))
      | inr s ↦
          let parts = or_false (ltb 0 (nibble k in' digits)) (ltb 0 digits) s in
          let none_yet : digits ≡ 0 = ground (arith, parts.1) in
          let no_nibble : nibble k in' digits ≡ 0 = ground (arith, parts.0) in
          rw (from-skipped k in' digits s) (
            u64toh_from-reads k in' digits acc z
            ∙ rw power
                (rw (top, no_nibble) (omega (arith, z none_yet, ap (λ a. a * p) (z none_yet)))))
    ]

-- The text of a 64-bit number reads as the number, in base 16, and its characters are the digits from
-- 0 to 9 and from a to f.
pub u64toh_r-reads :
    (v : ℕ) → v < u64_mod → (read_hex 0 (u64toh_r v) ≡ v) × AreHexDigits (u64toh_r v)
unfolding u64toh_r
u64toh_r-reads v h =
    (u64toh_from-reads 15 v 0 0 (λ _. refl) ∙ omega arith, u64toh_from-AreHexDigits 15 v 0)
