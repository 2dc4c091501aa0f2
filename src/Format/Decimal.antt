-- ===== src/Format/Decimal.antt =====
-- src/lib/snprintf.c, `u64toa_r` and `i64toa_r`: the text is the decimal numeral of the number.
use native.Mathlib.Decide.{dec_lt}
use native.Mathlib.Nat.{pow-suc, pow-le-pow_right}
use tomato.Base.{
  ℕ, zero, suc, ◌+◌, ◌-◌, ◌*◌, ◌^◌, ◌≤◌, ◌<◌, ◌≡◌, refl, ap, ◌∙◌, Bool, true, false, ◌||◌, List, [],
  ◌∷◌, ltb, leb, length, u64_mod, Bool-cases, inl, inr, arith,
}
use tomato.Format.Digits.{limit_of, digit_loop, u64toa_from, u64toa_r, i64toa_r}

-- The number that a decimal numeral stands for, after the digits read so far.
unfoldable pub read_decimal : ℕ → List ℕ → ℕ
read_decimal acc [] = acc
read_decimal acc (c ∷ cs) = read_decimal (acc * 10 + (c - b'0')) cs

abbrev pub AreDigits : List ℕ → Type 0
AreDigits [] = Unit
AreDigits (c ∷ cs) = ((b'0' ≤ c) × (c ≤ b'9')) × AreDigits cs

limit_of-pow : (pos : ℕ) → pos ≤ 19 → limit_of pos ≡ 10 ^ pos
unfolding limit_of
limit_of-pow zero h = refl
limit_of-pow (suc pos) h =
    let bound = pow-le-pow_right {n = 10} (omega arith) {i = suc pos} {j = 19} h in
    omega (arith, limit_of-pow pos (omega arith), pow-suc 10 pos, bound)

-- The loop divides by subtraction.
record Divides (lim in' dig : ℕ) (f : ℕ) (result : ℕ × ℕ) : Type 0 where
  exact : result.0 * lim + result.1 ≡ dig * lim + in'
  small : result.1 < lim
  digit : result.0 < dig + f

digit_loop-Divides :
    (f lim in' dig : ℕ) → in' < f * lim → Divides lim in' dig f (digit_loop f lim in' dig)
unfolding digit_loop
digit_loop-Divides zero lim in' dig h = absurd (omega arith)
digit_loop-Divides (suc f) lim in' dig h = elim (Bool-cases (leb lim in')) [
  | inl more ↦
      let ih = digit_loop-Divides f lim (in' - lim) (dig + 1) (ground arith) in
      rw more (record {
        exact = ground (arith, ih.exact);
        small = ih.small;
        digit = omega (arith, ih.digit);
      })
  | inr done ↦ rw done (record { exact = refl; small = ground arith; digit = omega arith })
]

module _ (pos in' digits : ℕ) where
  abbrev division : ℕ × ℕ
  division = digit_loop 10 (limit_of (suc pos)) in' 0

  from-written :
      (ltb 0 digits || leb (limit_of (suc pos)) in') ≡ true
      → u64toa_from (suc pos) in' digits
        ≡ (b'0' + division.0) ∷ u64toa_from pos division.1 (digits + 1)
  unfolding u64toa_from
  from-written e = rw (e, u64toa_from)

  from-skipped :
      (ltb 0 digits || leb (limit_of (suc pos)) in') ≡ false
      → u64toa_from (suc pos) in' digits ≡ u64toa_from pos in' digits
  unfolding u64toa_from
  from-skipped e = rw (e, u64toa_from)

from-zero :
    (in' digits : ℕ)
    → u64toa_from zero in' digits ≡ (b'0' + (digit_loop 10 (limit_of 0) in' 0).0) ∷ []
unfolding u64toa_from
from-zero in' digits = refl

or_false : (a b : Bool) → (a || b) ≡ false → (a ≡ false) × (b ≡ false)
or_false true b h = (cc, cc)
or_false false b h = (refl, h)

-- The last digit is what is left.
last_digit : (in' : ℕ) → in' < 10 → (digit_loop 10 (limit_of 0) in' 0).0 ≡ in'
unfolding limit_of
last_digit in' h =
    let d = digit_loop-Divides 10 (limit_of 0) in' 0 (omega arith) in
    omega (arith, d.exact, d.small)

-- From a position down, the loop writes the digits of what is left.
u64toa_from-reads :
    (pos in' digits acc : ℕ)
    → pos ≤ 19
    → in' < 10 ^ suc pos
    → (digits ≡ 0 → acc ≡ 0)
    → (read_decimal acc (u64toa_from pos in' digits) ≡ acc * 10 ^ suc pos + in')
      × AreDigits (u64toa_from pos in' digits)
unfolding read_decimal
u64toa_from-reads zero in' digits acc p h z =
    let e = last_digit in' (omega arith) in
    rw (from-zero in' digits, e) (omega arith, (omega arith, tt))
u64toa_from-reads (suc pos) in' digits acc p h z =
    let lim = limit_of-pow (suc pos) p in
    elim (Bool-cases (ltb 0 digits || leb (limit_of (suc pos)) in')) [
      | inl yes_write ↦
          let d =
            digit_loop-Divides 10 (limit_of (suc pos)) in' 0
              (omega (arith, lim, pow-suc 10 (suc pos))) in
          let r = division pos in' digits in
          let ih =
            u64toa_from-reads pos r.1 (digits + 1) (acc * 10 + r.0) (omega arith)
              (omega (arith, lim, d.small)) (λ n. absurd (omega arith)) in
          let shown : acc * 10 + (b'0' + r.0 - b'0') ≡ acc * 10 + r.0 = omega arith in
          rw (from-written pos in' digits yes_write) (
            (ap (λ a. read_decimal a (u64toa_from pos r.1 (digits + 1))) shown
                ∙ ih.0
                ∙ omega (
                  arith,
                  d.exact,
                  ap (λ l. r.0 * l) lim,
                  pow-suc 10 (suc pos),
                  ap (λ q. acc * q) (pow-suc 10 (suc pos)),
                )),
            (omega (arith, d.digit), ih.1),
          )
      | inr no_write ↦
          let parts = or_false (ltb 0 digits) (leb (limit_of (suc pos)) in') no_write in
          let none_yet : digits ≡ 0 = ground (arith, parts.0) in
          let small : in' < 10 ^ suc pos = ground (arith, parts.1, lim) in
          let ih = u64toa_from-reads pos in' digits acc (omega arith) small z in
          rw (from-skipped pos in' digits no_write) (
            ih.0
                ∙ omega (
                  arith,
                  z none_yet,
                  ap (λ a. a * 10 ^ suc pos) (z none_yet),
                  ap (λ a. a * 10 ^ suc (suc pos)) (z none_yet),
                ),
            ih.1,
          )
    ]

-- A number below a power of ten has at most that many digits.
length-u64toa_from : (pos in' digits : ℕ) → length (u64toa_from pos in' digits) ≤ suc pos
length-u64toa_from zero in' digits = rw (from-zero in' digits) (omega arith)
length-u64toa_from (suc pos) in' digits =
    elim (Bool-cases (ltb 0 digits || leb (limit_of (suc pos)) in')) [
      | inl w ↦
          rw (from-written pos in' digits w)
            (omega (arith, length-u64toa_from pos (division pos in' digits).1 (digits + 1)))
      | inr s ↦
          rw (from-skipped pos in' digits s) (omega (arith, length-u64toa_from pos in' digits))
    ]

length-u64toa_from-lt :
    (pos k in' : ℕ) → pos ≤ 19 → in' < 10 ^ suc k → length (u64toa_from pos in' 0) ≤ suc k
length-u64toa_from-lt zero k in' p h = omega (arith, length-u64toa_from zero in' 0)
length-u64toa_from-lt (suc pos) k in' p h = elim (dec_lt k (suc pos)) [
  | yes lt ↦
      let bound = pow-le-pow_right {n = 10} (omega arith) {i = suc k} {j = suc pos} lt in
      let skip : (ltb 0 0 || leb (limit_of (suc pos)) in') ≡ false =
        ground (arith, limit_of-pow (suc pos) p) in
      rw (from-skipped pos in' 0 skip) (length-u64toa_from-lt pos k in' (omega arith) h)
  | no ge ↦ omega (arith, length-u64toa_from (suc pos) in' 0)
]

-- The text of a 64-bit number is a decimal numeral, of at most 20 digits, that reads as the number.
pub u64toa_r-reads :
    (v : ℕ)
    → v < u64_mod
    → (read_decimal 0 (u64toa_r v) ≡ v) × AreDigits (u64toa_r v) × (length (u64toa_r v) ≤ 20)
unfolding u64toa_r
u64toa_r-reads v h =
    let (value, all) = u64toa_from-reads 19 v 0 0 (omega arith) (omega arith) (λ _. refl) in
    (value ∙ omega arith, all, length-u64toa_from 19 v 0)

-- The text of an `int64_t` fits the 21 bytes of the buffer, the null byte included.
pub length-i64toa_r : (v : ℕ) → v < u64_mod → length (i64toa_r v) + 1 ≤ 21
unfolding i64toa_r u64toa_r
length-i64toa_r v h = elim (Bool-cases (leb 9223372036854775808 v)) [
  | inl negative ↦
      rw negative
        (omega (arith, length-u64toa_from-lt 19 18 (u64_mod - v) (omega arith) (ground arith)))
  | inr positive ↦ rw positive (omega (arith, length-u64toa_from 19 v 0))
]
