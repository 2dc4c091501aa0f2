-- ===== src/Format/Digits.antt =====
-- src/lib/snprintf.c: the conversions of numbers to text. A text is the list of its bytes, without
-- the null byte at its end; the returned length is the length of the list.
use tomato.Base.{
  ℕ, zero, suc, ◌+◌, ◌-◌, ◌*◌, ◌/◌, ◌%◌, ◌^◌, ◌||◌, List, [], ◌∷◌, ltb, leb, if◌then◌else◌, u64_mod,
}

-- `for (dig = 0, lim = 1; dig < pos; dig++) lim *= 10`
unfoldable pub limit_of : (pos : ℕ) → ℕ
limit_of zero = 1
limit_of (suc pos) = limit_of pos * 10 % u64_mod

-- `for (dig = 0; in >= lim; dig++) in -= lim`, which runs at most nine times: `in < 10 * lim`.
unfoldable pub digit_loop : (fuel lim in' dig : ℕ) → ℕ × ℕ
digit_loop zero lim in' dig = (dig, in')
digit_loop (suc f) lim in' dig =
    let next = digit_loop f lim (in' - lim) (dig + 1) in if leb lim in' then next else (dig, in')

-- The loop of `u64toa_r` from a position down, with `digits` bytes written.
unfoldable pub u64toa_from : (pos in' digits : ℕ) → List ℕ
u64toa_from zero in' digits = let (dig, _) = digit_loop 10 (limit_of 0) in' 0 in (b'0' + dig) ∷ []
u64toa_from (suc pos) in' digits =
    let lim = limit_of (suc pos) in
    let (dig, left) = digit_loop 10 lim in' 0 in
    let written = (b'0' + dig) ∷ u64toa_from pos left (digits + 1) in
    let skipped = u64toa_from pos in' digits in
    if ltb 0 digits || leb lim in' then written else skipped

unfoldable pub u64toa_r : ℕ → List ℕ
u64toa_r in' = u64toa_from 19 in' 0

-- An `int64_t` is given by its bit pattern.
unfoldable pub i64toa_r : ℕ → List ℕ
i64toa_r in' = if leb 9223372036854775808 in' then b'-' ∷ u64toa_r (u64_mod - in') else u64toa_r in'

-- '0' + dig, where a digit above 9 is moved to the letters
unfoldable pub hex_char : ℕ → ℕ
hex_char dig = if ltb 9 dig then b'0' + (dig + (b'a' - b'0' - 10)) else b'0' + dig

-- The loop of `u64toh_r` with `pos = 4 * k`; the last position is written in any case.
unfoldable pub u64toh_from : (k in' digits : ℕ) → List ℕ
u64toh_from zero in' digits = hex_char (in' % 16) ∷ []
u64toh_from (suc k) in' digits =
    let dig = in' / 2 ^ (4 * suc k) % 16 in
    let written = hex_char dig ∷ u64toh_from k in' (digits + 1) in
    let skipped = u64toh_from k in' digits in if ltb 0 dig || ltb 0 digits then written else skipped

unfoldable pub u64toh_r : ℕ → List ℕ
u64toh_r in' = u64toh_from 15 in' 0
