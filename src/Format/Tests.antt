-- ===== src/Format/Tests.antt =====
-- Runs of `kvsnprintf`, and the theorems at concrete arguments.
use Prim.Native.String.{String}
use Prim.Native.Char.{code}
use tomato.Base.{
  ℕ, ◌-◌, ◌≤◌, ◌≡◌, refl, List, none, some, [], ◌∷◌, ◌++◌, ◌==◌, if◌then◌else◌, length, take, arith,
}
use tomato.Format.{kvsnprintf, Arg, word, text, scan, flush_str, terminate, read_spec, convert}
use tomato.Format.Digits.{
  u64toa_r, i64toa_r, u64toh_r, u64toa_from, u64toh_from, digit_loop, limit_of, hex_char,
}
use tomato.Format.Decimal.{read_decimal, AreDigits, u64toa_r-reads}
use tomato.Format.Hexadecimal.{read_hex, AreHexDigits, u64toh_r-reads}
use tomato.Format.Truncation.{render, kvsnprintf-render}

-- The bytes of a text.
abbrev codes : String → List ℕ
codes String.[] = []
codes (String.◌∷◌ c s) = code c ∷ codes s

abbrev arguments : List Arg
arguments = word 4294967254 ∷ word 3054 ∷ text (some (codes "hi")) ∷ word 65 ∷ []

-- The padding, the modes and an unknown conversion, in a large buffer and in a small one.
large_runs :
    kvsnprintf 64 (codes "a%5d|%04x|%s%%%c%q") arguments
    ≡ some (codes "a  -42|0bee|hi%A%q" ++ (0 ∷ []))
unfolding kvsnprintf scan flush_str terminate read_spec convert u64toa_r i64toa_r u64toh_r
    u64toa_from u64toh_from digit_loop limit_of hex_char
large_runs = refl

small_runs : kvsnprintf 4 (codes "a%5d|%04x|%s%%%c%q") arguments ≡ some (codes "a  " ++ (0 ∷ []))
unfolding kvsnprintf scan flush_str terminate read_spec convert u64toa_r i64toa_r u64toh_r
    u64toa_from u64toh_from digit_loop limit_of hex_char
small_runs = refl

kvsnprintf-render_example :
    kvsnprintf 4 (codes "%d!%s") (word 70 ∷ text none ∷ [])
    ≡ some (if 4 == 0 then [] else take (4 - 1) (codes "70!(null)") ++ (0 ∷ []))
unfolding render scan read_spec convert u64toa_r i64toa_r u64toa_from digit_loop limit_of
kvsnprintf-render_example =
    kvsnprintf-render 4 (codes "%d!%s") (word 70 ∷ text none ∷ []) refl (omega arith)

u64toa_r-reads_example :
    (read_decimal 0 (u64toa_r 1203) ≡ 1203)
    × AreDigits (u64toa_r 1203)
    × (length (u64toa_r 1203) ≤ 20)
u64toa_r-reads_example = u64toa_r-reads 1203 (omega arith)

u64toh_r-reads_example : (read_hex 0 (u64toh_r 3054) ≡ 3054) × AreHexDigits (u64toh_r 3054)
u64toh_r-reads_example = u64toh_r-reads 3054 (omega arith)
