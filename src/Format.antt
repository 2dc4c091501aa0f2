-- ===== src/Format.antt =====
-- src/lib/snprintf.c: `kvsnprintf`. The format is the list of its bytes before the null byte, and is
-- read a byte at a time; what `va_arg` would read is a list of arguments.
pub mod Digits
pub mod Decimal
pub mod Hexadecimal
pub mod Truncation
mod Tests
use Digits.{u64toa_r, i64toa_r, u64toh_r}
use tomato.Base.{
  ℕ, zero, suc, ◌+◌, ◌-◌, ◌*◌, ◌%◌, Bool, true, false, ◌&&◌, ◌||◌, not, List, [], ◌∷◌, ◌++◌, Option,
  none, some, ltb, leb, ◌==◌, if◌then◌else◌, length, take, set, replicate, min, u64_mod, add_u64,
}

-- An argument: an integer or pointer by its 64 bits, or a string, which may be null.
pub data Arg : Type 0 where
  word : ℕ → Arg
  text : Option (List ℕ) → Arg

-- How far an escape sequence has been read.
pub data Phase : Type 0 where
  flags width_digits modifiers conversion : Phase

-- An escape sequence, with the bytes of it behind the `%`.
pub record Spec : Type 0 where
  pub phase : Phase
  pub pad : ℕ
  pub width : ℕ
  pub lpref : ℕ
  pub seen : List ℕ

abbrev pub fresh : Spec
fresh = record { phase = flags; pad = b' '; width = 0; lpref = 0; seen = [] }

-- Reading text, with the bytes that wait to be flushed, or inside an escape sequence.
pub data Mode : Type 0 where
  literal : List ℕ → Mode
  escape : Spec → Mode

abbrev is_digit : ℕ → Bool
is_digit c = leb b'0' c && leb c b'9'

add_digit : Spec → ℕ → Spec
add_digit sp c = record sp {
  phase = width_digits;
  width = add_u64 (sp.width * 10 % u64_mod) (c - b'0');
  seen = sp.seen ++ (c ∷ []);
}

-- A modifier, if the byte is one that may stand here.
read_modifier : Spec → ℕ → Option Spec
read_modifier sp c =
    if c == b'l'
    then some (record sp { phase = modifiers; lpref = sp.lpref + 1; seen = sp.seen ++ (c ∷ []) })
    else if c == b'z' && sp.lpref == 0
    then some (record sp { phase = conversion; lpref = 1; seen = sp.seen ++ (c ∷ []) })
    else none

read_width : Spec → ℕ → Option Spec
unfolding add_digit read_modifier
read_width sp c = if is_digit c then some (add_digit sp c) else read_modifier sp c

-- The escape sequence with one more byte, or `none` if the byte is the conversion.
read_by : Phase → Spec → ℕ → Option Spec
unfolding read_width
read_by flags sp c =
    if c == b'0'
    then some (record sp { phase = width_digits; pad = b'0'; seen = sp.seen ++ (c ∷ []) })
    else read_width sp c
read_by width_digits sp c = read_width sp c
read_by modifiers sp c = read_modifier sp c
read_by conversion sp c = none

unfoldable pub read_spec : Spec → ℕ → Option Spec
unfolding read_by
read_spec sp c = read_by sp.phase sp c

-- `v` as `va_arg` reads it: 64 bits, or the low 32 with no modifier, sign-extended for `%d`.
arg_value : ℕ → ℕ → ℕ → ℕ
arg_value c lpref v =
    if c == b'p' || ltb 0 lpref
    then v
    else (let low = v % 4294967296 in
        if c == b'd' && leb 2147483648 low then low + (u64_mod - 4294967296) else low)

char_text : ℕ → List ℕ
char_text v = if v % 256 == 0 then [] else (v % 256) ∷ []

number_text : ℕ → ℕ → List ℕ
number_text c v =
    if c == b'c'
    then char_text v
    else if c == b'd'
    then i64toa_r v
    else if c == b'u'
    then u64toa_r v
    else if c == b'p'
    then b'0' ∷ b'x' ∷ u64toh_r v
    else u64toh_r v

abbrev takes_number : ℕ → Bool
takes_number c = c == b'c' || (c == b'd' || (c == b'u' || (c == b'x' || c == b'p')))

-- "(null)"
abbrev null_text : List ℕ
null_text = b'(' ∷ b'n' ∷ b'u' ∷ b'l' ∷ b'l' ∷ b')' ∷ []

-- What a conversion does: flush a text at a width, or queue the bytes behind the `%` as text.
pub data Action : Type 0 where
  flush : (pad width : ℕ) → List ℕ → List Arg → Action
  queue : List ℕ → Action

number_action : Spec → ℕ → List Arg → Option Action
unfolding arg_value char_text number_text
number_action sp c (word v ∷ args) =
    some (flush sp.pad sp.width (number_text c (arg_value c sp.lpref v)) args)
number_action sp c _ = none

string_action : Spec → List Arg → Option Action
string_action sp (text none ∷ args) = some (flush sp.pad sp.width null_text args)
string_action sp (text (some s) ∷ args) = some (flush sp.pad sp.width s args)
string_action sp _ = none

-- `none` where `va_arg` has no argument of the type to read. An unknown conversion is printed as it
-- stands, with its `%`.
unfoldable pub convert : Spec → ℕ → List Arg → Option Action
unfolding number_action string_action
convert sp c args =
    if takes_number c
    then number_action sp c args
    else if c == b's'
    then string_action sp args
    else if c == b'%'
    then some (queue (sp.seen ++ (c ∷ [])))
    else some (flush sp.pad 0 (b'%' ∷ (sp.seen ++ (c ∷ []))) args)

-- The reading of the format, over what a flush does to a state of type `S`.
module _ {S : Type 0} (emit : (pad width : ℕ) → List ℕ → S → S) where
  unfoldable pub scan : List ℕ → Mode → List Arg → S → Option S
  scan [] (literal pending) args s = some (emit b' ' 0 pending s)
  scan [] (escape sp) args s = some (emit sp.pad 0 (b'%' ∷ sp.seen) s)
  scan (c ∷ cs) (literal pending) args s = elim (c == b'%') [
    | true ↦ scan cs (escape fresh) args (emit b' ' 0 pending s)
    | false ↦ scan cs (literal (pending ++ (c ∷ []))) args s
  ]
  scan (c ∷ cs) (escape sp) args s = elim (read_spec sp c) [
    | some sp' ↦ scan cs (escape sp') args s
    | none ↦ elim (convert sp c args) [
      | none ↦ none
      | some (flush pad width str rest) ↦ scan cs (literal []) rest (emit pad width str s)
      | some (queue pending) ↦ scan cs (literal pending) args s
    ]
  ]

-- The output: the bytes from `buf` up to `out`, the room left, and the length without truncation.
pub record Out : Type 0 where
  pub bytes : List ℕ
  pub n : ℕ
  pub written : ℕ

-- `flush_str`
unfoldable pub flush_str : (pad width : ℕ) → List ℕ → Out → Out
flush_str pad width str o =
    let len = length str in
    let pad_len = if ltb len width then width - len else 0 in
    let p = if ltb pad_len o.n then pad_len else o.n in
    let n' = o.n - p in
    let w = if ltb len n' then len else n' in
    record {
      bytes = o.bytes ++ (replicate p pad ++ take w str);
      n = n' - w;
      written = add_u64 o.written (add_u64 pad_len len);
    }

-- `buf[written < size ? written : size - 1] = '\0'`
unfoldable pub terminate : (size : ℕ) → Out → List ℕ
terminate size o =
    if size == 0
    then o.bytes
    else if ltb o.written size
    then o.bytes ++ (0 ∷ [])
    else set o.bytes (size - 1) 0

-- The bytes that `kvsnprintf(buf, size, fmt, args)` leaves in the buffer.
unfoldable pub kvsnprintf : (size : ℕ) → List ℕ → List Arg → Option (List ℕ)
kvsnprintf size fmt args =
    elim (scan flush_str fmt (literal []) args (record { bytes = []; n = size; written = 0 })) [
      | none ↦ none
      | some o ↦ some (terminate size o)
    ]
