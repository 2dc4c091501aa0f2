-- ===== src/Strings.antt =====
-- src/lib/string.c: `memcpy`, `memset` and `memmove` on a memory of bytes. Addresses and positions are
-- 64-bit words.
pub mod Move
mod Tests
use tomato.Base.{ℕ, suc, zero, ◌+◌, ◌-◌, ◌%◌, ltb, Bool, update, add_u64, u64_mod, if◌then◌else◌}

-- The loop of `memcpy`, with the number of rounds left.
unfoldable pub copy_loop : (rounds dst src pos : ℕ) → (ℕ → ℕ) → ℕ → ℕ
copy_loop zero dst src pos mem = mem
copy_loop (suc rounds) dst src pos mem =
    copy_loop rounds dst src (pos + 1) (update mem (add_u64 dst pos) (mem (add_u64 src pos)))

unfoldable pub memcpy : (dst src len : ℕ) → (ℕ → ℕ) → ℕ → ℕ
memcpy dst src len mem = copy_loop len dst src 0 mem

-- The byte is the low byte of `b`.
unfoldable pub memset : (dst b len : ℕ) → (ℕ → ℕ) → ℕ → ℕ
memset dst b zero mem = mem
memset dst b (suc len) mem = memset (add_u64 dst 1) b len (update mem dst (b % 256))

-- The loop of `memmove`: the position goes by `dir` before each byte.
unfoldable pub move_loop : (len dst src pos dir : ℕ) → (ℕ → ℕ) → ℕ → ℕ
move_loop zero dst src pos dir mem = mem
move_loop (suc len) dst src pos dir mem =
    let pos' = add_u64 pos dir in
    move_loop len dst src pos' dir (update mem (add_u64 dst pos') (mem (add_u64 src pos')))

-- -1 as a `size_t`
abbrev pub minus_one : ℕ
minus_one = 18446744073709551615

unfoldable pub memmove : (dst src len : ℕ) → (ℕ → ℕ) → ℕ → ℕ
memmove dst src len mem =
    if ltb dst src
    then move_loop len dst src minus_one 1 mem
    else move_loop len dst src len minus_one mem
