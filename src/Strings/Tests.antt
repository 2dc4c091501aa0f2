-- ===== src/Strings/Tests.antt =====
-- Runs of src/lib/string.c.
use tomato.Base.{ℕ, ◌≡◌, refl, arith}
use tomato.Strings.{memcpy, copy_loop, memset, memmove, move_loop}
use tomato.Strings.Move.{copied, memmove-copied}

-- The byte at each address is the address.
abbrev ramp : ℕ → ℕ
ramp a = a

copies : (memcpy 100 3 2 ramp 101 ≡ 4) × (memcpy 100 3 2 ramp 102 ≡ 102)
unfolding memcpy copy_loop
copies = (refl, refl)

sets : (memset 10 511 3 ramp 12 ≡ 255) × (memset 10 511 3 ramp 13 ≡ 13)
unfolding memset
sets = (refl, refl)

overlaps : (memmove 5 3 4 ramp 8 ≡ 6) × (memmove 3 5 4 ramp 3 ≡ 5)
unfolding memmove move_loop
overlaps = (refl, refl)

memmove-copied_example : memmove 5 3 4 ramp 8 ≡ copied 5 3 0 4 ramp 8
memmove-copied_example = memmove-copied 5 3 4 ramp 8 (omega arith) (omega arith)
