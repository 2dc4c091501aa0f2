-- ===== src/Base/Words.antt =====
-- 64-bit unsigned arithmetic, with its wrap-around.
use Prim.Native.Nat.{ℕ, ◌+◌, ◌-◌, ◌%◌, ◌≤◌, ◌<◌}
use mathlib.Core.Path.{◌≡◌}
use native.Mathlib.Omega.{arith}

-- 2 ^ 64
abbrev pub u64_mod : ℕ
u64_mod = 18446744073709551616

-- `size_t` addition and subtraction
abbrev pub add_u64 : ℕ → ℕ → ℕ
add_u64 a b = (a + b) % u64_mod

abbrev pub sub_u64 : ℕ → ℕ → ℕ
sub_u64 a b = (a + u64_mod - b) % u64_mod

pub add_u64-eq : (a b : ℕ) → a + b < u64_mod → add_u64 a b ≡ a + b
add_u64-eq a b h = omega arith

pub sub_u64-eq : (a b : ℕ) → a < u64_mod → b ≤ a → sub_u64 a b ≡ a - b
sub_u64-eq a b h k = omega arith
