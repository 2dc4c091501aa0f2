-- ===== src/Base/Halting.antt =====
-- Runs of kernel code: a failed `ASSERT` stops the machine for good, and nothing follows it.
use mathlib.Core.Bool.{Bool, true, false}

pub data Run {ℓ} (A : Type ℓ) : Type ℓ where
  ok : A → Run A
  halt : Run A

-- The run returns, and what it returns satisfies `P`.
abbrev pub Returns {ℓ} : {A : Type ℓ} → (A → Type 0) → Run A → Type 0
Returns P (ok a) = P a
Returns P halt = ⊥

infixl 5 ◌>>=◌ ◌>>◌
abbrev pub ◌>>=◌ {ℓ κ} : {A : Type ℓ} {B : Type κ} → Run A → (A → Run B) → Run B
ok a >>= f = f a
halt >>= f = halt

abbrev pub ◌>>◌ {ℓ} : {B : Type ℓ} → Run (Unit {0}) → Run B → Run B
m >> k = m >>= λ _. k

-- `ASSERT(expr)`
abbrev pub assert : Bool → Run (Unit {0})
assert true = ok tt
assert false = halt
