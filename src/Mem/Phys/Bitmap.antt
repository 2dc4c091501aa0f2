-- ===== src/Mem/Phys/Bitmap.antt =====
-- The bit operations on a byte of the buddy bitmap.
use tomato.Base.{
  ltb, ℕ, zero, suc, ◌+◌, ◌-◌, ◌/◌, ◌%◌, ◌^◌, ◌<◌, ◌≡◌, refl, Bool, true, false, not, ◌&&◌, ◌==◌,
  if◌then◌else◌, arith,
}

-- `(byte >> shift) & 1`
unfoldable pub bit_at : (byte shift : ℕ) → Bool
bit_at byte shift = byte / 2 ^ shift % 2 == 1

-- `byte | 1 << shift`
unfoldable pub bit_set : (byte shift : ℕ) → ℕ
unfolding bit_at
bit_set byte shift = if bit_at byte shift then byte else byte + 2 ^ shift

-- `byte & ~(1 << shift)`
unfoldable pub bit_clear : (byte shift : ℕ) → ℕ
unfolding bit_at
bit_clear byte shift = if bit_at byte shift then byte - 2 ^ shift else byte

eqb : Bool → Bool → Bool
eqb true b = b
eqb false b = not b

eqb→eq : (a b : Bool) → eqb a b ≡ true → a ≡ b
unfolding eqb
eqb→eq true b h = ground arith
eqb→eq false b h = ground arith

and_left : (a b : Bool) → (a && b) ≡ true → a ≡ true
and_left true b h = refl
and_left false b h = h

and_right : (a b : Bool) → (a && b) ≡ true → b ≡ true
and_right true b h = h
and_right false b h = cc

-- A test by evaluation at each number under a bound.
passes : (test : ℕ → Bool) (bound : ℕ) → Bool
passes test zero = true
passes test (suc k) = let under = passes test k in if under then test k else false

passes-lt : (test : ℕ → Bool) (bound i : ℕ) → i < bound → passes test bound ≡ true → test i ≡ true
unfolding passes
passes-lt test zero i under all = absurd (omega arith)
passes-lt test (suc k) i under all = ground (arith, passes-lt test k i)

-- A bit that is set or cleared changes, no other does, and the byte stays one.
bits_agree : (byte shift other : ℕ) → Bool
bits_agree byte shift other =
    eqb (bit_at (bit_set byte shift) other) (if shift == other then true else bit_at byte other)
    && (eqb (bit_at (bit_clear byte shift) other)
          (if shift == other then false else bit_at byte other)
        && (ltb (bit_set byte shift) 256 && ltb (bit_clear byte shift) 256))

bits_table :
    passes (λ byte. passes (λ shift. passes (λ other. bits_agree byte shift other) 8) 8) 256 ≡ true
unfolding passes bits_agree bit_at bit_set bit_clear eqb
bits_table = refl

module _ (byte shift other : ℕ) (hb : byte < 256) (hs : shift < 8) (ho : other < 8) where
  agrees : bits_agree byte shift other ≡ true
  agrees = passes-lt _ 8 other ho (passes-lt _ 8 shift hs (passes-lt _ 256 byte hb bits_table))

  pub bit_at-bit_set :
      bit_at (bit_set byte shift) other ≡ (if shift == other then true else bit_at byte other)
  unfolding bits_agree
  bit_at-bit_set = eqb→eq _ _ (and_left _ _ agrees)

  pub bit_at-bit_clear :
      bit_at (bit_clear byte shift) other ≡ (if shift == other then false else bit_at byte other)
  unfolding bits_agree
  bit_at-bit_clear = eqb→eq _ _ (and_left _ _ (and_right _ _ agrees))
