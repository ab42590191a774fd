-- ===== src/Common/Int.antt =====
-- Signed integers over the native numbers, and their narrowing to 16 and 32 bits.
use Prim.Native.Nat.{ℕ, suc, ◌+◌, ◌-◌, ◌%◌, ◌≤◌, ◌<◌}
use mathlib.Core.Path.{◌≡◌}
use mathlib.Core.Bool.{Bool}
use native.Mathlib.Omega.{arith}
use r_faa_s.Common.Tests.{ltb, leb, ◌==◌, if◌then◌else◌}

-- `negsuc n` is -(n + 1).
pub data ℤ : Type 0 where
  pos : ℕ → ℤ
  negsuc : ℕ → ℤ

abbrev pub pos_part : ℤ → ℕ
pos_part (pos n) = n
pos_part (negsuc n) = 0

abbrev pub neg_part : ℤ → ℕ
neg_part (pos n) = 0
neg_part (negsuc n) = suc n

abbrev pub sub_ℕ : ℕ → ℕ → ℤ
sub_ℕ a b = if leb b a then pos (a - b) else negsuc (b - a - 1)

infixl 65 ◌+ℤ◌ ◌-ℤ◌
infix 50 ◌≤ℤ◌
unfoldable pub ◌+ℤ◌ : ℤ → ℤ → ℤ
a +ℤ b = sub_ℕ (pos_part a + pos_part b) (neg_part a + neg_part b)

unfoldable pub ◌-ℤ◌ : ℤ → ℤ → ℤ
a -ℤ b = sub_ℕ (pos_part a + neg_part b) (neg_part a + pos_part b)

abbrev pub ◌≤ℤ◌ : ℤ → ℤ → Type 0
a ≤ℤ b = pos_part a + neg_part b ≤ pos_part b + neg_part a

abbrev pub ltb_ℤ : ℤ → ℤ → Bool
ltb_ℤ a b = ltb (pos_part a + neg_part b) (pos_part b + neg_part a)

abbrev pub eqb_ℤ : ℤ → ℤ → Bool
eqb_ℤ a b = pos_part a + neg_part b == pos_part b + neg_part a

pub +ℤ_parts :
    (a b : ℤ)
    → pos_part (a +ℤ b) + neg_part a + neg_part b ≡ neg_part (a +ℤ b) + pos_part a + pos_part b
unfolding ◌+ℤ◌
+ℤ_parts a b = ground arith

pub -ℤ_parts :
    (a b : ℤ)
    → pos_part (a -ℤ b) + neg_part a + pos_part b ≡ neg_part (a -ℤ b) + pos_part a + neg_part b
unfolding ◌-ℤ◌
-ℤ_parts a b = ground arith

pub eq_of_parts : (a b : ℤ) → pos_part a + neg_part b ≡ pos_part b + neg_part a → a ≡ b
eq_of_parts a b h = ground arith

pub ruleset int_laws = (arith, +ℤ_parts, -ℤ_parts, eq_of_parts)

pub sub-add_cancel : (a b : ℤ) → (a -ℤ b) +ℤ b ≡ a
sub-add_cancel a b = omega int_laws

-- The integer that the bit pattern `n`, of 2 * half values, stands for.
abbrev pub signed : ℕ → ℕ → ℤ
signed half n = if ltb n half then pos n else negsuc (half + half - n - 1)

-- The bit pattern of an integer in 2 * half values: what the conversion to unsigned gives.
abbrev pub pattern_of : ℕ → ℤ → ℕ
pattern_of half (pos n) = n % (half + half)
pattern_of half (negsuc n) = half + half - 1 - n % (half + half)

-- Conversion to `int16_t` and to `int32_t`: reduction modulo 2 ^ 16 and 2 ^ 32.
unfoldable pub to_int16 : ℤ → ℤ
to_int16 a = signed 0x8000 (pattern_of 0x8000 a)

unfoldable pub to_int32 : ℤ → ℤ
to_int32 a = signed 0x8000_0000 (pattern_of 0x8000_0000 a)

pub to_int16_small : (n : ℕ) → n < 0x8000 → to_int16 (pos n) ≡ pos n
unfolding to_int16
to_int16_small n h = ground arith

pub to_int32_small : (n : ℕ) → n < 0x8000_0000 → to_int32 (pos n) ≡ pos n
unfolding to_int32
to_int32_small n h = ground arith
