-- ===== src/Common/Bits.antt =====
-- Masks and fields of machine words: what `&`, `|`, `<<` and `>>` do to numbers, at every width.
use Prim.Native.Nat.{
  ℕ, zero, suc, ◌+◌, ◌*◌, ◌/◌, ◌%◌, ◌^◌, ◌≤◌, ◌<◌, ◌-◌, min, max, bit_and, bit_or, digits,
  bit_and-bitwise, bit_or-bitwise,
}
use mathlib.Core.Path.{◌≡◌, refl, ap}
use native.Mathlib.Nat.{pow-suc, one-le-pow}
use native.Mathlib.Omega.{arith}

-- With fuel for the digits of `a`, more fuel changes nothing.
module _ (z : ℕ → ℕ) (f : ℕ → ℕ → ℕ) where
  digits-enough : (n a b k : ℕ) → a ≤ n → a ≤ k → digits z f n a b ≡ digits z f k a b
  digits-enough zero zero b zero p q = refl
  digits-enough zero zero b (suc k) p q = refl
  digits-enough (suc n) zero b zero p q = refl
  digits-enough (suc n) zero b (suc k) p q = refl
  digits-enough zero (suc a) b k p q = absurd (omega arith)
  digits-enough (suc n) (suc a) b zero p q = absurd (omega arith)
  digits-enough (suc n) (suc a) b (suc k) p q =
      rw (digits-enough n (suc a / 2) (b / 2) k (omega arith) (omega arith))

bit_and_zero_left : (b : ℕ) → bit_and 0 b ≡ 0
bit_and_zero_left b = bit_and-bitwise 0 b

bit_or_zero_left : (b : ℕ) → bit_or 0 b ≡ b
bit_or_zero_left b = bit_or-bitwise 0 b

-- The lowest digit of each operation.
bit_and_digit : (a b : ℕ) → bit_and a b ≡ bit_and (a / 2) (b / 2) * 2 + min (a % 2) (b % 2)
bit_and_digit zero b = omega (arith, bit_and_zero_left b, bit_and_zero_left (b / 2))
bit_and_digit (suc a) b = omega (
  arith,
  bit_and-bitwise (suc a) b,
  bit_and-bitwise (suc a / 2) (b / 2),
  digits-enough (λ _. 0) min a (suc a / 2) (b / 2) (suc a / 2) (omega arith) (omega arith),
)

bit_or_digit : (a b : ℕ) → bit_or a b ≡ bit_or (a / 2) (b / 2) * 2 + max (a % 2) (b % 2)
bit_or_digit zero b = omega (arith, bit_or_zero_left b, bit_or_zero_left (b / 2))
bit_or_digit (suc a) b = omega (
  arith,
  bit_or-bitwise (suc a) b,
  bit_or-bitwise (suc a / 2) (b / 2),
  digits-enough (λ y. y) max a (suc a / 2) (b / 2) (suc a / 2) (omega arith) (omega arith),
)

bit_or_zero_below : (n a : ℕ) → a ≤ n → bit_or a 0 ≡ a
bit_or_zero_below n zero h = refl
bit_or_zero_below zero (suc a) h = absurd (omega arith)
bit_or_zero_below (suc n) (suc a) h =
    omega (arith, bit_or_digit (suc a) 0, bit_or_zero_below n (suc a / 2) (omega arith))

bit_or_zero_right : (a : ℕ) → bit_or a 0 ≡ a
bit_or_zero_right a = bit_or_zero_below a a (omega arith)

bit_and_zero_below : (n a : ℕ) → a ≤ n → bit_and a 0 ≡ 0
bit_and_zero_below n zero h = refl
bit_and_zero_below zero (suc a) h = absurd (omega arith)
bit_and_zero_below (suc n) (suc a) h =
    omega (arith, bit_and_digit (suc a) 0, bit_and_zero_below n (suc a / 2) (omega arith))

bit_and_zero_right : (a : ℕ) → bit_and a 0 ≡ 0
bit_and_zero_right a = bit_and_zero_below a a (omega arith)

double_pow : (q k : ℕ) → q * 2 ^ suc k ≡ 2 * (q * 2 ^ k)
double_pow q k = omega (arith, ap (λ (t : ℕ). q * t) (pow-suc 2 k))

-- `(q << k) | r` is the sum where `r` fits below bit `k`, in either order of the operands.
pub bit_or_high_low : (k q r : ℕ) → r < 2 ^ k → bit_or (q * 2 ^ k) r ≡ q * 2 ^ k + r
bit_or_high_low zero q r h = ground (arith, bit_or_zero_right q)
bit_or_high_low (suc k) q r h = ground (
  arith,
  bit_or_digit (q * 2 ^ suc k) r,
  double_pow q k,
  bit_or_high_low k q (r / 2) (omega arith),
)

pub bit_or_low_high : (k q r : ℕ) → r < 2 ^ k → bit_or r (q * 2 ^ k) ≡ q * 2 ^ k + r
bit_or_low_high zero q r h = ground (arith, bit_or_zero_left q)
bit_or_low_high (suc k) q r h = ground (
  arith,
  bit_or_digit r (q * 2 ^ suc k),
  double_pow q k,
  bit_or_low_high k q (r / 2) (omega arith),
)

and_low_part : (k q r : ℕ) → r < 2 ^ k → bit_and (q * 2 ^ k + r) (2 ^ k - 1) ≡ r
and_low_part zero q r h = rw bit_and_zero_right (omega arith)
and_low_part (suc k) q r h = ground (
  arith,
  bit_and_digit (q * 2 ^ suc k + r) (2 ^ suc k - 1),
  double_pow q k,
  pow-suc 2 k,
  and_low_part k q (r / 2) (omega arith),
)

-- A mask of the `k` low bits is the remainder by `2 ^ k`.
pub bit_and_low_mask : (k a : ℕ) → bit_and a (2 ^ k - 1) ≡ a % 2 ^ k
bit_and_low_mask k a = ground (arith, one-le-pow k 2, and_low_part k (a / 2 ^ k) (a % 2 ^ k))

-- A mask that starts at bit `k`.
pub bit_and_shifted :
    (k m q r : ℕ) → r < 2 ^ k → bit_and (q * 2 ^ k + r) (m * 2 ^ k) ≡ bit_and q m * 2 ^ k
bit_and_shifted zero m q r h = ground arith
bit_and_shifted (suc k) m q r h = ground (
  arith,
  bit_and_digit (q * 2 ^ suc k + r) (m * 2 ^ suc k),
  double_pow q k,
  double_pow m k,
  double_pow (bit_and q m) k,
  bit_and_shifted k m q (r / 2) (omega arith),
)

-- Every bit below `k` set absorbs what is below.
pub bit_or_ones : (k a : ℕ) → a < 2 ^ k → bit_or a (2 ^ k - 1) ≡ 2 ^ k - 1
bit_or_ones zero a h = ground (arith, bit_or_zero_right a)
bit_or_ones (suc k) a h = ground (
  arith,
  bit_or_digit a (2 ^ suc k - 1),
  pow-suc 2 k,
  one-le-pow k 2,
  bit_or_ones k (a / 2) (omega arith),
)
