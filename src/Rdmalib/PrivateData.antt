-- ===== src/Rdmalib/PrivateData.antt =====
-- rdmalib/include/rdmalib/connection.hpp, `PrivateData`: the 32 bits that travel with a
-- connection request. `none` stands where C++ leaves a shift undefined.
pub mod Laws
use r_faa_s.Common.{
  ℕ, ◌+◌, ◌-◌, ◌*◌, ◌/◌, ◌%◌, ◌^◌, Option, none, some, bit_and, bit_or, ltb, if◌then◌else◌, ◌>>=◌,
}

-- `x << n` and `x >> n` on `uint32_t`.
abbrev pub shl32 : ℕ → ℕ → Option ℕ
shl32 x n = if ltb n 32 then some (x * 2 ^ n % 2 ^ 32) else none

abbrev pub shr32 : ℕ → ℕ → Option ℕ
shr32 x n = if ltb n 32 then some (x / 2 ^ n) else none

-- `(static_cast<uint32_t>(1) << n) - 1`
abbrev pub pattern_of_width : ℕ → Option ℕ
pattern_of_width n = do one ← shl32 1 n; some ((one + 2 ^ 32 - 1) % 2 ^ 32)

-- The template's parameters; the members take the word that they read or extend.
module _ (key_width user_width secret_width : ℕ) where
  unfoldable pub secret : ℕ → Option ℕ
  secret word = do pattern ← pattern_of_width secret_width; some (bit_and word pattern)

  pub set_secret : ℕ → ℕ → Option ℕ
  set_secret word value = do
    pattern ← pattern_of_width secret_width
    some (bit_or word (bit_and value pattern))

  unfoldable pub key : ℕ → Option ℕ
  key word = do
    ones ← pattern_of_width key_width
    pattern ← shl32 ones (user_width + secret_width)
    shr32 (bit_and word pattern) (user_width + secret_width)

  pub set_key : ℕ → ℕ → Option ℕ
  set_key word value = do
    pattern ← pattern_of_width key_width
    shifted ← shl32 (bit_and value pattern) (user_width + secret_width)
    some (bit_or word shifted)

  pub user_data : ℕ → Option ℕ
  user_data word = do
    ones ← pattern_of_width user_width
    pattern ← shl32 ones secret_width
    shr32 (bit_and word pattern) secret_width

  pub set_user_data : ℕ → ℕ → Option ℕ
  set_user_data word value = do
    pattern ← pattern_of_width user_width
    shifted ← shl32 (bit_and value pattern) secret_width
    some (bit_or word shifted)
