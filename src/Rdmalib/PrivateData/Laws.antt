-- ===== src/Rdmalib/PrivateData/Laws.antt =====
-- `PrivateData<8, 8, 16>`, the default widths, as fields of a word; and the widths that are undefined.
use r_faa_s.Common.{ℕ, ◌+◌, ◌*◌, ◌%◌, ◌^◌, ◌≤◌, ◌<◌, ◌≡◌, Option, none, some, arith, ◌>>=◌}
use r_faa_s.Common.Bits.{bit_and_low_mask, bit_or_high_low, bit_or_low_high, bit_and_shifted}
use r_faa_s.Rdmalib.PrivateData.{secret, set_secret, key, set_key, user_data}

-- The word that holds the three fields, where they fit.
abbrev pub word_of : ℕ → ℕ → ℕ → ℕ
word_of k u s = k * 2 ^ 24 + u * 2 ^ 16 + s

pub secret-word_of : (k u s : ℕ) → s < 2 ^ 16 → secret 8 8 16 (word_of k u s) ≡ some s
unfolding secret
secret-word_of k u s h = ground (arith, bit_and_low_mask 16 (word_of k u s))

pub key-word_of :
    (k u s : ℕ) → k < 2 ^ 8 → u < 2 ^ 8 → s < 2 ^ 16 → key 8 8 16 (word_of k u s) ≡ some k
unfolding key
key-word_of k u s hk hu hs =
    ground (arith, bit_and_shifted 24 255 k (u * 2 ^ 16 + s) (omega arith), bit_and_low_mask 8 k)

pub user_data-word_of :
    (k u s : ℕ) → u < 2 ^ 8 → s < 2 ^ 16 → user_data 8 8 16 (word_of k u s) ≡ some u
unfolding user_data
user_data-word_of k u s hu hs = ground (
  arith,
  bit_and_shifted 16 255 (k * 2 ^ 8 + u) s (omega arith),
  bit_and_low_mask 8 (k * 2 ^ 8 + u),
)

-- Each setter fills its field of a word in which that field is still zero, and keeps the others.
pub set_secret-word_of :
    (k u s : ℕ) → set_secret 8 8 16 (word_of k u 0) s ≡ some (word_of k u (s % 2 ^ 16))
unfolding set_secret
set_secret-word_of k u s =
    ground
      (arith, bit_and_low_mask 16 s, bit_or_high_low 16 (k * 2 ^ 8 + u) (s % 2 ^ 16) (omega arith))

pub set_key-word_of :
    (k u s : ℕ)
    → u < 2 ^ 8
    → s < 2 ^ 16
    → set_key 8 8 16 (word_of 0 u s) k ≡ some (word_of (k % 2 ^ 8) u s)
unfolding set_key
set_key-word_of k u s hu hs =
    ground
      (arith, bit_and_low_mask 8 k, bit_or_low_high 24 (k % 2 ^ 8) (u * 2 ^ 16 + s) (omega arith))

-- The executor manager writes its secret, then its key.
abbrev pub sent_word : ℕ → ℕ → Option ℕ
sent_word s k = do word ← set_secret 8 8 16 0 s; set_key 8 8 16 word k

pub sent_word_lem : (s k : ℕ) → sent_word s k ≡ some (word_of (k % 2 ^ 8) 0 (s % 2 ^ 16))
sent_word_lem s k =
    rw (set_secret-word_of 0 0 s) (set_key-word_of k 0 (s % 2 ^ 16) (omega arith) (omega arith))

-- What a sender writes with the default widths, first a secret and then a key, is what the receiver
-- reads: each value cut to the width of its field, and no user data.
pub fields_round_trip :
    (s k : ℕ)
    → ((sent_word s k >>= secret 8 8 16) ≡ some (s % 2 ^ 16))
      × ((sent_word s k >>= key 8 8 16) ≡ some (k % 2 ^ 8))
      × ((sent_word s k >>= user_data 8 8 16) ≡ some 0)
fields_round_trip s k = rw (sent_word_lem s k) (
  secret-word_of (k % 2 ^ 8) 0 (s % 2 ^ 16) (omega arith),
  key-word_of (k % 2 ^ 8) 0 (s % 2 ^ 16) (omega arith) (omega arith) (omega arith),
  user_data-word_of (k % 2 ^ 8) 0 (s % 2 ^ 16) (omega arith) (omega arith),
)

-- The executor manager and its executors use `PrivateData<0, 0, 32>`: from a width of 32 on, reading
-- and writing a secret shift a 32-bit one out of its type, which is undefined.
pub wide_secret_undefined :
    (k u w word value : ℕ)
    → 32 ≤ w
    → (secret k u w word ≡ none) × (set_secret k u w word value ≡ none)
unfolding secret set_secret
wide_secret_undefined k u w word value h = ground arith
