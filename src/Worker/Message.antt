-- ===== src/Worker/Message.antt =====
-- server/executor/fast_executor.cpp: how a worker thread reads the immediate value of an
-- invocation, and what it sends back. A 32-bit word is its pattern, a number below 2 ^ 32.
use r_faa_s.Common.{ℕ, ◌*◌, ◌/◌, ◌%◌, ◌^◌, Bool, not, bit_and, bit_or, ◌==◌}
use r_faa_s.Common.Int.{ℤ, pos, negsuc, signed, pattern_of}

pub record Header : Type 0 where
  pub func_id : ℕ
  pub invoc_id : ℤ
  pub solicited : Bool

-- `info >> 16` on an `int`: the shift keeps the sign.
abbrev pub shift_right_16 : ℤ → ℤ
shift_right_16 (pos n) = pos (n / 2 ^ 16)
shift_right_16 (negsuc n) = negsuc (n / 2 ^ 16)

abbrev pub invocation_mask : ℕ
invocation_mask = 0x7fff

abbrev pub solicited_mask : ℕ
solicited_mask = 0x8000

-- The words of `info` are read from the pattern of the `int`; its upper half through the sign.
unfoldable pub decode : ℕ → Header
decode word = record {
  func_id = bit_and word invocation_mask;
  invoc_id = shift_right_16 (signed (2 ^ 31) word);
  solicited = not (bit_and word solicited_mask == 0);
}

-- `(invoc_id << 16) | 0`, converted to `uint32_t`: what `work` writes back.
unfoldable pub reply_word : ℤ → ℕ
reply_word invoc_id = bit_or (pattern_of (2 ^ 31) invoc_id * 2 ^ 16 % 2 ^ 32) 0
