-- ===== src/Client/Submission.antt =====
-- rfaas/include/rfaas/executor.hpp: the numbering of invocations, the immediate value that carries
-- an invocation to a worker, and the reading of the value that comes back.
use r_faa_s.Common.{
  ℕ, zero, suc, ◌+◌, ◌*◌, ◌/◌, ◌%◌, ◌^◌, ◌≤◌, ◌<◌, ◌≡◌, ◌≢◌, arith, bit_and, bit_or, ◌==◌,
  if◌then◌else◌, Bytes, bytes_eq, List, [], ◌∷◌, Option, none, some,
}

-- `_invoc_id++; if (_invoc_id == 65536) _invoc_id = 1;`
unfoldable pub next_invoc_id : ℕ → ℕ
next_invoc_id id = let next = id + 1 in if next == 65536 then 1 else next

-- `(invoc_id << 16) | (1 << 15) | func_idx`, as a `uint32_t`: an asynchronous submission.
unfoldable pub submission_id : ℕ → ℕ → ℕ
submission_id invoc_id func_idx =
    bit_or (bit_or (invoc_id * 2 ^ 16 % 2 ^ 32) 0x8000) (func_idx % 2 ^ 32)

-- `(invoc_id << 16) | func_idx`: a submission that the client waits for.
unfoldable pub blocking_submission_id : ℕ → ℕ → ℕ
blocking_submission_id invoc_id func_idx = bit_or (invoc_id * 2 ^ 16 % 2 ^ 32) (func_idx % 2 ^ 32)

-- `stop_execute` submits the index -1.
unfoldable pub stop_submission_id : ℕ → ℕ
stop_submission_id invoc_id = bit_or (invoc_id * 2 ^ 16 % 2 ^ 32) 0xffff_ffff

-- `val & 0x0000FFFF` and `val >> 16` of the value that comes back.
unfoldable pub return_val : ℕ → ℕ
return_val word = bit_and word 0xffff

unfoldable pub finished_invoc_id : ℕ → ℕ
finished_invoc_id word = word / 2 ^ 16

-- `std::find(_func_names.begin(), _func_names.end(), fname)` and the distance from the start.
unfoldable pub func_index : Bytes → List Bytes → Option ℕ
func_index fname [] = none
func_index fname (name ∷ names) =
    let rest = func_index fname names in
    if bytes_eq.beq name fname then some 0 else elim rest [ none ↦ none | some i ↦ some (suc i) ]

-- The identifier of the `k`-th call after `id`.
unfoldable pub nth_invoc_id : ℕ → ℕ → ℕ
nth_invoc_id zero id = id
nth_invoc_id (suc k) id = next_invoc_id (nth_invoc_id k id)

nth_invoc_id-eq :
    (k id : ℕ) → 1 ≤ id → id ≤ 65535 → nth_invoc_id k id ≡ (id + 65534 + k) % 65535 + 1
unfolding nth_invoc_id next_invoc_id
nth_invoc_id-eq zero id lo hi = omega arith
nth_invoc_id-eq (suc k) id lo hi = ground (arith, nth_invoc_id-eq k id lo hi)

-- The numbering that every call but `async` for one worker follows: from an identifier in 1..65535 on, the
-- identifiers stay there, which 16 bits hold, and any two of 65535 successive ones differ, as long as
-- no call in between uses the other numbering.
pub invoc_ids_distinct :
    (id k j : ℕ)
    → 1 ≤ id
    → id ≤ 65535
    → k < j
    → j < k + 65535
    → (1 ≤ nth_invoc_id k id)
      × (nth_invoc_id k id ≤ 65535)
      × (nth_invoc_id k id ≢ nth_invoc_id j id)
invoc_ids_distinct id k j lo hi lt near =
    omega (arith, nth_invoc_id-eq k id lo hi, nth_invoc_id-eq j id lo hi)
