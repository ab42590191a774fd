-- ===== src/Client/Invocation.antt =====
-- An invocation from the client to the worker and back: rfaas/include/rfaas/executor.hpp against
-- server/executor/fast_executor.cpp.
use r_faa_s.Common.{
  ℕ, ◌+◌, ◌*◌, ◌%◌, ◌^◌, ◌≤◌, ◌<◌, ◌≡◌, ◌≢◌, refl, ap, ◌∙◌, true, false, arith, bit_and, not, ◌==◌,
}
use r_faa_s.Common.Int.{negsuc}
use r_faa_s.Common.Bits.{bit_and_low_mask, bit_or_high_low, bit_and_shifted, bit_or_ones}
use r_faa_s.Client.Submission.{
  submission_id, blocking_submission_id, stop_submission_id, return_val, finished_invoc_id,
}
use r_faa_s.Worker.Message.{Header, decode, reply_word}

-- The network order of a word. The sender converts by `htonl`, the receiver by `ntohl`.
pub record NetworkOrder : Type 0 where
  pub htonl : ℕ → ℕ
  pub ntohl : ℕ → ℕ
  pub ntohl-htonl : (word : ℕ) → word < 2 ^ 32 → ntohl (htonl word) ≡ word

abbrev packed : ℕ → ℕ → ℕ → ℕ
packed i b f = (i * 2 + b) * 2 ^ 15 + f

-- A word whose upper half is `i` and whose lower half is the solicited bit `b` and the index `f`.
module _ (i b f : ℕ) (hi : i < 2 ^ 16) (hb : b < 2) (hf : f < 2 ^ 15) where
  decode_func : (decode (packed i b f)).func_id ≡ f
  unfolding decode
  decode_func = omega (arith, bit_and_low_mask 15 (packed i b f))

  decode_mask : bit_and (packed i b f) 0x8000 ≡ b * 2 ^ 15
  decode_mask = omega (arith, bit_and_shifted 15 1 (i * 2 + b) f hf, bit_and_low_mask 1 (i * 2 + b))

  decode_solicited : (decode (packed i b f)).solicited ≡ not (b == 0)
  unfolding decode
  decode_solicited = ground (arith, decode_mask)

  decode_reply : reply_word (decode (packed i b f)).invoc_id ≡ i * 2 ^ 16
  unfolding decode reply_word
  decode_reply = ground (arith, bit_or_high_low 16 i 0 (omega arith))

submission_id-packed :
    (i f : ℕ) → i < 2 ^ 16 → f < 2 ^ 15 → submission_id i f ≡ (i * 2 + 1) * 2 ^ 15 + f
unfolding submission_id
submission_id-packed i f hi hf =
    ground (arith, bit_or_high_low 16 i 0x8000 (omega arith), bit_or_high_low 15 (i * 2 + 1) f hf)

blocking_submission_id-packed :
    (i f : ℕ) → i < 2 ^ 16 → f < 2 ^ 15 → blocking_submission_id i f ≡ (i * 2 + 0) * 2 ^ 15 + f
unfolding blocking_submission_id
blocking_submission_id-packed i f hi hf = ground (arith, bit_or_high_low 16 i f (omega arith))

-- The word that the worker's reply to the submission `word` carries, both ways over the network.
module _ (n : NetworkOrder) where
  open n use {htonl, ntohl, ntohl-htonl}

  pub received : ℕ → Header
  received word = decode (ntohl (htonl word))

  pub answered : ℕ → ℕ
  unfolding received
  answered word = ntohl (htonl (reply_word (received word).invoc_id))

  received-packed :
      (i b f : ℕ)
      → i < 2 ^ 16
      → b < 2
      → f < 2 ^ 15
      → received (packed i b f) ≡ decode (packed i b f)
  unfolding received
  received-packed i b f hi hb hf = rw (ntohl-htonl (packed i b f) (omega arith))

  answered-packed :
      (i b f : ℕ) → i < 2 ^ 16 → b < 2 → f < 2 ^ 15 → answered (packed i b f) ≡ i * 2 ^ 16
  unfolding answered
  answered-packed i b f hi hb hf =
      ap (λ w. ntohl (htonl (reply_word w.invoc_id))) (received-packed i b f hi hb hf)
      ∙ ap (λ w. ntohl (htonl w)) (decode_reply i b f hi hb hf)
      ∙ ntohl-htonl (i * 2 ^ 16) (omega arith)

  -- A submission by its parts arrives with its index and its bit, and its answer names it.
  packed_round_trip :
      (i b f word : ℕ)
      → i < 2 ^ 16
      → b < 2
      → f < 2 ^ 15
      → word ≡ packed i b f
      → ((received word).func_id ≡ f)
        × ((received word).solicited ≡ not (b == 0))
        × (finished_invoc_id (answered word) ≡ i)
        × (return_val (answered word) ≡ 0)
  unfolding finished_invoc_id return_val
  packed_round_trip i b f word hi hb hf e =
      rw (e, received-packed i b f hi hb hf, answered-packed i b f hi hb hf)
        (
          decode_func i b f hi hb hf,
          decode_solicited i b f hi hb hf,
          omega arith,
          omega (arith, bit_and_low_mask 16 (i * 2 ^ 16)),
        )

  -- A submission with an identifier of 16 bits and an index of 15 reaches the worker with that index;
  -- it asks for a notification if it is asynchronous and not if it is blocking; and the worker's
  -- answer carries the identifier back, with the return value 0.
  pub invocation_round_trip :
      (i f : ℕ)
      → i < 2 ^ 16
      → f < 2 ^ 15
      → (((received (submission_id i f)).func_id ≡ f)
          × ((received (submission_id i f)).solicited ≡ true)
          × (finished_invoc_id (answered (submission_id i f)) ≡ i)
          × (return_val (answered (submission_id i f)) ≡ 0))
        × (((received (blocking_submission_id i f)).func_id ≡ f)
            × ((received (blocking_submission_id i f)).solicited ≡ false)
            × (finished_invoc_id (answered (blocking_submission_id i f)) ≡ i)
            × (return_val (answered (blocking_submission_id i f)) ≡ 0))
  invocation_round_trip i f hi hf = (
    packed_round_trip i 1 f (submission_id i f) hi (omega arith) hf
        (submission_id-packed i f hi hf),
    packed_round_trip i 0 f (blocking_submission_id i f) hi (omega arith) hf
        (blocking_submission_id-packed i f hi hf),
  )

  submission_id-mod : (i f : ℕ) → submission_id i f ≡ submission_id (i % 2 ^ 16) f
  unfolding submission_id
  submission_id-mod i f =
      let e : i * 2 ^ 16 % 2 ^ 32 ≡ i % 2 ^ 16 * 2 ^ 16 % 2 ^ 32 = omega arith in rw e refl

  -- An identifier past 16 bits, which the first overload of `async` hands out since it never starts
  -- again from 1, is not the one that the answer names.
  pub long_invoc_id_lost :
      (i f : ℕ) → 2 ^ 16 ≤ i → f < 2 ^ 15 → finished_invoc_id (answered (submission_id i f)) ≢ i
  long_invoc_id_lost i f big hf =
      rw (submission_id-mod i f)
        (omega (arith, (invocation_round_trip (i % 2 ^ 16) f (omega arith) hf).0.2))

  -- `stop_execute` sends the same word whatever the identifier, and the worker reads it as a solicited
  -- call of function 32767 under the identifier -1.
  pub stop_is_a_call :
      (i : ℕ)
      → ((received (stop_submission_id i)).func_id ≡ 32767)
        × ((received (stop_submission_id i)).solicited ≡ true)
        × ((received (stop_submission_id i)).invoc_id ≡ negsuc 0)
  unfolding received stop_submission_id decode
  stop_is_a_call i =
      rw (bit_or_ones 32 (i * 2 ^ 16 % 2 ^ 32) (omega arith), ntohl-htonl 0xffff_ffff (omega arith))
        (refl, refl, refl)
