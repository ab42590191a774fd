-- ===== src/Tests/Rdmalib.antt =====
-- A device that only counts its receive requests, one that refuses them, and words of private data.
use r_faa_s.Common.{ℕ, ◌+◌, ◌≡◌, ◌≤◌, refl, true, false, some, length, arith, ◌>>=◌}
use r_faa_s.Common.Int.{pos, ◌-ℤ◌}
use r_faa_s.Rdmalib.PrivateData.{secret, key, user_data}
use r_faa_s.Rdmalib.PrivateData.Laws.{fields_round_trip, sent_word}
use r_faa_s.Rdmalib.Queue.{
  Wc, Verbs, RecvQueue, links, refill, post_batched_empty_recv, post_loops, post_reminder,
}
use r_faa_s.Rdmalib.Queue.Credits.{Credits, refill-Credits}

abbrev pub counting : Verbs
counting = record {
  Device = ℕ;
  post_recv = λ chain d. (0, d + length chain);
  outstanding = λ d. d;
  outstanding-post_recv = λ chain d e. refl;
}

abbrev refusing : Verbs
refusing = record {
  Device = ℕ;
  post_recv = λ chain d. (12, d);
  outstanding = λ d. d;
  outstanding-post_recv = λ chain d e. absurd (omega arith);
}

abbrev half_full : RecvQueue
half_full = record {
  rcv_buf_size = 70;
  refill_threshold = 70;
  requests = pos 30;
  nexts = links 32 0;
}

abbrev done : Wc
done = record { status = 0; wr_id = 3; qp_num = 7; imm_data = 0; byte_len = 4 }

all_taken :
    (post_batched_empty_recv counting (pos 70 -ℤ pos 30) (links 32 0) 30).0 ≡ pos 70 -ℤ pos 30
unfolding post_batched_empty_recv post_loops post_reminder ◌-ℤ◌
all_taken = refl

refill-Credits_example :
    let (posted, q', d') = refill counting half_full 30 in
    Credits counting q' d' × (70 ≤ d') × (posted ≡ true → d' ≡ 70) × (posted ≡ false → d' ≡ 30)
refill-Credits_example =
    refill-Credits counting half_full 30 (refl, refl, refl, omega arith) (λ low. all_taken)

fields_round_trip_example :
    ((sent_word 70000 300 >>= secret 8 8 16) ≡ some 4464)
    × ((sent_word 70000 300 >>= key 8 8 16) ≡ some 44)
    × ((sent_word 70000 300 >>= user_data 8 8 16) ≡ some 0)
fields_round_trip_example = fields_round_trip 70000 300
