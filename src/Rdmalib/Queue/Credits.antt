-- ===== src/Rdmalib/Queue/Credits.antt =====
-- The count of receive requests against what the device really holds: rdmalib/lib/queue.cpp.
use r_faa_s.Common.{
  ℕ, zero, suc, ◌+◌, ◌-◌, ◌*◌, ◌/◌, ◌%◌, ◌≤◌, ◌<◌, ◌≡◌, ◌≢◌, refl, ap, ◌∙◌, true, false, inl, inr,
  List, arith, length, none, set, Bool-cases, ◌==◌, min,
}
use r_faa_s.Common.Int.{pos, ◌-ℤ◌, ltb_ℤ}
use r_faa_s.Rdmalib.Queue.{
  Wc, failed, completions, Verbs, RecvQueue, links, chain, poll, post_loops, post_reminder,
  post_batched_empty_recv, refill, rbatch,
}
use r_faa_s.Rdmalib.Queue.Batch.{length-chain_full, length-chain_cut, links-restored}

pos-minus : (n m : ℕ) → m ≤ n → pos n -ℤ pos m ≡ pos (n - m)
unfolding ◌-ℤ◌
pos-minus n m h = ground arith

module _ (v : Verbs) where
  open v use {Device, post_recv, outstanding, outstanding-post_recv}

  -- Batches that the device takes.
  post_loops-taken :
      (loops : ℕ) (d : Device)
      → (post_loops v loops (links rbatch 0) d).0 ≡ 0
      → outstanding (post_loops v loops (links rbatch 0) d).1 ≡ outstanding d + 32 * loops
  unfolding post_loops
  post_loops-taken zero d taken = omega arith
  post_loops-taken (suc loops) d taken =
      let one = chain rbatch (links rbatch 0) 0 in
      elim (Bool-cases ((post_recv one d).0 == 0)) [
        | inl e ↦ ground (
          arith,
          length-chain_full,
          outstanding-post_recv one d (ground arith),
          post_loops-taken loops (post_recv one d).1,
        )
        | inr e ↦ ground arith
      ]

  post_reminder-taken :
      (r : ℕ) (d : Device)
      → 0 < r
      → r < 32
      → (post_reminder v r (links rbatch 0) d).0 ≡ 0
      → (outstanding (post_reminder v r (links rbatch 0) d).1 ≡ outstanding d + r)
        × ((post_reminder v r (links rbatch 0) d).2 ≡ links rbatch 0)
  unfolding post_reminder
  post_reminder-taken r d lo hi taken =
      let cut = set (links rbatch 0) (r - 1) none in
      (
        outstanding-post_recv (chain rbatch cut 0) d taken
            ∙ ap (λ n. outstanding d + n) (length-chain_cut r lo hi),
        links-restored r lo hi,
      )

  -- A call that returns `count` gave the device exactly `count` requests, in full batches and a cut one,
  -- and the links of the batch are as before.
  pub post_batched_all :
      (count : ℕ) (d : Device)
      → (post_batched_empty_recv v (pos count) (links rbatch 0) d).0 ≡ pos count
      → (outstanding (post_batched_empty_recv v (pos count) (links rbatch 0) d).1
          ≡ outstanding d + count)
        × ((post_batched_empty_recv v (pos count) (links rbatch 0) d).2 ≡ links rbatch 0)
  unfolding post_batched_empty_recv
  post_batched_all count d = elim (Bool-cases (count % 32 == 0)) [
    | inl e ↦ ground (arith, post_loops-taken (count / 32) d)
    | inr e ↦ ground (
      arith,
      post_loops-taken (count / 32) d,
      post_reminder-taken (count % 32) (post_loops v (count / 32) (links rbatch 0) d).1
          (ground arith) (omega arith),
    )
  ]

  -- The count is what the device holds, and the batch is linked.
  abbrev pub Credits : RecvQueue → Device → Type 0
  Credits q d =
      (q.requests ≡ pos (outstanding d))
      × (q.nexts ≡ links rbatch 0)
      × (q.refill_threshold ≡ min q.rcv_buf_size 256)
      × (outstanding d ≤ q.rcv_buf_size)

  -- A refill whose post, where it makes one, returns the count of what is missing, and so is not
  -- refused, keeps the count right, never posts beyond the size of the receive buffer, and leaves at
  -- least the threshold of requests on the device. It says whether it posted; then the queue is full.
  pub refill-Credits :
      (q : RecvQueue) (d : Device)
      → Credits q d
      → (ltb_ℤ q.requests (pos q.refill_threshold) ≡ true
          → (post_batched_empty_recv v (pos q.rcv_buf_size -ℤ q.requests) q.nexts d).0
            ≡ pos q.rcv_buf_size -ℤ q.requests)
      → let (posted, q', d') = refill v q d in
        Credits q' d'
        × (q.refill_threshold ≤ outstanding d')
        × (posted ≡ true → outstanding d' ≡ q.rcv_buf_size)
        × (posted ≡ false → outstanding d' ≡ outstanding d)
  unfolding refill
  refill-Credits q d (same, linked, threshold, fits) =
      let missing : ℕ = q.rcv_buf_size - outstanding d in
      let e : pos q.rcv_buf_size -ℤ q.requests ≡ pos missing =
        rw same (pos-minus q.rcv_buf_size (outstanding d) fits) in
      rw (e, linked) (ground (arith, post_batched_all missing d))

  -- A poll that takes completions off the device keeps the count right. A poll that fails, of which the
  -- device knows nothing, adds one to the count instead: it takes -1 off.
  pub poll-Credits :
      (q : RecvQueue) (d d' : Device) (wcs : List Wc)
      → Credits q d
      → outstanding d' + length wcs ≡ outstanding d
      → Credits (poll (completions wcs) q).0 d'
        × ((poll failed q).0.requests ≡ pos (outstanding d + 1))
  unfolding poll
  poll-Credits q d d' wcs (same, linked, threshold, fits) e = (
    (
      rw same (pos-minus (outstanding d) (length wcs) (omega arith) ∙ ap pos (omega arith)),
      linked,
      threshold,
      omega arith,
    ),
    rw same (unfold ◌-ℤ◌ in ground arith),
  )

module _ (v : Verbs) where
  open v use {Device, post_recv, outstanding}

  post_loops-refused :
      (loops : ℕ) (d : Device)
      → ((c : List ℕ) → ((post_recv c d).0 ≢ 0) × ((post_recv c d).1 ≡ d))
      → (post_loops v loops (links rbatch 0) d).1 ≡ d
  unfolding post_loops
  post_loops-refused zero d refuses = refl
  post_loops-refused (suc loops) d refuses =
      ground (arith, refuses (chain rbatch (links rbatch 0) 0))

  -- A device that refuses every chain keeps what it held, and yet a refill below the threshold counts
  -- a full receive buffer: the outcome of the post is not looked at.
  pub refused_refill_overcounts :
      (q : RecvQueue) (d : Device)
      → ((c : List ℕ) → ((post_recv c d).0 ≢ 0) × ((post_recv c d).1 ≡ d))
      → q.requests ≡ pos (outstanding d)
      → q.nexts ≡ links rbatch 0
      → outstanding d < q.refill_threshold
      → q.refill_threshold ≤ q.rcv_buf_size
      → let (posted, q', d') = refill v q d in
        (posted ≡ true)
        × (q'.requests ≡ pos q.rcv_buf_size)
        × (outstanding d' ≡ outstanding d)
        × (outstanding d' < q.rcv_buf_size)
  unfolding refill post_batched_empty_recv post_reminder
  refused_refill_overcounts q d refuses same linked low fits =
      let missing : ℕ = q.rcv_buf_size - outstanding d in
      let e : pos q.rcv_buf_size -ℤ q.requests ≡ pos missing =
        rw same (pos-minus q.rcv_buf_size (outstanding d) (omega arith)) in
      let cut = set (links rbatch 0) (missing % 32 - 1) none in
      rw (e, linked)
        (ground (arith, post_loops-refused (missing / 32) d refuses, refuses (chain rbatch cut 0)))
