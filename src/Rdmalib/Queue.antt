-- ===== src/Rdmalib/Queue.antt =====
-- rdmalib/include/rdmalib/queue.hpp and rdmalib/lib/queue.cpp, `RecvWorkCompletions`: the receive
-- requests of a connection, posted in batches of 32. The verbs themselves are a parameter.
pub mod Batch
pub mod Credits
use r_faa_s.Common.{
  ℕ, zero, suc, ◌+◌, ◌-◌, ◌/◌, ◌%◌, ◌≡◌, Bool, true, false, Option, none, some, List, [], ◌∷◌,
  arith, length, get_elem?, set, ltb, ◌==◌, if◌then◌else◌, min,
}
use r_faa_s.Common.Int.{ℤ, pos, negsuc, ◌-ℤ◌, ◌+ℤ◌, ltb_ℤ}

-- `ibv_wc`, with the fields that the program reads. A status of 0 is success.
pub record Wc : Type 0 where
  pub status : ℕ
  pub wr_id : ℕ
  pub qp_num : ℕ
  pub imm_data : ℕ
  pub byte_len : ℕ

-- What `ibv_poll_cq` gives: a negative number, or the completions that it wrote.
pub data Polled : Type 0 where
  failed : Polled
  completions : List Wc → Polled

-- The count that the polling functions return beside the completions.
abbrev pub count_of : Polled → ℤ
count_of failed = negsuc 0
count_of (completions wcs) = pos (length wcs)

abbrev pub wcs_of : Polled → List Wc
wcs_of failed = []
wcs_of (completions wcs) = wcs

-- `ibv_post_recv` on a chain of requests: its return value and the device. A call that returns 0
-- has posted every request of the chain.
pub record Verbs : Type 1 where
  pub Device : Type 0
  pub post_recv : List ℕ → Device → ℕ × Device
  pub outstanding : Device → ℕ
  pub outstanding-post_recv :
      (chain : List ℕ) (d : Device)
      → (post_recv chain d).0 ≡ 0
      → outstanding (post_recv chain d).1 ≡ outstanding d + length chain

-- `_batch_wrs` is the list of its `next` pointers, by index; request `i` has the identifier `i`.
pub record RecvQueue : Type 0 where
  pub rcv_buf_size : ℕ
  pub refill_threshold : ℕ
  pub requests : ℤ
  pub nexts : List (Option ℕ)

abbrev pub rbatch : ℕ
rbatch = 32

abbrev pub default_refill_threshold : ℕ
default_refill_threshold = 256

-- `n` requests from index `i` on, each linked to the next one and the last one to none.
unfoldable pub links : ℕ → ℕ → List (Option ℕ)
links zero i = []
links (suc n) i = (if n == 0 then none else some (i + 1)) ∷ links n (i + 1)

-- The requests that a chain from index `i` visits; 32 steps visit each request at most once.
unfoldable pub chain : ℕ → List (Option ℕ) → ℕ → List ℕ
chain zero nexts i = []
chain (suc f) nexts i = i ∷ elim (get_elem? nexts i) [
  | none ↦ []
  | some next ↦ elim next [ none ↦ [] | some j ↦ chain f nexts j ]
]

-- The constructor, before a queue pair is set.
unfoldable pub create : ℕ → RecvQueue
create rcv_buf_size = record {
  rcv_buf_size = rcv_buf_size;
  refill_threshold = min rcv_buf_size default_refill_threshold;
  requests = pos 0;
  nexts = links rbatch 0;
}

-- `poll`: the count is taken off the requests, whatever it is.
unfoldable pub poll : Polled → RecvQueue → RecvQueue × Polled
poll p q = (record q { requests = q.requests -ℤ count_of p }, p)

unfoldable pub update_requests : ℤ → RecvQueue → RecvQueue
update_requests change q = record q { requests = q.requests +ℤ change }

module _ (v : Verbs) where
  open v use {Device, post_recv}

  -- The full batches; the loop stops at the first one that is refused.
  unfoldable pub post_loops : ℕ → List (Option ℕ) → Device → ℕ × Device
  post_loops zero nexts d = (0, d)
  post_loops (suc loops) nexts d =
      let (ret, d') = post_recv (chain rbatch nexts 0) d in
      let rest = post_loops loops nexts d' in if ret == 0 then rest else (ret, d')

  -- The rest: the chain is cut behind request `reminder - 1`, posted, and linked again.
  unfoldable pub post_reminder : ℕ → List (Option ℕ) → Device → ℕ × Device × List (Option ℕ)
  post_reminder reminder nexts d =
      let cut = set nexts (reminder - 1) none in
      let (ret, d') = post_recv (chain rbatch cut 0) d in
      (ret, d', set cut (reminder - 1) (some reminder))

  -- `post_batched_empty_recv`, which returns `count`, or -1 if a post was refused. A count that is
  -- not positive posts nothing.
  unfoldable pub post_batched_empty_recv :
      ℤ → List (Option ℕ) → Device → ℤ × Device × List (Option ℕ)
  post_batched_empty_recv (negsuc n) nexts d = (negsuc n, d, nexts)
  post_batched_empty_recv (pos count) nexts d =
      let (ret, d') = post_loops (count / rbatch) nexts d in
      let (ret', d'', nexts') = post_reminder (count % rbatch) nexts d' in
      if ret == 0
      then (if count % rbatch == 0
          then (pos count, d', nexts)
          else (if ret' == 0 then (pos count, d'', nexts') else (negsuc 0, d'', nexts')))
      else (negsuc 0, d', nexts)

  -- `refill`: below the threshold it posts what is missing, and does not look at the outcome.
  unfoldable pub refill : RecvQueue → Device → Bool × RecvQueue × Device
  refill q d =
      let (ret, d', nexts') =
        post_batched_empty_recv (pos q.rcv_buf_size -ℤ q.requests) q.nexts d in
      if ltb_ℤ q.requests (pos q.refill_threshold)
      then (true, record q { requests = pos q.rcv_buf_size; nexts = nexts' }, d')
      else (false, q, d)

  -- The receive side of a connection.
  pub record Link : Type 0 where
    pub queue : RecvQueue
    pub device : Device

  -- `refill` on a connection.
  unfoldable pub refilled_link : Link → Link
  unfolding refill
  refilled_link l = let (posted, q, d) = refill l.queue l.device in record { queue = q; device = d }

  -- `receive_wcs().update_requests(-1); receive_wcs().refill();`, with which a manager follows up a
  -- message that it polled from a queue shared by its connections.
  unfoldable pub consumed_one : Link → Link
  unfolding refilled_link update_requests
  consumed_one l = refilled_link (record l { queue = update_requests (negsuc 0) l.queue })
