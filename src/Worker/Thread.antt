-- ===== src/Worker/Thread.antt =====
-- server/executor/fast_executor.cpp, `Thread`: a worker thread between polls. The clock, the loaded
-- functions and the verbs are parameters; the completions of each poll are the environment's.
pub mod Batches
pub mod Rounds
pub mod Polling
use r_faa_s.Common.{
  ℕ, zero, suc, ◌+◌, ◌-◌, ◌%◌, ◌^◌, Bool, true, false, not, ◌&&◌, Option, none, some, List, [], ◌∷◌,
  ◌++◌, length, get_elem?, ltb, leb, ◌==◌, if◌then◌else◌,
}
use r_faa_s.Common.Int.{ℤ, pos, negsuc}
use r_faa_s.Rdmalib.Queue.{Wc, Polled, failed, completions, wcs_of, Verbs, RecvQueue, poll, refill}
use r_faa_s.Client.Invocation.{NetworkOrder}
use r_faa_s.Worker.Message.{decode, reply_word}
use r_faa_s.Worker.Accounting.{
  Accounting, Counters, update_execution_time, update_polling_time, send_updated_execution,
  send_updated_polling,
}

pub data PollingState : Type 0 where
  hot hot_always warm warm_always : PollingState

abbrev pub is_hot_always : PollingState → Bool
is_hot_always hot_always = true
is_hot_always _ = false

-- What the thread sends to the client: `post_write` with an immediate value.
pub record Reply : Type 0 where
  pub immediate : ℕ
  pub size : ℕ
  pub force_inline : Bool
  pub solicited : Bool

-- `clock k` is the `k`-th reading of the clock, and `run func size` the size that the function returns.
pub record Platform : Type 1 where
  pub verbs : Verbs
  pub order : NetworkOrder
  pub clock : ℕ → ℕ
  pub run : ℕ → ℕ → ℕ
  pub max_inline_data : ℕ

abbrev pub data_header_size : ℕ
data_header_size = 12

abbrev pub hot_polling_verification_period : ℕ
hot_polling_verification_period = 10000

-- `uint32_t` and 64-bit differences.
abbrev pub sub32 : ℕ → ℕ → ℕ
sub32 a b = (a + 2 ^ 32 - b) % 2 ^ 32

abbrev pub elapsed : ℕ → ℕ → ℕ
elapsed start end = (end + 2 ^ 64 - start) % 2 ^ 64

module _ (p : Platform) where
  open p use {verbs, clock, run, max_inline_data}

  pub record Thread : Type 0 where
    pub repetitions : ℕ
    pub accounting : Accounting
    pub counters : Counters
    pub polling_state : PollingState
    pub readings : ℕ
    pub replies : List Reply
    pub receive : RecvQueue
    pub device : verbs.Device

  -- What is sent back for a completion.
  unfoldable pub reply_of : Wc → Reply
  reply_of wc =
      let h = decode (p.order.ntohl wc.imm_data) in
      let size = run h.func_id (sub32 wc.byte_len data_header_size) in
      record {
        immediate = reply_word h.invoc_id;
        size = size;
        force_inline = leb size max_inline_data;
        solicited = h.solicited;
      }

  -- `work`, which returns the time at which the function ended.
  unfoldable pub work : Wc → Thread → Thread × ℕ
  unfolding reply_of
  work wc t =
      let start = clock t.readings in
      let end = clock (t.readings + 1) in
      let a = update_execution_time (elapsed start end) t.accounting in
      let (a', c) = send_updated_execution false a t.counters in
      (
        record t {
          accounting = a';
          counters = c;
          readings = t.readings + 2;
          replies = t.replies ++ reply_of wc ∷ [];
        },
        end,
      )

  -- One successful completion in `hot`: the polling time up to now is added after the work.
  unfoldable pub hot_serve : Wc → ℕ → Thread → Thread × ℕ
  hot_serve wc start t =
      let now = clock t.readings in
      let (t', end) = work wc (record t { readings = t.readings + 1 }) in
      (
        record t' {
          accounting = (update_polling_time (elapsed start now) t'.accounting).0;
          repetitions = t.repetitions + 1;
        },
        end,
      )

  -- The loop over the completions of one poll in `hot`, from index `i`. The `i = 0` of its body sets
  -- the index of this loop, which the declaration in the `for` hides the outer one by; the increment
  -- follows. `none` means that the fuel ran out.
  unfoldable pub hot_batch : ℕ → List Wc → ℕ → ℕ → Thread → Option (Thread × ℕ)
  hot_batch zero wcs i start t = none
  hot_batch (suc fuel) wcs i start t = elim (get_elem? wcs i) [
    | none ↦ some (t, start)
    | some wc ↦ elim (wc.status == 0) [
      | false ↦ hot_batch fuel wcs (i + 1) start t
      | true ↦
          let (t', end) = hot_serve wc start t in let next = hot_batch fuel wcs 1 end t' in next
    ]
  ]

  -- The same loop in `warm`.
  unfoldable pub warm_batch : List Wc → Thread → Thread
  warm_batch [] t = t
  warm_batch (wc ∷ wcs) t =
      warm_batch wcs
        (if wc.status == 0 then record (work wc t).0 { repetitions = t.repetitions + 1 } else t)

  -- `if(std::get<1>(wcs))`: a failed poll counts -1, which is not zero.
  abbrev pub is_nonzero : Polled → Bool
  is_nonzero failed = true
  is_nonzero (completions []) = false
  is_nonzero (completions (wc ∷ wcs)) = true

  abbrev pub polled : Polled → Thread → Thread
  polled r t = record t { receive = (poll r t.receive).0 }

  abbrev pub refilled : Thread → Thread
  refilled t =
      let (posted, q, d) = refill verbs t.receive t.device in record t { receive = q; device = d }

  -- How a round of a polling loop ends: with another round, or with the return of the function.
  pub data Round : Type 0 where
    again : ℕ → ℕ → Thread → Round
    leave : Thread → Round

  -- Every 10000 rounds the polling time is brought up to date, and without an invocation in `timeout`
  -- the thread leaves for warm polling.
  unfoldable pub hot_due : ℕ → ℕ → Thread → Round
  hot_due timeout start t =
      let now = clock t.readings in
      let (a, time_passed) = update_polling_time (elapsed start now) t.accounting in
      let (a', c) = send_updated_polling false a t.counters in
      let t' : Thread = record t { accounting = a'; counters = c; readings = t.readings + 1 } in
      if not (is_hot_always t.polling_state) && leb timeout time_passed
      then leave (record t' { polling_state = warm })
      else again 0 now t'

  -- What follows the batch in a round of `hot`.
  unfoldable pub hot_verify : ℕ → ℕ → ℕ → Thread → Round
  hot_verify timeout i start t =
      if i + 1 == hot_polling_verification_period
      then hot_due timeout start t
      else again (i + 1) start t

  -- After the batch, if its loop ended.
  abbrev pub hot_after : ℕ → ℕ → Option (Thread × ℕ) → Option Round
  hot_after timeout i none = none
  hot_after timeout i (some (t, start)) = some (hot_verify timeout i start (refilled t))

  unfoldable pub hot_round : ℕ → ℕ → Polled → ℕ → ℕ → Thread → Option Round
  hot_round fuel timeout r i start t =
      if is_nonzero r
      then hot_after timeout i (hot_batch fuel (wcs_of r) 0 start (polled r t))
      else some (hot_verify timeout i start (polled r t))

  -- The wait at the end of a round of `warm` that goes on; without an event it does not end. The process
  -- is told to stop during a wait only with an event, or before it.
  unfoldable pub waited : Bool → Round → Option Round
  waited event (leave t) = some (leave t)
  waited event (again i start t) = if event then some (again i start t) else none

  -- After the batch: the thread goes on only in the state in which it always polls this way.
  abbrev pub warm_after : PollingState → Thread → Round
  warm_after warm_always t = again 0 0 t
  warm_after _ t = leave (record t { polling_state = hot })

  -- A round up to the wait.
  unfoldable pub warm_round : Polled → Thread → Round
  warm_round r t =
      if is_nonzero r
      then (let t' = refilled (warm_batch (wcs_of r) (polled r t)) in
          warm_after t'.polling_state t')
      else again 0 0 (polled r t)

-- `thread_work`: the polling state that a timeout stands for.
unfoldable pub initial_polling_state : ℤ → PollingState
initial_polling_state (pos zero) = warm_always
initial_polling_state (pos (suc n)) = hot
initial_polling_state (negsuc zero) = hot_always
initial_polling_state (negsuc (suc n)) = hot
