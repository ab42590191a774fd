-- ===== src/Client/Execution/Calls/Identifiers.antt =====
-- What `async` for one worker does to the invocations before it, and `block` to its own:
-- rfaas/include/rfaas/executor.hpp.
use r_faa_s.Common.{
  ℕ, suc, ◌^◌, ◌≤◌, ◌<◌, ◌≡◌, refl, sym, ap, ◌∙◌, true, none, some, List, ◌∷◌, Bytes, nat_eq, find,
  assign, arith, length, ==_iff, find-assign_self,
}
use r_faa_s.Common.Int.{ℤ, pos}
use r_faa_s.Rdmalib.Queue.{Wc, completions, Verbs, poll}
use r_faa_s.Client.Submission.{
  next_invoc_id, submission_id, return_val, finished_invoc_id, func_index,
}
use r_faa_s.Client.Invocation.{NetworkOrder, answered, invocation_round_trip}
use r_faa_s.Client.Futures.{Futures, submit, answered_once, complete}
use r_faa_s.Client.Futures.Counting.{missing}
use r_faa_s.Client.Futures.Completion.{complete-known, answered_once-more}
use r_faa_s.Client.Callbacks.{Buffer, Worker, refilled}
use r_faa_s.Client.Execution.{Caller, async_all, with_queue}
use r_faa_s.Client.Execution.Together.{lowered, posted_all, send_all-posted}
use r_faa_s.Client.Execution.Background.{async_all-posted, first_of}
use r_faa_s.Client.Execution.Calls.{posted, async, block}

-- An answer to an invocation that waits for one keeps its promise.
answered-kept :
    (word id : ℕ) (futures : Futures)
    → finished_invoc_id word ≡ id
    → find id futures ≡ some (missing 1 none)
    → (futures' : Futures) × (complete word futures ≡ some futures')
      × (find id futures' ≡ some (missing 0 (some (return_val word))))
answered-kept word id futures named waits =
    let k = finished_invoc_id word in
    let g = answered_once (return_val word) (missing 1 none) in
    (
      assign k g futures,
      complete-known word (missing 1 none) futures (ap (λ i. find i futures) named ∙ waits),
      ap (λ i. find i (assign k g futures)) (sym named)
          ∙ find-assign_self k g futures
          ∙ ap some (answered_once-more (return_val word) 0).1,
    )

module _ (v : Verbs) (n : NetworkOrder) where
  open n use {ntohl}

  -- The worker as `async` leaves it.
  written_to : Buffer → Buffer → ℤ → ℕ → Caller v n → Worker v n → Worker v n
  written_to input out size f s w =
      refilled v n (posted v n size s.max_inline_data (submission_id s.invoc_id f) input out w)

  async-submitted :
      (fname : Bytes) (f : ℕ) (input out : Buffer) (size : ℤ) (s : Caller v n) (w : Worker v n)
      (ws : List (Worker v n))
      → func_index fname s.func_names ≡ some f
      → s.workers ≡ w ∷ ws
      → async v n fname input out size s
        ≡ some (
          some s.invoc_id,
          record s {
            invoc_id = suc s.invoc_id;
            futures = submit s.invoc_id 1 s.futures;
            workers = written_to input out size f s w ∷ ws;
          },
        )
  unfolding async written_to
  async-submitted fname f input out size s w ws known first = rw (known, first, async) refl

  -- A call of `async` for one worker right after one for all of them, both of known functions, takes the
  -- identifier of the call before it. The future that waits for all workers is replaced, and the first
  -- answer of any of them keeps the promise of the later call, with its value.
  pub async_takes_identifier :
      (fname fname' : Bytes) (f g : ℕ) (inputs outs : List Buffer) (input out : Buffer) (size : ℤ)
      (word : ℕ) (s : Caller v n)
      → func_index fname s.func_names ≡ some f
      → func_index fname' s.func_names ≡ some g
      → 1 ≤ length s.workers
      → length s.workers ≤ length inputs
      → length s.workers ≤ length outs
      → finished_invoc_id word ≡ next_invoc_id s.invoc_id
      → let id = next_invoc_id s.invoc_id in
        (s1 : Caller v n) × (s2 : Caller v n) × (futures' : Futures) × (async_all v n fname inputs
            outs s
          ≡ some (some id, s1))
        × (find id s1.futures ≡ some (record { remaining = pos (length s.workers); value = none }))
        × (async v n fname' input out size s1 ≡ some (some id, s2))
        × (find id s2.futures ≡ some (record { remaining = pos 1; value = none }))
        × (complete word s2.futures ≡ some futures')
        × (find id futures' ≡ some (record { remaining = pos 0; value = some (return_val word) }))
  unfolding submit
  async_takes_identifier fname fname' f g inputs outs input out size word s known known' some_of
        ins_of outs_of named =
      let id = next_invoc_id s.invoc_id in
      let all = posted_all v n s.max_inline_data (submission_id id f) inputs outs s.workers in
      let (ws', sent_to, same, len) =
        send_all-posted v n s.max_inline_data (submission_id id f) inputs outs s.workers ins_of
          outs_of in
      let (w, ws, first) = first_of v n all (omega (arith, len, some_of)) in
      let s1 : Caller v n = record s {
        invoc_id = id;
        futures = submit id (length s.workers) s.futures;
        workers = all;
      } in
      let waits = find-assign_self id (missing 1 none) s1.futures in
      let (futures', done, kept) = answered-kept word id (submit id 1 s1.futures) named waits in
      (
        s1,
        record s1 {
          invoc_id = suc id;
          futures = submit id 1 s1.futures;
          workers = written_to input out size g s1 w ∷ ws;
        },
        futures',
        async_all-posted v n fname f inputs outs s known ins_of outs_of,
        find-assign_self id (missing (length s.workers) none) s.futures,
        async-submitted fname' g input out size s1 w ws known' first,
        waits,
        done,
        kept,
      )

  -- When `block` polls the worker's answer to a call of `async` for one worker, of a known function
  -- with an index of 15 bits and under an identifier of 16 bits, it reports success. But the future of
  -- the call still waits for its answer, and everything that was polled with it is gone: it is taken
  -- off the count of requests, and no other future has changed.
  pub blocked_future_waits :
      (fname : Bytes) (f : ℕ) (input out : Buffer) (size : ℤ) (wc : Wc) (more : List Wc)
      (s : Caller v n) (w : Worker v n) (ws : List (Worker v n))
      → func_index fname s.func_names ≡ some f
      → f < 2 ^ 15
      → s.invoc_id < 2 ^ 16
      → s.workers ≡ w ∷ ws
      → ntohl wc.imm_data ≡ answered n (submission_id s.invoc_id f)
      → (s1 : Caller v n) × (s2 : Caller v n) × (w' : Worker v n) × (async v n fname input out size
            s
          ≡ some (some s.invoc_id, s1))
        × (s1.workers ≡ w' ∷ ws)
        × (block v n (completions (wc ∷ more)) s1 ≡ some (true, s2))
        × (s2.workers ≡ with_queue v n (lowered (suc (length more))) w' ∷ ws)
        × (find s.invoc_id s2.futures ≡ some (record { remaining = pos 1; value = none }))
        × (s2.futures ≡ submit s.invoc_id 1 s.futures)
  unfolding block submit lowered poll
  blocked_future_waits fname f input out size wc more s w ws known small low first answer =
      let id = s.invoc_id in
      let w' = written_to input out size f s w in
      let s1 : Caller v n = record s {
        invoc_id = suc id;
        futures = submit id 1 s.futures;
        workers = w' ∷ ws;
      } in
      let value : return_val (ntohl wc.imm_data) ≡ 0 =
        ap return_val answer ∙ (invocation_round_trip n id f low small).0.3 in
      (
        s1,
        record s1 { workers = with_queue v n (lowered (suc (length more))) w' ∷ ws },
        w',
        async-submitted fname f input out size s w ws known first,
        refl,
        ap
            (λ b.
              some
                (b, record s1 { workers = with_queue v n (lowered (suc (length more))) w' ∷ ws }))
            ((==_iff (return_val (ntohl wc.imm_data)) 0).1 value),
        refl,
        find-assign_self id (missing 1 none) s.futures,
        refl,
      )
