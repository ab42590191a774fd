-- ===== src/Client/Execution.antt =====
-- rfaas/include/rfaas/executor.hpp and rfaas/lib/executor.cpp: invocations that the client waits for, on
-- one worker or on all of them, and the background thread that completes those it does not wait for. All
-- connections of a client share one queue for receptions, which is polled through the first of them. The
-- polls are arguments, in the order in which they are made; `none` stands for undefined behaviour and for
-- a call that still waits when they run out. `allocate` starts the background thread only in a comment.
-- Polls of the send queue whose outcome is not used are left out.
pub mod Together
pub mod Alone
pub mod Background
pub mod Calls
use r_faa_s.Common.{
  ℕ, zero, suc, Bool, true, false, ◌&&◌, Option, none, some, List, [], ◌∷◌, ◌++◌, Bytes, map,
  nat_eq, find, length, ◌==◌, ◌>>=◌, if◌then◌else◌,
}
use r_faa_s.Common.Int.{ℤ, pos, negsuc, ◌-ℤ◌, eqb_ℤ}
use r_faa_s.Rdmalib.Queue.{
  Wc, Polled, RecvQueue, Verbs, Link, count_of, wcs_of, poll, update_requests,
}
use r_faa_s.Client.Submission.{
  next_invoc_id, submission_id, blocking_submission_id, return_val, finished_invoc_id, func_index,
}
use r_faa_s.Client.Futures.{Future, Futures, submit, complete}
use r_faa_s.Client.Invocation.{NetworkOrder}
use r_faa_s.Client.Callbacks.{Buffer, Worker, write_of, refilled}

-- The variables of `execute` for one worker.
pub record Outcome : Type 0 where
  pub found_result : Bool
  pub return_value : ℕ
  pub out_size : ℕ
  pub futures : Futures

-- `while(expected)` over polls of the send queue; false where they run out.
unfoldable pub wait_sends : List Polled → ℤ → Bool
wait_sends [] expected = eqb_ℤ expected (pos 0)
wait_sends (p ∷ ps) expected =
    let rest = wait_sends ps (expected -ℤ count_of p) in
    if eqb_ℤ expected (pos 0) then true else rest

-- The requests taken back one by one.
unfoldable pub taken_back : ℕ → RecvQueue → RecvQueue
taken_back zero q = q
taken_back (suc k) q = taken_back k (update_requests (negsuc 0) q)

module _ (v : Verbs) (n : NetworkOrder) where
  open n use {ntohl}

  -- `executor`, as far as these calls go.
  pub record Caller : Type 0 where
    pub func_names : List Bytes
    pub invoc_id : ℕ
    pub max_inline_data : ℤ
    pub workers : List (Worker v n)
    pub futures : Futures
    pub active_polling : Bool
    pub end_requested : Bool

  unfoldable pub sent : ℤ → ℕ → Buffer → Buffer → Worker v n → Worker v n
  sent max_inline_data word input out w = record w {
    writes = w.writes ++ write_of v n input out (negsuc 0) max_inline_data word w ∷ [];
  }

  -- The loop that writes `in[i]` to connection `i`, with `out[i]` in its header.
  unfoldable pub send_all :
      ℤ → ℕ → List Buffer → List Buffer → List (Worker v n) → Option (List (Worker v n))
  unfolding sent
  send_all max_inline_data word inputs outs [] = some []
  send_all max_inline_data word [] outs (w ∷ ws) = none
  send_all max_inline_data word (input ∷ inputs) [] (w ∷ ws) = none
  send_all max_inline_data word (input ∷ inputs) (out ∷ outs) (w ∷ ws) = do
    ws' ← send_all max_inline_data word inputs outs ws
    some (sent max_inline_data word input out w ∷ ws')

  -- `async` on vectors: the future that it returns is named by its invocation; an unknown function
  -- gives an empty one.
  unfoldable pub async_all : Bytes → List Buffer → List Buffer → Caller → Option (Option ℕ × Caller)
  unfolding send_all
  async_all fname inputs outs s = elim (func_index fname s.func_names) [
    | none ↦ some (none, s)
    | some func_idx ↦ do
      let invoc_id = next_invoc_id s.invoc_id in
          let word = submission_id invoc_id func_idx in
          (send_all s.max_inline_data word inputs outs s.workers >>= λ ws. some (
            some invoc_id,
            record s {
              invoc_id = invoc_id;
              futures = submit invoc_id (length s.workers) s.futures;
              workers = map (refilled v n) ws;
            },
          ))
  ]

  -- A change of the count of requests of a connection.
  unfoldable pub with_queue : (RecvQueue → RecvQueue) → Worker v n → Worker v n
  with_queue f w = record w { link = record w.link { queue = f w.link.queue } }

  -- The results of one poll in `execute` on vectors: all of them count for it.
  unfoldable pub all_right : List Wc → Bool → Bool
  all_right [] correct = correct
  all_right (wc ∷ wcs) correct = all_right wcs (correct && (return_val (ntohl wc.imm_data) == 0))

  unfoldable pub collect : List Polled → ℤ → Bool → RecvQueue → Option (Bool × RecvQueue)
  unfolding all_right
  collect [] expected correct q = if eqb_ℤ expected (pos 0) then some (correct, q) else none
  collect (p ∷ ps) expected correct q =
      let rest = collect ps (expected -ℤ count_of p) (all_right (wcs_of p) correct) (poll p q).0 in
      if eqb_ℤ expected (pos 0) then some (correct, q) else rest

  -- The two loops that wait, and what the counts of requests become.
  unfoldable pub await_all :
      List Polled → List Polled → List (Worker v n) → Option (Bool × List (Worker v n))
  unfolding with_queue collect
  await_all sends polls [] = none
  await_all sends polls (w ∷ ws) =
      let cores = pos (length (w ∷ ws)) in
      let received =
        (collect polls cores true w.link.queue >>= λ r. some (
          r.0,
          with_queue (λ q. update_requests (cores -ℤ pos 1) r.1) w
              ∷ map (with_queue (update_requests (negsuc 0))) ws,
        )) in
      if wait_sends sends cores then received else none

  -- `execute` on vectors.
  unfoldable pub execute_all :
      Bytes
      → List Buffer
      → List Buffer
      → List Polled
      → List Polled
      → Caller
      → Option (Bool × Caller)
  unfolding send_all await_all
  execute_all fname inputs outs sends polls s = elim (func_index fname s.func_names) [
    | none ↦ some (false, s)
    | some func_idx ↦ do
      let invoc_id = next_invoc_id s.invoc_id in
          let word = blocking_submission_id invoc_id func_idx in
          (send_all s.max_inline_data word inputs outs s.workers >>= λ ws.
          await_all sends polls (map (refilled v n) ws) >>= λ r.
          some (r.0, record s { invoc_id = invoc_id; workers = r.1; active_polling = false }))
  ]

  -- The results of one poll in `execute` for one worker.
  unfoldable pub execute_answers : ℕ → List Wc → Outcome → Option Outcome
  execute_answers invoc_id [] x = some x
  execute_answers invoc_id (wc ∷ wcs) x =
      let word = ntohl wc.imm_data in
      let mine = execute_answers invoc_id wcs (record x {
        found_result = true;
        return_value = return_val word;
        out_size = wc.byte_len;
      }) in
      let others =
        (complete word x.futures >>= λ futures.
        execute_answers invoc_id wcs (record x { futures = futures })) in
      if finished_invoc_id word == invoc_id then mine else others

  -- The results of the poll that follows once the own one has come: all are those of others.
  unfoldable pub complete_wcs : List Wc → Futures → Option Futures
  complete_wcs [] futures = some futures
  complete_wcs (wc ∷ wcs) futures = do
    futures' ← complete (ntohl wc.imm_data) futures
    complete_wcs wcs futures'

  unfoldable pub last_poll : List Polled → Outcome → RecvQueue → Option (Outcome × RecvQueue)
  unfolding complete_wcs
  last_poll [] x q = none
  last_poll (p ∷ ps) x q = do
    futures ← complete_wcs (wcs_of p) x.futures
    some (record x { futures = futures }, (poll p q).0)

  -- The loop of `execute` for one worker. It gives the outcome and the queue after the last poll.
  unfoldable pub execute_loop : ℕ → List Polled → Outcome → RecvQueue → Option (Outcome × RecvQueue)
  unfolding execute_answers last_poll
  execute_loop invoc_id [] x q = none
  execute_loop invoc_id (p ∷ ps) x q = execute_answers invoc_id (wcs_of p) x >>= λ x'.
      let again = execute_loop invoc_id ps x' (poll p q).0 in
      let last = last_poll ps x' (poll p q).0 in if x'.found_result then last else again

  -- `execute` for one worker: whether it succeeded, and the size of the output.
  unfoldable pub execute :
      Bytes → Buffer → Buffer → List Polled → Caller → Option ((Bool × ℕ) × Caller)
  unfolding sent execute_loop with_queue
  execute fname input out polls s = elim (func_index fname s.func_names) [
    | none ↦ some ((false, 0), s)
    | some func_idx ↦ elim s.workers [
      | [] ↦ none
      | w ∷ ws ↦
          let invoc_id = next_invoc_id s.invoc_id in
          let word = blocking_submission_id invoc_id func_idx in
          let w' = refilled v n (sent s.max_inline_data word input out w) in
          let start : Outcome = record {
            found_result = false;
            return_value = 0;
            out_size = 0;
            futures = s.futures;
          } in
          execute_loop invoc_id polls start w'.link.queue >>= λ r. some (
            if r.0.return_value == 0 then (true, r.0.out_size) else (false, 0),
            record s {
              invoc_id = invoc_id;
              workers = with_queue (λ q. r.1) w' ∷ ws;
              futures = r.0.futures;
              active_polling = false;
            },
          )
    ]
  ]

  -- `poll_queue`: the counts after a promise was kept, all on the first connection.
  unfoldable pub balanced : List (Worker v n) → List (Worker v n)
  unfolding taken_back with_queue
  balanced [] = []
  balanced (w ∷ ws) =
      with_queue (λ q. taken_back (length ws) (update_requests (pos (length ws)) q)) w ∷ ws

  -- One result in `poll_queue`.
  unfoldable pub background_answer : ℕ → Caller → Option Caller
  unfolding balanced
  background_answer word s = do
    f ← find (finished_invoc_id word) s.futures
    futures ← complete word s.futures
    some (record s {
      futures = futures;
      workers = if eqb_ℤ (f.remaining -ℤ pos 1) (pos 0) then balanced s.workers else s.workers;
    })

  unfoldable pub background_answers : List Wc → Caller → Option Caller
  unfolding background_answer
  background_answers [] s = some s
  background_answers (wc ∷ wcs) s = do
    s' ← background_answer (ntohl wc.imm_data) s
    background_answers wcs s'

  -- One turn of `poll_queue` after an event.
  unfoldable pub background_turn : Polled → Caller → Option Caller
  unfolding background_answers with_queue
  background_turn p s = elim s.workers [
    | [] ↦ some s
    | w ∷ ws ↦
        background_answers (wcs_of p) (record s { workers = with_queue (λ q. (poll p q).0) w ∷ ws })
  ]

  unfoldable pub background_round : Polled → Caller → Option Caller
  unfolding background_turn
  background_round p s = let turn = background_turn p s in if s.end_requested then some s else turn
