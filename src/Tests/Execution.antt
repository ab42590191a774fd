-- ===== src/Tests/Execution.antt =====
-- A client with two workers that are called together, in the background, or the first of them alone.
use r_faa_s.Common.{
  ℕ, ◌≡◌, refl, true, false, none, some, List, [], ◌∷◌, ◌++◌, map, nat_eq, find, assign, arith,
  ◌==◌, if◌then◌else◌,
}
use r_faa_s.Common.Int.{pos, negsuc}
use r_faa_s.Rdmalib.Queue.{Wc, completions}
use r_faa_s.Client.Submission.{
  next_invoc_id, submission_id, blocking_submission_id, finished_invoc_id, return_val, func_index,
}
use r_faa_s.Client.Futures.{Futures, submit, complete, complete_all}
use r_faa_s.Client.Futures.Counting.{last_value}
use r_faa_s.Client.Futures.Completion.{AllKnown}
use r_faa_s.Client.Callbacks.{Buffer, Worker, refilled}
use r_faa_s.Client.Callbacks.Calls.{words}
use r_faa_s.Client.Execution.{Caller, sent, with_queue, execute_all, execute, async_all}
use r_faa_s.Client.Execution.Together.{joined, lowered, all_zero, posted_all, all_workers_served}
use r_faa_s.Client.Execution.Alone.{others, polls_of, polled, own_result_reported}
use r_faa_s.Client.Execution.Background.{background_rounds, first_lowered, async_all_kept}
use r_faa_s.Client.Execution.Calls.{async, block}
use r_faa_s.Client.Execution.Calls.Identifiers.{async_takes_identifier, blocked_future_waits}
use r_faa_s.Client.Invocation.{answered}
use r_faa_s.Tests.Rdmalib.{counting}
use r_faa_s.Tests.Client.{same_order}
use r_faa_s.Tests.Manager.{link}

abbrev worker : ℕ → Worker counting same_order
worker target = record { remote_input = target; link = link; writes = [] }

-- Invocation 3 has one answer missing.
abbrev outstanding : Futures
outstanding = (3, record { remaining = pos 1; value = none }) ∷ []

abbrev caller : Caller counting same_order
caller = record {
  func_names = (97 ∷ []) ∷ (98 ∷ []) ∷ [];
  invoc_id = 6;
  max_inline_data = pos 128;
  workers = worker 8192 ∷ worker 16384 ∷ [];
  futures = outstanding;
  active_polling = false;
  end_requested = false;
}

abbrev result : ℕ → ℕ → Wc
result word size = record { status = 0; wr_id = 0; qp_num = 7; imm_data = word; byte_len = size }

abbrev input : Buffer
input = record { address = 100; rkey = 1; bytes = 64 }

abbrev output : Buffer
output = record { address = 200; rkey = 2; bytes = 64 }

abbrev sends : List (List Wc)
sends = (result 0 0 ∷ result 0 0 ∷ []) ∷ []

-- The two answers come in two polls, the second one with the value 1.
abbrev answers : List (List Wc)
answers = (result 0x70000 8 ∷ []) ∷ [] ∷ (result 0x70001 8 ∷ []) ∷ []

all_workers_served_example :
    execute_all counting same_order
      (98 ∷ [])
      (input ∷ input ∷ [])
      (output ∷ output ∷ [])
      (map completions sends)
      (map completions answers)
      caller
    ≡ some (
      all_zero counting same_order (joined answers),
      record caller {
        invoc_id = next_invoc_id 6;
        workers = map (with_queue counting same_order (lowered 1)) (
            posted_all counting same_order
              (pos 128)
              (blocking_submission_id (next_invoc_id 6) 1)
              (input ∷ input ∷ [])
              (output ∷ output ∷ [])
              caller.workers);
        active_polling = false;
      },
    )
all_workers_served_example =
    all_workers_served counting same_order (98 ∷ []) 1 (input ∷ input ∷ []) (output ∷ output ∷ [])
      sends answers caller (unfold func_index in refl) (omega arith) (omega arith) (omega arith)
      refl refl

-- The answers of the two workers, with the result of invocation 3 between them.
abbrev batches : List (List Wc)
batches = (result 0x70000 8 ∷ result 0x30000 8 ∷ []) ∷ (result 0x70005 8 ∷ []) ∷ []

batches_known :
    AllKnown (words counting same_order (joined batches)) (submit (next_invoc_id 6) 2 outstanding)
unfolding finished_invoc_id find assign submit next_invoc_id
batches_known = ((_, refl), ((_, refl), ((_, refl), tt)))

async_all_kept_example :
    let posted =
      posted_all counting same_order
        (pos 128)
        (submission_id (next_invoc_id 6) 1)
        (input ∷ input ∷ [])
        (output ∷ output ∷ [])
        caller.workers in
    (s1 : Caller counting same_order) × (s2 : Caller counting same_order) × (async_all counting
        same_order
        (98 ∷ [])
        (input ∷ input ∷ [])
        (output ∷ output ∷ [])
        caller
      ≡ some (some (next_invoc_id 6), s1))
    × (s1.workers ≡ posted)
    × (background_rounds counting same_order batches s1 ≡ some s2)
    × (find (next_invoc_id 6) s2.futures
        ≡ some (record {
          remaining = pos 0;
          value = last_value (next_invoc_id 6) (words counting same_order (joined batches));
        }))
    × (s2.workers ≡ first_lowered counting same_order 3 posted)
async_all_kept_example =
    async_all_kept counting same_order (98 ∷ []) 1 (input ∷ input ∷ []) (output ∷ output ∷ [])
      batches caller (unfold func_index in refl) (omega arith) (omega arith) (omega arith) refl
      batches_known (unfold next_invoc_id finished_invoc_id in refl)

-- The own result comes in the second poll, behind the result of invocation 3.
others_known :
    AllKnown
      (others counting same_order ([] ∷ []) (result 0x30000 8 ∷ []) []
        ++ words counting same_order [])
      outstanding
unfolding finished_invoc_id find
others_known = ((_, refl), tt)

own_result_reported_example :
    let word = blocking_submission_id (next_invoc_id 6) 1 in
    let w' =
      refilled counting same_order
        (sent counting same_order (pos 128) word input output (worker 8192)) in
    (futures' : Futures) × (complete_all
        (others counting same_order ([] ∷ []) (result 0x30000 8 ∷ []) []
          ++ words counting same_order [])
        outstanding
      ≡ some futures')
    × (execute counting same_order
          (98 ∷ [])
          input
          output
          (polls_of counting same_order
            ([] ∷ [])
            (result 0x30000 8 ∷ [])
            (result 0x70000 16)
            []
            []
            [])
          caller
        ≡ some (
          if return_val 0x70000 == 0 then (true, 16) else (false, 0),
          record caller {
            invoc_id = next_invoc_id 6;
            workers =
                with_queue counting same_order
                  (lowered (polled counting same_order ([] ∷ []) (result 0x30000 8 ∷ []) [] []))
                  w'
                ∷ worker 16384
                ∷ [];
            futures = futures';
            active_polling = false;
          },
        ))
own_result_reported_example =
    own_result_reported counting same_order (98 ∷ []) 1 input output ([] ∷ [])
      (result 0x30000 8 ∷ []) [] [] (result 0x70000 16) [] (worker 8192) (worker 16384 ∷ []) caller
      (unfold func_index in refl) refl (unfold next_invoc_id finished_invoc_id in refl) refl
      (unfold next_invoc_id finished_invoc_id in refl) refl others_known

async_takes_identifier_example :
    (s1 : Caller counting same_order) × (s2 : Caller counting same_order) × (futures' : Futures)
    × (async_all counting same_order (98 ∷ []) (input ∷ input ∷ []) (output ∷ output ∷ []) caller
        ≡ some (some (next_invoc_id 6), s1))
    × (find (next_invoc_id 6) s1.futures ≡ some (record { remaining = pos 2; value = none }))
    × (async counting same_order (97 ∷ []) input output (negsuc 0) s1
        ≡ some (some (next_invoc_id 6), s2))
    × (find (next_invoc_id 6) s2.futures ≡ some (record { remaining = pos 1; value = none }))
    × (complete 0x70005 s2.futures ≡ some futures')
    × (find (next_invoc_id 6) futures'
        ≡ some (record { remaining = pos 0; value = some (return_val 0x70005) }))
async_takes_identifier_example =
    async_takes_identifier counting same_order (98 ∷ []) (97 ∷ []) 1 0 (input ∷ input ∷ [])
      (output ∷ output ∷ []) input output (negsuc 0) 0x70005 caller (unfold func_index in refl)
      (unfold func_index in refl) (omega arith) (omega arith) (omega arith)
      (unfold next_invoc_id finished_invoc_id in refl)

blocked_future_waits_example :
    (s1 : Caller counting same_order) × (s2 : Caller counting same_order) × (w' : Worker counting
      same_order)
    × (async counting same_order (98 ∷ []) input output (pos 32) caller ≡ some (some 6, s1))
    × (s1.workers ≡ w' ∷ worker 16384 ∷ [])
    × (block counting same_order
          (completions (result (answered same_order (submission_id 6 1)) 8 ∷ result 0x30000 8 ∷ []))
          s1
        ≡ some (true, s2))
    × (s2.workers ≡ with_queue counting same_order (lowered 2) w' ∷ worker 16384 ∷ [])
    × (find 6 s2.futures ≡ some (record { remaining = pos 1; value = none }))
    × (s2.futures ≡ submit 6 1 outstanding)
blocked_future_waits_example =
    blocked_future_waits counting same_order (98 ∷ []) 1 input output (pos 32)
      (result (answered same_order (submission_id 6 1)) 8) (result 0x30000 8 ∷ []) caller
      (worker 8192) (worker 16384 ∷ []) (unfold func_index in refl) (omega arith) (omega arith) refl
      refl
