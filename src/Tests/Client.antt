-- ===== src/Tests/Client.antt =====
-- Invocations over a network whose order is the host's.
use r_faa_s.Client.Futures.{Futures, complete_all}
use r_faa_s.Client.Futures.Counting.{count, after}
use r_faa_s.Client.Futures.Completion.{AllKnown, promise_kept}
use r_faa_s.Common.{
  ℕ, some, none, List, [], ◌∷◌, find, nat_eq, ◌≡◌, ◌≢◌, ◌≤◌, refl, true, false, arith,
}
use r_faa_s.Common.Int.{pos}
use r_faa_s.Client.Submission.{
  submission_id, blocking_submission_id, return_val, finished_invoc_id, nth_invoc_id,
  invoc_ids_distinct,
}
use r_faa_s.Client.Invocation.{NetworkOrder, received, answered, invocation_round_trip}

abbrev pub same_order : NetworkOrder
same_order = record { htonl = λ w. w; ntohl = λ w. w; ntohl-htonl = λ w h. refl }

invocation_round_trip_example :
    (((received same_order (submission_id 40000 3)).func_id ≡ 3)
      × ((received same_order (submission_id 40000 3)).solicited ≡ true)
      × (finished_invoc_id (answered same_order (submission_id 40000 3)) ≡ 40000)
      × (return_val (answered same_order (submission_id 40000 3)) ≡ 0))
    × (((received same_order (blocking_submission_id 40000 3)).func_id ≡ 3)
        × ((received same_order (blocking_submission_id 40000 3)).solicited ≡ false)
        × (finished_invoc_id (answered same_order (blocking_submission_id 40000 3)) ≡ 40000)
        × (return_val (answered same_order (blocking_submission_id 40000 3)) ≡ 0))
invocation_round_trip_example = invocation_round_trip same_order 40000 3 (omega arith) (omega arith)

invoc_ids_distinct_example :
    (1 ≤ nth_invoc_id 2 65534)
    × (nth_invoc_id 2 65534 ≤ 65535)
    × (nth_invoc_id 2 65534 ≢ nth_invoc_id 7 65534)
invoc_ids_distinct_example =
    invoc_ids_distinct 65534 2 7 (omega arith) (omega arith) (omega arith) (omega arith)

-- Invocation 3 runs on two workers, invocation 4 on one.
abbrev waiting : Futures
waiting =
    (3, record { remaining = pos 2; value = none })
    ∷ (4, record { remaining = pos 1; value = none })
    ∷ []

-- Its two results are 0 and 5, with the result of the other one between them.
abbrev results : List ℕ
results = 0x30000 ∷ 0x40000 ∷ 0x30005 ∷ []

both_results : count 3 results ≡ 2
unfolding finished_invoc_id
both_results = refl

results_known : AllKnown results waiting
unfolding finished_invoc_id find
results_known = (
  (record { remaining = pos 2; value = none }, refl),
  (
    (record { remaining = pos 1; value = none }, refl),
    ((record { remaining = pos 2; value = none }, refl), tt),
  ),
)

promise_kept_example :
    (futures' : Futures) × (complete_all results waiting ≡ some futures')
    × (find 3 futures' ≡ some (after 2 3 results))
promise_kept_example =
    promise_kept results waiting 3 2 results_known (unfold find in refl) (omega arith)
      (omega (arith, both_results))
