-- ===== src/Client/Futures.antt =====
-- rfaas/include/rfaas/executor.hpp and rfaas/lib/executor.cpp: the invocations that a client waits
-- for, and the results that complete them. A result is the word that came back, in host order.
pub mod Counting
pub mod Completion
use r_faa_s.Common.{
  ℕ, zero, suc, ◌+◌, Bool, true, false, ◌&&◌, Option, none, some, List, [], ◌∷◌, Map, nat_eq, find,
  assign, length, ◌==◌, ◌>>=◌, if◌then◌else◌,
}
use r_faa_s.Common.Int.{ℤ, pos, negsuc, ◌-ℤ◌, eqb_ℤ}
use r_faa_s.Client.Submission.{return_val, finished_invoc_id}

-- An entry of `_futures`: how many workers have still to answer, and the value of the promise.
pub record Future : Type 0 where
  pub remaining : ℤ
  pub value : Option ℕ

abbrev pub Futures : Type 0
Futures = Map ℕ Future

-- `_futures[invoc_id] = std::make_tuple(workers, std::promise<int>{})`
unfoldable pub submit : ℕ → ℕ → Futures → Futures
submit invoc_id workers futures =
    assign invoc_id (record { remaining = pos workers; value = none }) futures

-- `if(!--std::get<0>(it->second)) std::get<1>(it->second).set_value(return_val)`
unfoldable pub answered_once : ℕ → Future → Future
answered_once value f =
    let remaining = f.remaining -ℤ pos 1 in
    if eqb_ℤ remaining (pos 0)
    then record { remaining = remaining; value = some value }
    else record f { remaining = remaining }

-- One result: `none` stands for the use of an iterator at the end.
unfoldable pub complete : ℕ → Futures → Option Futures
unfolding answered_once
complete word futures = elim (find (finished_invoc_id word) futures) [
  | none ↦ none
  | some f ↦ some (assign (finished_invoc_id word) (answered_once (return_val word) f) futures)
]

-- The loop of `poll_queue` over the results of one poll. The changes of the count of receive requests
-- that follow a kept promise cancel out.
unfoldable pub complete_all : List ℕ → Futures → Option Futures
complete_all [] futures = some futures
complete_all (word ∷ words) futures = do
  futures' ← complete word futures
  complete_all words futures'
