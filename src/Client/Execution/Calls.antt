-- ===== src/Client/Execution/Calls.antt =====
-- rfaas/include/rfaas/executor.hpp and rfaas/lib/executor.cpp: the other calls on the first worker, and the
-- end of an executor.
pub mod Identifiers
use r_faa_s.Common.{
  ℕ, suc, Bool, true, Option, none, some, List, [], ◌∷◌, ◌++◌, Bytes, ◌==◌, ◌>>=◌, if◌then◌else◌,
}
use r_faa_s.Common.Int.{ℤ, negsuc}
use r_faa_s.Rdmalib.Queue.{Wc, Polled, Verbs, wcs_of, poll}
use r_faa_s.Client.Submission.{
  next_invoc_id, submission_id, stop_submission_id, return_val, func_index,
}
use r_faa_s.Client.Futures.{submit}
use r_faa_s.Client.Invocation.{NetworkOrder}
use r_faa_s.Client.Callbacks.{Buffer, Worker, write_of, refilled}
use r_faa_s.Client.Connections.{ManagerConnection, disconnect}
use r_faa_s.Client.Execution.{Caller, with_queue}

module _ (v : Verbs) (n : NetworkOrder) where
  open n use {ntohl}

  unfoldable pub posted : ℤ → ℤ → ℕ → Buffer → Buffer → Worker v n → Worker v n
  posted size max_inline_data word input out w = record w {
    writes = w.writes ++ write_of v n input out size max_inline_data word w ∷ [];
  }

  -- `async` for the first worker: the identifier is the one before the increment, which has no reset.
  unfoldable pub async : Bytes → Buffer → Buffer → ℤ → Caller v n → Option (Option ℕ × Caller v n)
  unfolding posted
  async fname input out size s = elim (func_index fname s.func_names) [
    | none ↦ some (none, s)
    | some func_idx ↦ elim s.workers [
      | [] ↦ none
      | w ∷ ws ↦
          let invoc_id = s.invoc_id in
          let word = submission_id invoc_id func_idx in
          some (
            some invoc_id,
            record s {
              invoc_id = suc invoc_id;
              futures = submit invoc_id 1 s.futures;
              workers = refilled v n (posted size s.max_inline_data word input out w) ∷ ws;
            },
          )
    ]
  ]

  -- `block`, with what its poll for results gives: the first result counts, whosever it is. A poll that
  -- fails leaves nothing to read.
  unfoldable pub block : Polled → Caller v n → Option (Bool × Caller v n)
  unfolding with_queue
  block p s = elim s.workers [
    | [] ↦ none
    | w ∷ ws ↦ elim (wcs_of p) [
      | [] ↦ none
      | wc ∷ _ ↦ some (
        return_val (ntohl wc.imm_data) == 0,
        record s { workers = with_queue v n (λ q. (poll p q).0) w ∷ ws },
      )
    ]
  ]

  -- `stop_execute`, which waits for nothing and refills nothing.
  unfoldable pub stop_execute : Bytes → Buffer → Buffer → Caller v n → Option (Caller v n)
  unfolding posted
  stop_execute fname input out s = elim (func_index fname s.func_names) [
    | none ↦ some s
    | some func_idx ↦ elim s.workers [
      | [] ↦ none
      | w ∷ ws ↦
          let invoc_id = next_invoc_id s.invoc_id in
          let word = stop_submission_id invoc_id in
          some (record s {
            invoc_id = invoc_id;
            workers = posted (negsuc 0) s.max_inline_data word input out w ∷ ws;
          })
    ]
  ]

  -- An executor with `_exec_manager`.
  pub record ManagedCaller : Type 0 where
    pub exec_manager : Option ManagerConnection
    pub caller : Caller v n

  -- `deallocate`, with the connection to the manager as it is when it is destroyed.
  unfoldable pub deallocate : ManagedCaller → ManagedCaller × Option ManagerConnection
  deallocate e = elim e.exec_manager [
    | none ↦ (e, none)
    | some m ↦ (
      record {
        exec_manager = none;
        caller = record e.caller { end_requested = true; workers = [] };
      },
      some (disconnect m),
    )
  ]
