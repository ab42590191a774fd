-- ===== src/Worker/Life.antt =====
-- server/executor/fast_executor.cpp, `Thread::thread_work`: a worker from its start to its end, with the
-- polls that it makes until the process is told to stop, and `FastExecutors::allocate_threads`.
pub mod Billing
pub mod Pinning
use r_faa_s.Common.{
  ℕ, zero, suc, ◌+◌, ◌≡◌, Bool, true, false, Option, none, some, List, [], ◌∷◌, ◌++◌, length, ◌>>=◌,
  if◌then◌else◌,
}
use r_faa_s.Common.Int.{ℤ, pattern_of}
use r_faa_s.Rdmalib.Queue.{Polled, wcs_of}
use r_faa_s.Worker.Accounting.{final_reports}
use r_faa_s.Worker.Thread.{
  Platform, Thread, PollingState, hot, hot_always, warm, warm_always, Round, again, leave,
  hot_round, warm_round, waited, refilled, initial_polling_state,
}

module _ (p : Platform) where
  -- Which polling function the thread is in; `hot` keeps its count of rounds and its start.
  pub data Place : Type 0 where
    in_hot : ℕ → ℕ → Place
    in_warm : Place

  abbrev pub enter_hot : Thread p → Place × Thread p
  enter_hot t = (in_hot 0 (p.clock t.readings), record t { readings = t.readings + 1 })

  -- The choice in the loop of `thread_work`.
  unfoldable pub enter : PollingState → Thread p → Place × Thread p
  enter hot t = enter_hot t
  enter hot_always t = enter_hot t
  enter warm t = (in_warm, t)
  enter warm_always t = (in_warm, t)

  -- The place after a round.
  unfoldable pub continued : Round p → Place → Place × Thread p
  unfolding enter
  continued (again i start t) (in_hot i' start') = (in_hot i start, t)
  continued (again i start t) in_warm = (in_warm, t)
  continued (leave t) place = enter t.polling_state t

  -- A round where the thread is. Fuel of one unit more than the completions is enough for the loop over
  -- them, if it ends. A poll comes with whether an event ends the wait that may follow it in `warm`.
  unfoldable pub round_at : ℕ → Polled × Bool → Place → Thread p → Option (Round p)
  unfolding waited
  round_at timeout (r, event) (in_hot i start) t =
      hot_round p (suc (length (wcs_of r))) timeout r i start t
  round_at timeout (r, event) in_warm t = waited p event (warm_round p r t)

  -- The polls until `term_process` is set.
  unfoldable pub rounds : ℕ → List (Polled × Bool) → Place × Thread p → Option (Thread p)
  unfolding round_at continued
  rounds timeout [] (place, t) = some t
  rounds timeout (r ∷ rs) (place, t) = do
    o ← round_at timeout r place t
    rounds timeout rs (continued o place)

  -- The end of a thread: what it still holds back is reported.
  unfoldable pub report_finally : Thread p → Thread p
  report_finally t =
      let (a, c) = final_reports t.accounting t.counters in
      record t { accounting = a; counters = c }

  -- `thread_work`, given whether the connections to the manager and to the client succeed. The timeout
  -- is an `int` that `hot` takes as a `uint32_t`.
  unfoldable pub thread_work : Bool → Bool → ℤ → List (Polled × Bool) → Thread p → Option (Thread p)
  unfolding rounds report_finally enter
  thread_work to_manager to_client timeout rs t =
      let started : Thread p = record t { polling_state = initial_polling_state timeout } in
      let worked = (do
        t' ←
            rounds (pattern_of 0x8000_0000 timeout) rs
              (enter (refilled p started).polling_state (refilled p started))
        some (report_finally t')) in
      if to_manager then (if to_client then worked else some started) else some t

-- `allocate_threads`: the core that each thread is pinned to. `PIN_THREADS_START_INDEX` is set by the
-- build.
unfoldable pub cores_from : Bool → ℕ → ℕ → List ℕ
cores_from pin_threads zero core = []
cores_from pin_threads (suc n) core =
    core ∷ cores_from pin_threads n (if pin_threads then core + 1 else core)

unfoldable pub allocate_threads : ℕ → ℕ → Bool → ℕ → List ℕ
unfolding cores_from
allocate_threads start_index core_start_index pin_threads numcores =
    cores_from pin_threads numcores (start_index + core_start_index)
