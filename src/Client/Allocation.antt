-- ===== src/Client/Allocation.antt =====
-- rfaas/lib/executor.cpp, `executor::allocate`: the loop that accepts the connections of the workers and
-- the one that receives where their input goes. A connection is named by its pointer.
pub mod Progress
use r_faa_s.Common.{
  ℕ, zero, suc, ◌+◌, Bool, true, false, Option, none, some, List, [], ◌∷◌, ◌++◌, get_elem?, set,
  length, leb, ◌==◌, ◌>>=◌, if◌then◌else◌,
}
use r_faa_s.Rdmalib.Queue.{Wc}
use r_faa_s.Rdmalib.Listener.{ConnectionStatus, unknown, requested, established, disconnected}

-- `executor_state`: the connection and the remote input, once it is known.
pub record Worker : Type 0 where
  pub conn : ℕ
  pub remote_input : Option ℕ

-- What the loop keeps: the connections, the receives that are posted for the details of their buffers,
-- those that were accepted, those to which the code was sent, and its two counts.
pub record Loop : Type 0 where
  pub connections : List Worker
  pub posted : List ℕ
  pub accepted : List ℕ
  pub code_sent : List ℕ
  pub requests : ℕ
  pub established : ℕ

unfoldable pub start : Loop
start = record {
  connections = [];
  posted = [];
  accepted = [];
  code_sent = [];
  requests = 0;
  established = 0;
}

-- One event of `_state.poll_events()`; others than these two are only logged.
unfoldable pub on_event : ConnectionStatus → ℕ → Loop → Loop
on_event requested conn s = record s {
  connections = s.connections ++ record { conn = conn; remote_input = none } ∷ [];
  posted = s.posted ++ s.requests ∷ [];
  accepted = s.accepted ++ conn ∷ [];
  requests = s.requests + 1;
}
on_event established conn s = record s {
  code_sent = s.code_sent ++ conn ∷ [];
  established = s.established + 1;
}
on_event disconnected conn s = s
on_event unknown conn s = s

-- Where the loop is after some events: it has ended, with the events that it did not look at, or it
-- waits for another one.
pub data Outcome : Type 0 where
  ended : List (ConnectionStatus × ℕ) → Loop → Outcome
  waits : Loop → Outcome

unfoldable pub accept_loop : ℕ → List (ConnectionStatus × ℕ) → Loop → Outcome
unfolding on_event
accept_loop numcores [] s = if leb numcores s.established then ended [] s else waits s
accept_loop numcores ((status, conn) ∷ evs) s =
    let rest = accept_loop numcores evs (on_event status conn s) in
    if leb numcores s.established then ended ((status, conn) ∷ evs) s else rest

-- `_connections[id].remote_input = ...`, for one completion; `buffers` are `_execs_buf`, and `none` is an
-- index outside of one of the two.
unfoldable pub receive_details : List ℕ → Wc → List Worker → Option (List Worker)
receive_details buffers wc ws = do
  details ← get_elem? buffers wc.wr_id
  w ← get_elem? ws wc.wr_id
  some (set ws wc.wr_id (record w { remote_input = some details }))

-- The completions of some polls.
unfoldable pub receive_all : List ℕ → List Wc → List Worker → Option (List Worker)
unfolding receive_details
receive_all buffers [] ws = some ws
receive_all buffers (wc ∷ wcs) ws = do
  ws' ← receive_details buffers wc ws
  receive_all buffers wcs ws'
