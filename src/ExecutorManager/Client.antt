-- ===== src/ExecutorManager/Client.antt =====
-- server/executor_manager/client.cpp and executor_process.cpp: a client, the process that runs its
-- workers, and the end of both. What the operating system says of a process is a parameter.
use r_faa_s.Common.{
  ℕ, ◌+◌, ◌-◌, ◌%◌, ◌^◌, Bool, false, Option, none, some, List, [], ◌∷◌, ◌++◌, length,
  if◌then◌else◌,
}
use r_faa_s.Common.Int.{ℤ, pos, negsuc, ltb_ℤ, pattern_of}
use r_faa_s.ResourceManager.Messages.{LeaseDeallocation}
use r_faa_s.Worker.Accounting.{Counters}

pub data Status : Type 0 where
  running finished finished_fail : Status

-- What `waitpid` with `WNOHANG | WUNTRACED` gives: zero, -1 with or without `ECHILD`, or a process
-- that exited, was ended by a signal, or was stopped.
pub data Waited : Type 0 where
  unchanged no_child wait_error stopped : Waited
  exited : ℕ → Waited
  signaled : ℕ → Waited

-- `ProcessExecutor::check`
unfoldable pub check : Waited → Status × ℤ
check unchanged = (running, pos 0)
check no_child = (finished, negsuc 0)
check wait_error = (finished_fail, negsuc 0)
check stopped = (finished_fail, negsuc 0)
check (exited code) = (finished, pos code)
check (signaled sig) = (finished_fail, pos sig)

-- `ActiveExecutor` of a process: the array of its connections has room for one per core. The identifier
-- is what `fork` returned, which is -1 if it failed.
pub record ActiveExecutor : Type 0 where
  pub pid : ℤ
  pub cores : ℤ
  pub connections : List ℕ
  pub allocation_finished : ℕ

-- `add_executor`: `none` for a write past the end of the array.
unfoldable pub add_executor : ℕ → ActiveExecutor → Option ActiveExecutor
add_executor conn e =
    if ltb_ℤ (pos (length e.connections)) e.cores
    then some (record e { connections = e.connections ++ conn ∷ [] })
    else none

-- `AllocationRequest`, with the fields that the manager reads.
pub record AllocationRequest : Type 0 where
  pub lease_id : ℤ
  pub cores : ℤ

-- `Client`. Times are in microseconds, the time of allocation in 32 bits.
pub record Client : Type 0 where
  pub connection : Option ℕ
  pub allocation_requests : List AllocationRequest
  pub executor : Option ActiveExecutor
  pub accounting : Counters
  pub allocation_time : ℕ
  pub active : Bool
  pub id : ℤ

-- `Client(Client&&)`, which does not set `_id`: what it holds then is an argument.
unfoldable pub moved : ℤ → Client → Client
moved indeterminate c = record c { id = indeterminate }

-- What the manager does outside: signals and answers, connections that go with their executor, and
-- messages to the resource manager.
pub data Effect : Type 0 where
  spawned : ℤ → ℤ → Effect
  killed : ℤ → Effect
  connections_deleted : List ℕ → Effect
  status_sent : ℕ → ℕ → Effect
  lease_closed : LeaseDeallocation → Effect

-- `allocation_time += now - executor->_allocation_finished`
unfoldable pub add_allocation_time : ℕ → ActiveExecutor → Client → Client
add_allocation_time now e c = record c {
  allocation_time = (c.allocation_time + (now + 2 ^ 64 - e.allocation_finished)) % 2 ^ 32;
}

-- The message that closes a lease. It carries the client's identifier.
unfoldable pub deallocation : Client → LeaseDeallocation
deallocation c = record {
  lease_id = pattern_of 0x8000_0000 c.id;
  allocation_time = c.allocation_time;
  hot_polling_time = c.accounting.hot_polling_time;
  execution_time = c.accounting.execution_time;
}

-- `~ActiveExecutor`, for the executor that a client has.
unfoldable pub given_up : Option ActiveExecutor → List Effect
given_up none = []
given_up (some e) = connections_deleted e.connections ∷ []

-- `disable`, which deletes the connection of the client too.
unfoldable pub disable : ℕ → Bool → Client → Client × List Effect
unfolding add_allocation_time deallocation given_up
disable now has_resource_manager c =
    let (c', kills) : Client × List Effect = elim c.executor [
      | none ↦ (c, [])
      | some e ↦ (
        record (add_allocation_time now e c) { executor = none },
        killed e.pid ∷ given_up (some e),
      )
    ] in
    let closes = if has_resource_manager then lease_closed (deallocation c') ∷ [] else [] in
    (record c' { connection = none; active = false }, kills ++ closes)
