-- ===== src/ExecutorManager/Manager.antt =====
-- server/executor_manager/manager.cpp, `Manager`: the handlers of the thread that polls the clients,
-- each one step. `none` stands for a read outside of a buffer, a write past the end of the array of
-- connections, a null pointer, or an exception.
pub mod Requests
pub mod Executors
use r_faa_s.Common.{
  ℕ, zero, suc, ◌+◌, ◌%◌, ◌^◌, Bool, true, false, Option, none, some, List, [], ◌∷◌, ◌++◌, Map,
  nat_eq, find, assign, emplace, erase, get_elem?, ◌==◌, ◌>>=◌, if◌then◌else◌,
}
use r_faa_s.Common.Int.{ℤ, pos, negsuc, ltb_ℤ, pattern_of}
use r_faa_s.Rdmalib.Queue.{Wc, Verbs, Link, refilled_link, consumed_one}
use r_faa_s.ResourceManager.Messages.{LeaseAllocation}
use r_faa_s.ExecutorManager.Leases.{Lease, Leases, insert, get_threadsafe}
use r_faa_s.ExecutorManager.Client.{
  Status, running, finished, finished_fail, Waited, check, ActiveExecutor, add_executor,
  AllocationRequest, Client, moved, Effect, spawned, killed, status_sent, lease_closed, given_up,
  add_allocation_time, disable,
}

-- `LeaseStatus::ALLOCATED` and `LeaseStatus::UNKNOWN`
abbrev pub allocated : ℕ
allocated = 0

abbrev pub unknown : ℕ
unknown = 1

abbrev pub is_running : Status → Bool
is_running running = true
is_running _ = false

-- What `_check_executors` does with one client: it stays, or it is disabled and removed.
unfoldable pub check_client : (ℤ → Waited) → ℕ → Bool → Client → Option (List Effect)
unfolding given_up
check_client waited now has_resource_manager client =
    if client.active
    then (elim client.executor [
      | none ↦ none
      | some e ↦
          if is_running (check (waited e.pid)).0
          then none
          else some (
              given_up (some e)
              ++ (disable now has_resource_manager
                  (record (add_allocation_time now e client) { executor = none })).1)
    ])
    else none

-- `_check_executors` and the removals that follow it, over the table. The log of a process that has
-- ended reads the account at the number of the client's queue pair, in a buffer of one account.
unfoldable pub check_clients :
    (ℤ → Waited) → ℕ → Bool → Map ℕ Client → Option (Map ℕ Client × List Effect)
unfolding check_client
check_clients waited now has_resource_manager [] = some ([], [])
check_clients waited now has_resource_manager ((qp_num, client) ∷ rest) =
    let others = check_clients waited now has_resource_manager rest in
    elim (check_client waited now has_resource_manager client) [
      | none ↦ do r ← others; some ((qp_num, client) ∷ r.0, r.1)
      | some ended ↦ do
        account ← get_elem? (client.accounting ∷ []) qp_num
        r ← others
        some (r.0, ended ++ r.1)
    ]

-- The start of a process, unless `fork` failed.
unfoldable pub started : ℤ → ℤ → List Effect
started pid cores = if ltb_ℤ pid (pos 0) then [] else spawned pid cores ∷ []

module _ (v : Verbs) where
  pub record Manager : Type 0 where
    pub clients : Map ℕ Client
    pub leases : Leases
    pub effects : List Effect
    pub has_resource_manager : Bool
    pub links : Map ℕ (Link v)
    pub resource_manager_link : Link v

  -- `receive_wcs().update_requests(-1); receive_wcs().refill();`
  unfoldable pub consumed : ℕ → Manager → Manager
  consumed qp_num m = elim (find qp_num m.links) [
    | none ↦ m
    | some l ↦ record m { links = assign qp_num (consumed_one v l) m.links }
  ]

  -- `_handle_res_mgr_message`: the queue is filled up, but nothing was taken off its count.
  unfoldable pub handle_res_mgr_message : ℕ → LeaseAllocation → Manager → Manager
  handle_res_mgr_message status msg m =
      if status == 0
      then record m {
        leases =
            insert (record { id = msg.lease_id; cores = msg.cores; memory = msg.memory }) m.leases;
        resource_manager_link = refilled_link v m.resource_manager_link;
      }
      else m

  -- `_process_client` with an identifier that is not negative: the lease that the client names is
  -- inserted first and looked up then. `pid` is what `fork` returns at time `now`; the array for the
  -- connections of a negative number of cores is an exception; an executor that the client had before
  -- is given up with its connections.
  unfoldable pub allocate : ℤ → ℕ → ℕ → Client → AllocationRequest → Manager → Option Manager
  unfolding started given_up
  allocate pid now qp_num client rq m =
      let id = pattern_of 0x8000_0000 rq.lease_id in
      let leases = insert (record { id = id; cores = rq.cores; memory = pos 512 }) m.leases in
      elim (get_threadsafe id leases) [
        | none ↦
            some
              (record m { leases = leases; effects = m.effects ++ status_sent qp_num unknown ∷ [] })
        | some lease ↦
            let process : ActiveExecutor = record {
              pid = pid;
              cores = lease.cores;
              connections = [];
              allocation_finished = now;
            } in
            if ltb_ℤ lease.cores (pos 0)
            then none
            else some (record m {
              leases = leases;
              clients = assign qp_num (record client { executor = some process }) m.clients;
              effects =
                  m.effects
                  ++ (started pid lease.cores
                      ++ given_up client.executor
                      ++ status_sent qp_num allocated ∷ []);
            })
      ]

  -- `_process_client`, and the removal of the client when it returns `false`.
  unfoldable pub process_client : ℤ → ℕ → ℕ → Client → AllocationRequest → Manager → Option Manager
  unfolding allocate consumed
  process_client pid now qp_num client rq m =
      if ltb_ℤ rq.lease_id (pos 0)
      then (let (client', effects) = disable now m.has_resource_manager client in
          some (record m {
            clients = erase qp_num m.clients;
            links = erase qp_num m.links;
            effects = m.effects ++ effects;
          }))
      else (do m' ← allocate pid now qp_num client rq m; some (consumed qp_num m'))

  -- `_handle_client_message`
  unfoldable pub handle_client_message : ℤ → ℕ → Wc → Manager → Option Manager
  unfolding process_client
  handle_client_message pid now wc m = elim (find wc.qp_num m.clients) [
    | none ↦ some m
    | some client ↦
        if wc.status == 0
        then (do
          rq ← get_elem? client.allocation_requests wc.wr_id
          process_client pid now wc.qp_num client rq m)
        else some m
  ]

  -- `_handle_connections`, for a client, which moves into the table.
  unfoldable pub handle_client_connection : ℤ → ℕ → Link v → Client → Manager → Manager
  handle_client_connection indeterminate qp_num link client m = record m {
    clients = emplace qp_num (moved indeterminate client) m.clients;
    links = emplace qp_num link m.links;
  }

  -- `_handle_connections`, for a worker: its private data name the client.
  unfoldable pub handle_executor_connection : ℕ → ℕ → Manager → Option Manager
  handle_executor_connection conn qp_num m = elim (find qp_num m.clients) [
    | none ↦ some m
    | some client ↦ do
      e ← client.executor
      e' ← add_executor conn e
      some (record m { clients = assign qp_num (record client { executor = some e' }) m.clients })
  ]

  -- `_handle_disconnections`
  unfoldable pub handle_disconnections : ℕ → Manager → Manager
  handle_disconnections qp_num m = record m {
    clients = erase qp_num m.clients;
    links = erase qp_num m.links;
  }

  -- The links of the clients that are left.
  abbrev pub links_of : Map ℕ Client → Map ℕ (Link v) → Map ℕ (Link v)
  links_of clients [] = []
  links_of clients ((qp_num, link) ∷ rest) =
      let others = links_of clients rest in
      elim (find qp_num clients) [ none ↦ others | some client ↦ (qp_num, link) ∷ others ]

  -- `_check_executors`
  unfoldable pub check_executors : (ℤ → Waited) → ℕ → Manager → Option Manager
  unfolding check_clients
  check_executors waited now m = do
    r ← check_clients waited now m.has_resource_manager m.clients
    some (record m { clients = r.0; links = links_of r.0 m.links; effects = m.effects ++ r.1 })
