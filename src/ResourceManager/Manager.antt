-- ===== src/ResourceManager/Manager.antt =====
-- server/resource_manager/manager.cpp, `Manager`: the decision on a connection request and the
-- handlers of the threads that process executors and clients. One handler is one step. `none` stands
-- for a read outside of a buffer or through a null pointer.
pub mod Registration
pub mod Conns
pub mod Answers
pub mod Handshake
use r_faa_s.Common.{
  ℕ, zero, suc, ◌+◌, ◌≢◌, Bool, true, false, not, ◌&&◌, Option, none, some, List, [], ◌∷◌, ◌++◌,
  Bytes, Map, nat_eq, find, assign, erase, if◌then◌else◌, get_elem?, ◌==◌, ◌>>=◌,
}
use r_faa_s.Common.Int.{ℤ, pos, negsuc, ltb_ℤ}
use r_faa_s.Rdmalib.PrivateData.{key, secret as secret_of}
use r_faa_s.Rdmalib.Queue.{Wc, Verbs, Link, consumed_one}
use r_faa_s.ResourceManager.Messages.{
  Message, node_registration, lease_deallocation, unknown, LeaseAllocation, c_string,
}
use r_faa_s.ResourceManager.Executor.{Executor, WeakPtr, create, initialize_connection}
use r_faa_s.ResourceManager.Executors.{
  Executors, deref, get_executor, connect_executor, register_executor, remove_executor,
}
use r_faa_s.ResourceManager.Db.{Db, LeaseResponse, open_lease, close_lease}

-- `LeaseRequest`, a slot of a client's receive buffer.
pub record Request : Type 0 where
  pub cores : ℤ
  pub memory : ℤ

-- `Client`, under the number of its queue pair.
pub record Client : Type 0 where
  pub client_id : ℕ
  pub allocation_requests : List Request
  pub response : LeaseResponse

-- What the manager posts, by queue pair: a response to a client, with its immediate value, or a lease
-- to an executor, always with the value 1.
pub data Sent : Type 0 where
  to_client : ℕ → ℕ → LeaseResponse → Sent
  to_executor : ℕ → LeaseAllocation → Sent

-- What becomes of a requested connection.
pub data Admission : Type 0 where
  reject accept_executor accept_client : Admission

-- `listen_rdma`, on `REQUESTED`; the private data have the default widths.
unfoldable pub admit : ℕ → ℕ → Option Admission
admit secret word = do
  k ← key 8 8 16 word
  s ← secret_of 8 8 16 word
  some (
      if k == 1 && not (s == secret)
      then reject
      else (if k == 1 then accept_executor else accept_client))

module _ (v : Verbs) where
  -- `poll_send` are the clients whose posted answers have not been polled yet.
  pub record Manager : Type 0 where
    pub db : Db
    pub clients : Map ℕ Client
    pub client_id : ℕ
    pub links : Map ℕ (Link v)
    pub sent : List Sent
    pub poll_send : List ℕ

  abbrev pub with_executors : Executors → Manager → Manager
  with_executors ex m = record m { db = record m.db { executors = ex } }

  unfoldable pub consumed : ℕ → Manager → Manager
  unfolding consumed_one
  consumed qp_num m = elim (find qp_num m.links) [
    | none ↦ m
    | some l ↦ record m { links = assign qp_num (consumed_one v l) m.links }
  ]

  -- The connection comes with its receive queue filled.
  unfoldable pub handle_executor_connection : ℕ → Link v → Executor → Manager → Manager
  handle_executor_connection qp_num link exec m =
      let m' = with_executors (connect_executor qp_num exec m.db.executors) m in
      record m' { links = assign qp_num link m'.links }

  unfoldable pub handle_executor_disconnection : ℕ → Manager → Manager
  handle_executor_disconnection qp_num m =
      with_executors (remove_executor qp_num m.db.executors).1 m

  -- What a message from an executor does.
  unfoldable pub dispatch : ℕ → Message → Manager → Option Manager
  dispatch qp_num (node_registration field) m = do
    name ← c_string field
    some (with_executors (register_executor qp_num name m.db.executors).1 m)
  dispatch qp_num (lease_deallocation msg) m = some (record m { db = close_lease msg m.db })
  dispatch qp_num (unknown type) m = some m

  -- `_handle_message`
  unfoldable pub handle_message : Wc → Manager → Option Manager
  unfolding dispatch consumed
  handle_message wc m =
      if wc.status == 0
      then (elim (get_executor wc.qp_num m.db.executors) [
        | none ↦ some m
        | some r ↦ do
          exec ← deref m.db.executors r
          msg ← get_elem? exec.receive_buffer wc.wr_id
          m' ← dispatch wc.qp_num msg m
          conn ← exec.connection
          some (consumed conn m')
      ])
      else some m

  unfoldable pub handle_client_connection : ℕ → Link v → Client → Manager → Manager
  handle_client_connection qp_num link client m = record m {
    clients = assign qp_num client m.clients;
    links = assign qp_num link m.links;
  }

  -- Erasing a client closes its connection.
  unfoldable pub handle_client_disconnection : ℕ → Manager → Manager
  unfolding handle_executor_disconnection
  handle_client_disconnection qp_num m =
      let m' = handle_executor_disconnection qp_num m in
      elim (find qp_num m'.clients) [
        | none ↦ m'
        | some client ↦ record m' {
          clients = erase qp_num m'.clients;
          links = erase qp_num m'.links;
        }
      ]

  -- The answer to a request for cores, given what `open_lease` returned.
  unfoldable pub answer :
      ℕ → Client → Request → Option ℕ × LeaseResponse × Db → Manager → Option Manager
  answer qp_num client rq (none, response, db) m = some (record m {
    db = db;
    clients = assign qp_num (record client { response = response }) m.clients;
    sent = m.sent ++ to_client qp_num 0 response ∷ [];
    poll_send = m.poll_send ++ qp_num ∷ [];
  })
  answer qp_num client rq (some r, response, db) m = do
    allocated ← deref db.executors r
    conn ← allocated.connection
    let allocation : LeaseAllocation = record {
      memory = rq.memory;
      cores = rq.cores;
      lease_id = response.lease_id;
    }
    some (record m {
      db = db;
      clients = assign qp_num (record client { response = response }) m.clients;
      sent = m.sent ++ to_executor conn allocation ∷ to_client qp_num 1 response ∷ [];
      poll_send = m.poll_send ++ qp_num ∷ [];
    })

  -- A request for no positive number of cores is a disconnection.
  unfoldable pub handle_request : WeakPtr → ℕ → Client → Request → Manager → Option Manager
  unfolding answer consumed
  handle_request dangling qp_num client rq m =
      if ltb_ℤ (pos 0) rq.cores
      then (do
        m' ← answer qp_num client rq (open_lease rq.cores rq.memory dangling client.response m.db) m
        some (consumed qp_num m'))
      else some (record m { clients = erase qp_num m.clients; links = erase qp_num m.links })

  -- `_handle_client_message`; for `dangling` see `open_lease`.
  unfoldable pub handle_client_message : WeakPtr → Wc → Manager → Option Manager
  unfolding handle_request
  handle_client_message dangling wc m =
      if wc.status == 0
      then (elim (find wc.qp_num m.clients) [
        | none ↦ some m
        | some client ↦ do
          rq ← get_elem? client.allocation_requests wc.wr_id
          handle_request dangling wc.qp_num client rq m
      ])
      else some m
