-- ===== src/ExecutorManager/System.antt =====
-- server/executor_manager/manager.cpp: the threads of `Manager` together. The listener fills one queue
-- with clients, workers and disconnections; the other thread takes them from it and handles messages,
-- by polling or woken by events. `none` stands for undefined behaviour or an exception.
pub mod Announced
pub mod Leaving
use r_faa_s.Common.{
  ℕ, zero, suc, ◌+◌, ◌≡◌, ◌≢◌, Bool, true, false, not, Option, none, some, List, [], ◌∷◌, ◌++◌, Map,
  nat_eq, find, get_elem?, ◌==◌, ◌>>=◌, if◌then◌else◌, replicate, ltb,
}
use r_faa_s.Common.Int.{ℤ, pos}
use r_faa_s.Rdmalib.Queue.{Wc, Verbs, Link, create, refilled_link}
use r_faa_s.Rdmalib.Listener.{
  ConnectionManager, Connection, ConnectionStatus, unknown, requested, established, disconnected,
  CmEvent, Passive, poll_events,
}
use r_faa_s.ResourceManager.Messages.{LeaseAllocation}
use r_faa_s.ExecutorManager.Client.{Waited, Client, moved}
use r_faa_s.ExecutorManager.Manager.{
  Manager, handle_res_mgr_message, handle_client_message, handle_client_connection,
  handle_executor_connection, handle_disconnections, check_executors,
}

abbrev pub recv_buf_size : ℕ
recv_buf_size = 8

-- `Client(id, conn, pd, active)`; its buffers are fresh pages, which are 0.
unfoldable pub create_client : ℕ → ℕ → Client
create_client qp_num conn = record {
  connection = some conn;
  allocation_requests = replicate recv_buf_size (record { lease_id = pos 0; cores = pos 0 });
  executor = none;
  accounting = record { hot_polling_time = 0; execution_time = 0 };
  allocation_time = 0;
  active = true;
  id = pos qp_num;
}

-- `clients_to_connect`
abbrev pub member : ℕ → List ℕ → Bool
member x [] = false
member x (y ∷ l) = if y == x then true else member x l

abbrev pub without : ℕ → List ℕ → List ℕ
without x [] = []
without x (y ∷ l) = if y == x then without x l else y ∷ without x l

-- What a moved client holds as its identifier, the device of the messages, the connection manager, and
-- the receive queue of a new connection.
module _ (indeterminate : ℤ) (v : Verbs) (cm : ConnectionManager) (fresh : v.Device)
    (recv_buf : ℕ) where
  unfoldable pub initialized : Link v
  initialized = refilled_link v (record { queue = create recv_buf; device = fresh })

  -- An entry of `_client_queue`. A worker stands with its private data, which name its client, and a
  -- disconnection with the number of the queue pair. The source queues the connection itself and reads
  -- the number when it takes the entry, in a connection that `disable` may have deleted by then.
  pub data Entry : Type 0 where
    connect_worker : ℕ → ℕ → Entry
    connect_client : ℕ → Link v → Client → Entry
    disconnect : ℕ → Entry

  -- The manager with its listening side, the queue, what the listener and the other thread keep, and the
  -- connections that the listener has accepted, and rejected and freed.
  pub record System : Type 0 where
    pub passive : Passive cm
    pub manager : Manager v
    pub client_queue : List Entry
    pub clients_to_connect : List ℕ
    pub conn_count : ℕ
    pub accepted : List ℕ
    pub rejected : List ℕ

  -- `listen` on a requested connection, once it is known what `private_data.secret()` gives.
  unfoldable pub requested_worker : ℕ → Connection → System → System
  requested_worker c conn s =
      if member conn.private_data s.clients_to_connect
      then record s {
        client_queue = s.client_queue ++ connect_worker c conn.private_data ∷ [];
        accepted = s.accepted ++ c ∷ [];
      }
      else record s { rejected = s.rejected ++ c ∷ [] }

  unfoldable pub requested_client : ℕ → Connection → System → System
  unfolding create_client initialized
  requested_client c conn s = record s {
    client_queue =
        s.client_queue
        ++ connect_client conn.qp.qp_num initialized
            (moved indeterminate (create_client conn.qp.qp_num c))
          ∷ [];
    clients_to_connect = conn.qp.qp_num ∷ s.clients_to_connect;
    accepted = s.accepted ++ c ∷ [];
  }

  -- `listen` on a connection. For the widths that it uses the secret is a shift by 32 bits, so what comes
  -- out of it is an argument.
  unfoldable pub on_status : ℕ → ConnectionStatus → ℕ → Connection → System → System
  unfolding requested_worker requested_client
  on_status secret requested c conn s =
      if ltb 0 secret then requested_worker c conn s else requested_client c conn s
  on_status secret disconnected c conn s = record s {
    client_queue = s.client_queue ++ disconnect conn.qp.qp_num ∷ [];
    clients_to_connect = without conn.qp.qp_num s.clients_to_connect;
  }
  on_status secret established c conn s = s
  on_status secret unknown c conn s = s

  unfoldable pub on_event : ℕ → ConnectionStatus → Option ℕ → System → Option System
  unfolding on_status
  on_event secret status none s = some s
  on_event secret status (some c) s = do
    conn ← get_elem? s.passive.connections c
    some (on_status secret status c conn s)

  unfoldable pub listen : ℕ → CmEvent → System → Option System
  unfolding on_event
  listen secret ev s = do
    r ← poll_events cm ev s.passive
    on_event secret r.1 r.0 (record s { passive = r.2 })

  -- `_handle_connections`
  unfoldable pub handle_connections : Entry → Manager v → Option (Manager v)
  handle_connections (connect_worker c qp_num) m = handle_executor_connection v c qp_num m
  handle_connections (connect_client qp_num link client) m =
      some (handle_client_connection v indeterminate qp_num link client m)
  handle_connections (disconnect qp_num) m = some m

  -- One entry in `poll_rdma`; connections are counted and never counted off.
  unfoldable pub take_entry : Entry → System → Option System
  unfolding handle_connections
  take_entry (disconnect qp_num) s =
      some (record s { manager = handle_disconnections v qp_num s.manager })
  take_entry (connect_worker c qp_num) s = do
    m ← handle_connections (connect_worker c qp_num) s.manager
    some (record s { manager = m; conn_count = s.conn_count + 1 })
  take_entry (connect_client qp_num link client) s = do
    m ← handle_connections (connect_client qp_num link client) s.manager
    some (record s { manager = m; conn_count = s.conn_count + 1 })

  unfoldable pub take_entries : List Entry → System → Option System
  unfolding take_entry
  take_entries [] s = some s
  take_entries (e ∷ es) s = do s' ← take_entry e s; take_entries es s'

  -- A message, with the process that it may start and the time.
  pub record Arrived : Type 0 where
    pub pid : ℤ
    pub now : ℕ
    pub wc : Wc

  unfoldable pub handle_messages : List Arrived → Manager v → Option (Manager v)
  handle_messages [] m = some m
  handle_messages (a ∷ l) m = do
    m' ← handle_client_message v a.pid a.now a.wc m
    handle_messages l m'

  abbrev pub with_manager : System → Option (Manager v) → Option System
  with_manager s o = do m ← o; some (record s { manager = m })

  -- One round of `poll_rdma`: the queue is emptied, messages are handled, and processes looked after.
  unfoldable pub poll_round : List Arrived → (ℤ → Waited) → ℕ → System → Option System
  unfolding take_entries handle_messages
  poll_round messages waited now s = do
    s1 ← take_entries s.client_queue (record s { client_queue = [] })
    m ← handle_messages messages s1.manager
    m' ← check_executors v waited now m
    some (record s1 { manager = m' })

  -- `queue` of `_process_events_sleep`: connections are handled, disconnections put off.
  unfoldable pub queue : List Entry → Manager v → Option (Manager v × List ℕ)
  unfolding handle_connections
  queue [] m = some (m, [])
  queue (disconnect qp_num ∷ es) m = do r ← queue es m; some (r.0, qp_num ∷ r.1)
  queue (connect_worker c qp_num ∷ es) m = do
    m' ← handle_connections (connect_worker c qp_num) m
    queue es m'
  queue (connect_client qp_num link client ∷ es) m = do
    m' ← handle_connections (connect_client qp_num link client) m
    queue es m'

  unfoldable pub disconnect_all : List ℕ → Manager v → Manager v
  disconnect_all [] m = m
  disconnect_all (qp_num ∷ l) m = disconnect_all l (handle_disconnections v qp_num m)

  -- An event that wakes the thread, with what is polled then.
  pub data Woken : Type 0 where
    client_event : List Arrived → Woken
    res_mgr_event : List (ℕ × LeaseAllocation) → Woken

  unfoldable pub handle_allocations : List (ℕ × LeaseAllocation) → Manager v → Manager v
  handle_allocations [] m = m
  handle_allocations ((status, msg) ∷ l) m =
      handle_allocations l (handle_res_mgr_message v status msg m)

  -- The events of one wake-up, with what is in the queue then; the first event of a client empties it.
  -- The result has the disconnections that were put off, and what is left in the queue.
  unfoldable pub handle_events :
      List Woken → List Entry → Manager v → Option (Manager v × List ℕ × List Entry)
  unfolding queue handle_messages handle_allocations
  handle_events [] entries m = some (m, [], entries)
  handle_events (client_event messages ∷ evs) entries m = do
    r ← queue entries m
    m' ← handle_messages messages r.0
    r' ← handle_events evs [] m'
    some (r'.0, r.1 ++ r'.1, r'.2)
  handle_events (res_mgr_event allocations ∷ evs) entries m =
      handle_events evs entries (handle_allocations allocations m)

  -- One round of `_process_events_sleep`; after a time without events the queue is emptied too.
  unfoldable pub sleep_round : List Woken → System → Option System
  unfolding handle_events disconnect_all
  sleep_round [] s = do
    r ← queue s.client_queue s.manager
    some (record s { manager = disconnect_all r.1 r.0; client_queue = [] })
  sleep_round (ev ∷ evs) s = do
    r ← handle_events (ev ∷ evs) s.client_queue s.manager
    some (record s { manager = disconnect_all r.1 r.0; client_queue = r.2 })

  -- The steps of both threads.
  pub data Event : Type 0 where
    listens : ℕ → CmEvent → Event
    takes : Event
    message : Arrived → Event
    allocation : ℕ → LeaseAllocation → Event
    checks : (ℤ → Waited) → ℕ → Event

  unfoldable pub step : Event → System → Option System
  unfolding listen take_entry
  step (listens secret ev) s = listen secret ev s
  step takes s = elim s.client_queue [
    | [] ↦ some s
    | e ∷ es ↦ take_entry e (record s { client_queue = es })
  ]
  step (message a) s = with_manager s (handle_client_message v a.pid a.now a.wc s.manager)
  step (allocation status msg) s =
      with_manager s (some (handle_res_mgr_message v status msg s.manager))
  step (checks waited now) s = with_manager s (check_executors v waited now s.manager)

  -- What a step takes from the queue.
  abbrev pub taken : Event → List Entry → List Entry
  taken takes (e ∷ es) = e ∷ []
  taken _ es = []

  -- A run of the system, with the entries that the thread has taken.
  pub data Run (s : System) : List Entry → System → Type 0 where
    here : Run s [] s
    next :
        {log : List Entry} {t u : System} (ev : Event)
        → Run s log t
        → step ev t ≡ some u
        → Run s (log ++ taken ev t.client_queue) u
