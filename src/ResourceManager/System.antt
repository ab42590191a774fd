-- ===== src/ResourceManager/System.antt =====
-- server/resource_manager/manager.cpp: the threads of `Manager` together. The listener fills two
-- queues, from which the other threads take connections and disconnections before they handle the
-- messages that they poll. A step is one entry taken or one message handled, so a sequence of steps is
-- an interleaving of the threads. `none` stands for undefined behaviour or an exception.
pub mod Rounds
pub mod Admitting
pub mod Shrinks
pub mod Sound
pub mod Listening
pub mod Safety
pub mod Served
pub mod Dangling
use r_faa_s.Common.{
  ℕ, zero, suc, ◌+◌, Bool, true, false, not, ◌&&◌, Option, none, some, List, [], ◌∷◌, ◌++◌, Bytes,
  ◌≡◌, nat_eq, find, assign, if◌then◌else◌, get_elem?, set, ◌==◌, ◌>>=◌, replicate,
}
use r_faa_s.Common.Int.{ℤ, pos, negsuc, ◌+ℤ◌}
use r_faa_s.Rdmalib.PrivateData.{key}
use r_faa_s.Rdmalib.Queue.{Wc, Verbs, Link, create, refilled_link}
use r_faa_s.Rdmalib.Listener.{
  ConnectionManager, Connection, ConnectionStatus, unknown, requested, established, disconnected,
  CmEvent, Passive, poll_events,
}
use r_faa_s.ResourceManager.Messages.{Message}
use r_faa_s.ResourceManager.Executor.{
  Executor, WeakPtr, create as create_executor, initialize_connection,
}
use r_faa_s.ResourceManager.Executors.{deref, get_executor, store}
use r_faa_s.ResourceManager.Db.{add}
use r_faa_s.ResourceManager.Manager.{
  Manager, Client, Request, Admission, reject, accept_executor, accept_client, admit,
  with_executors, handle_executor_connection, handle_executor_disconnection, handle_message,
  handle_client_connection, handle_client_disconnection, handle_client_message,
}

abbrev pub recv_buf_size : ℕ
recv_buf_size = 32

-- `Client(client_id, conn, pd)`; its buffers are fresh pages, which are 0.
unfoldable pub create_client : ℕ → Client
create_client client_id = record {
  client_id = client_id;
  allocation_requests = replicate recv_buf_size (record { cores = pos 0; memory = pos 0 });
  response = record { lease_id = 0; port = pos 0; address = [] };
}

-- The device of the messages, the connection manager, and of a new connection the receive queue of its
-- queue pair and the size of its buffer.
module _ (v : Verbs) (cm : ConnectionManager) (fresh : v.Device) (recv_buf : ℕ) where
  -- `receive_wcs().initialize(...)` on a new connection.
  unfoldable pub initialized : Link v
  initialized = refilled_link v (record { queue = create recv_buf; device = fresh })

  -- An entry of a queue: `Operation` with what belongs to it. A disconnection stands with the number of
  -- the queue pair, which the source reads when it takes the entry, in a connection that may be deleted by
  -- then.
  pub data Entry (A : Type 0) : Type 0 where
    connect : ℕ → Link v → A → Entry A
    disconnect : ℕ → Entry A

  -- The manager with its listening side, its queues, the counts that the polling threads keep, and the
  -- connections on which the listener has called `accept`, `reject` and `close`.
  pub record System : Type 0 where
    pub passive : Passive cm
    pub manager : Manager v
    pub executor_queue : List (Entry Executor)
    pub client_queue : List (Entry Client)
    pub executor_count : ℤ
    pub client_count : ℤ
    pub accepted : List ℕ
    pub rejected : List ℕ
    pub closed : List ℕ
    pub secret : ℕ

  -- `listen_rdma` on a requested connection, once it is decided what becomes of it.
  unfoldable pub admitted : Admission → ℕ → Connection → System → System
  unfolding initialized
  admitted reject c conn s = record s { rejected = s.rejected ++ c ∷ [] }
  admitted accept_executor c conn s = record s {
    executor_queue =
        s.executor_queue
        ++ connect conn.qp.qp_num initialized (initialize_connection conn.qp.qp_num create_executor)
          ∷ [];
    accepted = s.accepted ++ c ∷ [];
  }
  admitted accept_client c conn s = record s {
    client_queue =
        s.client_queue
        ++ connect conn.qp.qp_num initialized (create_client s.manager.client_id) ∷ [];
    manager = record s.manager { client_id = s.manager.client_id + 1 };
    accepted = s.accepted ++ c ∷ [];
  }

  unfoldable pub on_requested : ℕ → Connection → System → Option System
  unfolding admitted
  on_requested c conn s = do
    verdict ← admit s.secret conn.private_data
    some (admitted verdict c conn s)

  -- `listen_rdma` on a connection that has ended, and on one that is established.
  unfoldable pub on_disconnected : Connection → System → Option System
  on_disconnected conn s = do
    k ← key 8 8 16 conn.private_data
    some (
        if k == 1
        then record s { executor_queue = s.executor_queue ++ disconnect conn.qp.qp_num ∷ [] }
        else record s { client_queue = s.client_queue ++ disconnect conn.qp.qp_num ∷ [] })

  unfoldable pub on_established : ℕ → Connection → System → Option System
  on_established c conn s = do
    k ← key 8 8 16 conn.private_data
    some (if k == 1 then s else (if k == 2 then s else record s { closed = s.closed ++ c ∷ [] }))

  unfoldable pub on_status : ConnectionStatus → ℕ → Connection → System → Option System
  unfolding on_requested on_disconnected on_established
  on_status unknown c conn s = some s
  on_status requested c conn s = on_requested c conn s
  on_status established c conn s = on_established c conn s
  on_status disconnected c conn s = on_disconnected conn s

  -- One round of `listen_rdma`, when there is an event: nothing is done on the null pointer.
  unfoldable pub on_event : ConnectionStatus → Option ℕ → System → Option System
  unfolding on_status
  on_event status none s = some s
  on_event status (some c) s = do
    conn ← get_elem? s.passive.connections c
    on_status status c conn s

  unfoldable pub listen : CmEvent → System → Option System
  unfolding on_event
  listen ev s = do r ← poll_events cm ev s.passive; on_event r.1 r.0 (record s { passive = r.2 })

  -- What the threads do with an entry.
  unfoldable pub handle_executor_entry : Entry Executor → Manager v → Manager v
  handle_executor_entry (connect qp_num link exec) m =
      handle_executor_connection v qp_num link exec m
  handle_executor_entry (disconnect qp_num) m = handle_executor_disconnection v qp_num m

  unfoldable pub handle_client_entry : Entry Client → Manager v → Manager v
  handle_client_entry (connect qp_num link client) m =
      handle_client_connection v qp_num link client m
  handle_client_entry (disconnect qp_num) m = handle_client_disconnection v qp_num m

  -- A thread counts its connections.
  abbrev pub change : {A : Type 0} → Entry A → ℤ
  change (connect qp_num link a) = pos 1
  change (disconnect qp_num) = negsuc 0

  -- `_check_queue` with what follows on an entry; an empty queue gives none.
  unfoldable pub take_executor_entry : System → System
  unfolding handle_executor_entry
  take_executor_entry s = elim s.executor_queue [
    | [] ↦ s
    | e ∷ es ↦ record s {
      manager = handle_executor_entry e s.manager;
      executor_queue = es;
      executor_count = s.executor_count +ℤ change e;
    }
  ]

  unfoldable pub take_client_entry : System → System
  unfolding handle_client_entry
  take_client_entry s = elim s.client_queue [
    | [] ↦ s
    | e ∷ es ↦ record s {
      manager = handle_client_entry e s.manager;
      client_queue = es;
      client_count = s.client_count +ℤ change e;
    }
  ]

  abbrev pub all_known : List ℕ → Manager v → Bool
  all_known [] m = true
  all_known (qp_num ∷ l) m = elim (find qp_num m.clients) [ none ↦ false | some c ↦ all_known l m ]

  -- The end of a round of `process_clients`: the sends of the clients are polled. The pointers must
  -- lead to clients that are there.
  unfoldable pub poll_sends : Manager v → Option (Manager v)
  poll_sends m = if all_known m.poll_send m then some (record m { poll_send = [] }) else none

  -- A message that the device writes into a slot of a receive buffer.
  unfoldable pub executor_writes : ℕ → ℕ → Message → Manager v → Manager v
  executor_writes qp_num slot msg m = elim (get_executor qp_num m.db.executors) [
    | none ↦ m
    | some r ↦ elim (deref m.db.executors r) [
      | none ↦ m
      | some e ↦
          with_executors v
            (store r (record e { receive_buffer = set e.receive_buffer slot msg }) m.db.executors) m
    ]
  ]

  unfoldable pub client_writes : ℕ → ℕ → Request → Manager v → Manager v
  client_writes qp_num slot rq m = elim (find qp_num m.clients) [
    | none ↦ m
    | some c ↦ record m {
      clients =
          assign qp_num (record c { allocation_requests = set c.allocation_requests slot rq })
            m.clients;
    }
  ]

  -- The steps of the threads, of the HTTP server that adds nodes, and of the device.
  pub data Event : Type 0 where
    listens : CmEvent → Event
    takes_executor takes_client polls_sends : Event
    executor_message : Wc → Event
    client_message : WeakPtr → Wc → Event
    adds : Bytes → Bytes → ℤ → ℤ → ℤ → Event
    writes_executor : ℕ → ℕ → Message → Event
    writes_client : ℕ → ℕ → Request → Event

  abbrev pub with_manager : System → Option (Manager v) → Option System
  with_manager s none = none
  with_manager s (some m) = some (record s { manager = m })

  unfoldable pub step : Event → System → Option System
  unfolding listen take_executor_entry take_client_entry poll_sends executor_writes client_writes
  step (listens ev) s = listen ev s
  step takes_executor s = some (take_executor_entry s)
  step takes_client s = some (take_client_entry s)
  step polls_sends s = with_manager s (poll_sends s.manager)
  step (executor_message wc) s = with_manager s (handle_message v wc s.manager)
  step (client_message dangling wc) s =
      with_manager s (handle_client_message v dangling wc s.manager)
  step (adds name ip port cores memory) s =
      with_manager s
        (some (record s.manager { db = (add name ip port cores memory s.manager.db).1 }))
  step (writes_executor qp_num slot msg) s =
      with_manager s (some (executor_writes qp_num slot msg s.manager))
  step (writes_client qp_num slot rq) s =
      with_manager s (some (client_writes qp_num slot rq s.manager))

  -- A run of the system: the states that sequences of steps lead to.
  pub data Reach (s : System) : System → Type 0 where
    here : Reach s s
    next : {t u : System} (ev : Event) → Reach s t → step ev t ≡ some u → Reach s u

  unfoldable pub run : List Event → System → Option System
  run [] s = some s
  run (ev ∷ evs) s = do t ← step ev s; run evs t
