-- ===== src/ResourceManager/System/Rounds.antt =====
-- The rounds of the processing threads: server/resource_manager/manager.cpp, `process_executors`,
-- `process_clients` and `process_events_sleep`. A round takes what its queue holds when it begins.
use r_faa_s.Common.{ℕ, Option, some, List, [], ◌∷◌, nat_eq, ◌>>=◌}
use r_faa_s.Common.Int.{◌+ℤ◌}
use r_faa_s.Rdmalib.Queue.{Wc, Verbs}
use r_faa_s.Rdmalib.Listener.{ConnectionManager}
use r_faa_s.ResourceManager.Executor.{Executor, WeakPtr}
use r_faa_s.ResourceManager.Manager.{Manager, Client, handle_message, handle_client_message}
use r_faa_s.ResourceManager.System.{
  System, Entry, change, handle_executor_entry, handle_client_entry, poll_sends, with_manager,
}

-- What became ready: the channel of the clients or the one of the executors, with what was polled.
pub data SleepEvent : Type 0 where
  client_events : List (WeakPtr × Wc) → SleepEvent
  executor_events : List Wc → SleepEvent

module _ (v : Verbs) (cm : ConnectionManager) (fresh : v.Device) (recv_buf : ℕ) where
  abbrev S : Type 0
  S = System v cm fresh recv_buf

  -- The inner loops, over the entries that are there.
  unfoldable pub drain_executors : List (Entry v cm fresh recv_buf Executor) → S → S
  drain_executors [] s = record s { executor_queue = [] }
  drain_executors (e ∷ es) s = drain_executors es (record s {
    executor_queue = es;
    manager = handle_executor_entry v cm fresh recv_buf e s.manager;
    executor_count = s.executor_count +ℤ change v cm fresh recv_buf e;
  })

  unfoldable pub drain_clients : List (Entry v cm fresh recv_buf Client) → S → S
  drain_clients [] s = record s { client_queue = [] }
  drain_clients (e ∷ es) s = drain_clients es (record s {
    client_queue = es;
    manager = handle_client_entry v cm fresh recv_buf e s.manager;
    client_count = s.client_count +ℤ change v cm fresh recv_buf e;
  })

  -- The loops over what was polled.
  unfoldable pub handle_messages : List Wc → Manager v → Option (Manager v)
  handle_messages [] m = some m
  handle_messages (wc ∷ wcs) m = do m' ← handle_message v wc m; handle_messages wcs m'

  unfoldable pub handle_requests : List (WeakPtr × Wc) → Manager v → Option (Manager v)
  handle_requests [] m = some m
  handle_requests ((dangling, wc) ∷ wcs) m = do
    m' ← handle_client_message v dangling wc m
    handle_requests wcs m'

  -- One round of `process_executors`.
  unfoldable pub executors_round : List Wc → S → Option S
  unfolding drain_executors handle_messages
  executors_round wcs s =
      let s' = drain_executors s.executor_queue s in
      with_manager v cm fresh recv_buf s' (handle_messages wcs s'.manager)

  -- One round of `process_clients`.
  unfoldable pub clients_round : List (WeakPtr × Wc) → S → Option S
  unfolding drain_clients handle_requests
  clients_round wcs s =
      let s' = drain_clients s.client_queue s in
      with_manager v cm fresh recv_buf s'
        (handle_requests wcs s'.manager >>= poll_sends v cm fresh recv_buf)

  -- The same in `process_events_sleep`, which keeps no counts.
  unfoldable pub queue_executor : List (Entry v cm fresh recv_buf Executor) → S → S
  queue_executor [] s = record s { executor_queue = [] }
  queue_executor (e ∷ es) s = queue_executor es (record s {
    executor_queue = es;
    manager = handle_executor_entry v cm fresh recv_buf e s.manager;
  })

  unfoldable pub queue_client : List (Entry v cm fresh recv_buf Client) → S → S
  queue_client [] s = record s { client_queue = [] }
  queue_client (e ∷ es) s = queue_client es (record s {
    client_queue = es;
    manager = handle_client_entry v cm fresh recv_buf e s.manager;
  })

  unfoldable pub handle_event : SleepEvent → S → Option S
  unfolding queue_executor queue_client handle_messages handle_requests
  handle_event (client_events wcs) s =
      let s' = queue_client s.client_queue s in
      with_manager v cm fresh recv_buf s' (handle_requests wcs s'.manager)
  handle_event (executor_events wcs) s =
      let s' = queue_executor s.executor_queue s in
      with_manager v cm fresh recv_buf s' (handle_messages wcs s'.manager)

  unfoldable pub handle_events : List SleepEvent → S → Option S
  unfolding handle_event
  handle_events [] s = some s
  handle_events (ev ∷ evs) s = do s' ← handle_event ev s; handle_events evs s'

  -- One round of `process_events_sleep`.
  unfoldable pub sleep_round : List SleepEvent → S → Option S
  unfolding handle_events queue_executor queue_client
  sleep_round evs s = do
    s1 ← handle_events evs s
    let s2 = queue_client s1.client_queue s1 in
        let s3 = queue_executor s2.executor_queue s2 in
        with_manager v cm fresh recv_buf s3 (poll_sends v cm fresh recv_buf s3.manager)
