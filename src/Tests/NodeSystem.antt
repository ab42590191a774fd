-- ===== src/Tests/NodeSystem.antt =====
-- The threads of an executor manager that a client and one of its workers connect to.
use r_faa_s.Common.{
  true, ◌≡◌, refl, none, some, [], ◌∷◌, ◌++◌, find, assign, nat_eq, emplace, get_elem?, ◌>>=◌,
}
use r_faa_s.Common.Int.{ℤ, pos, negsuc}
use r_faa_s.Rdmalib.PrivateData.{key}
use r_faa_s.Rdmalib.Listener.{
  connect_request, poll_events, request, create_connection, connected, queue_key, shared_queue,
}
use r_faa_s.ExecutorManager.Client.{moved, disable, Waited, unchanged}
use r_faa_s.ExecutorManager.Manager.{
  Manager, handle_client_message, handle_client_connection, handle_disconnections, check_executors,
}
use r_faa_s.ExecutorManager.System.{
  System, disconnect, Event, listens, takes, step, listen, on_event, on_status, requested_worker,
  requested_client, take_entry, handle_connections, create_client, initialized, here, next, Arrived,
  poll_round,
}
use r_faa_s.ExecutorManager.System.Announced.{AreAnnounced, workers_after_clients}
use r_faa_s.ExecutorManager.System.Leaving.{last_message_order}
use r_faa_s.Tests.Rdmalib.{counting}
use r_faa_s.Tests.Listener.{numbering, passive, from_some}
use r_faa_s.Tests.ExecutorManager.{client, manager}

abbrev S : Type 0
S = System (pos 0) counting numbering 0 32

abbrev quiet : S
quiet = record {
  passive = passive;
  manager = record manager { clients = []; links = [] };
  client_queue = [];
  clients_to_connect = [];
  conn_count = 0;
  accepted = [];
  rejected = [];
}

abbrev client_asks : Event (pos 0) counting numbering 0 32
client_asks = listens 0 (connect_request 100 none)

-- The new client has queue pair 20, which its worker names.
abbrev worker_asks : Event (pos 0) counting numbering 0 32
worker_asks = listens 20 (connect_request 101 (some 20))

abbrev asked : S
asked = from_some quiet (step (pos 0) counting numbering 0 32 client_asks quiet)

abbrev both_asked : S
both_asked = from_some quiet (step (pos 0) counting numbering 0 32 worker_asks asked)

abbrev client_taken : S
client_taken = from_some quiet (step (pos 0) counting numbering 0 32 takes both_asked)

workers_after_clients_example : AreAnnounced (pos 0) counting numbering 0 32 [] (
    ([] ++ (from_some (disconnect 0) (get_elem? both_asked.client_queue 0) ∷ []))
    ++ client_taken.client_queue)
unfolding step listen poll_events request create_connection connected queue_key shared_queue key
    find assign on_event on_status requested_worker requested_client take_entry handle_connections
    handle_client_connection create_client initialized moved emplace
workers_after_clients_example =
    workers_after_clients (pos 0) counting numbering 0 32 quiet client_taken
      ([] ++ (from_some (disconnect 0) (get_elem? both_asked.client_queue 0) ∷ [])) refl refl
      (next takes (next worker_asks (next client_asks here refl) refl) refl)

abbrev departed : S
departed = record quiet {
  manager = record manager {
    clients =
        (
          7,
          record client {
            allocation_requests = record { lease_id = negsuc 0; cores = pos 0 } ∷ [];
          },
        )
        ∷ [];
  };
  client_queue = disconnect 7 ∷ [];
}

abbrev last : Arrived (pos 0) counting numbering 0 32
last = record {
  pid = pos 300;
  now = 60;
  wc = record { status = 0; wr_id = 0; qp_num = 7; imm_data = 0; byte_len = 40 };
}

abbrev all_run : ℤ → Waited
all_run pid = unchanged

last_message_order_example :
    ((m' : Manager counting) × (handle_client_message counting (pos 300) 60 last.wc departed.manager
        ≡ some m')
      × (m'.effects
          ≡ []
            ++ (disable 60 true (record client {
              allocation_requests = record { lease_id = negsuc 0; cores = pos 0 } ∷ [];
            })).1))
    × (find 7 (handle_disconnections counting 7 departed.manager).clients ≡ none)
    × ((handle_disconnections counting 7 departed.manager).effects ≡ [])
    × (poll_round (pos 0) counting numbering 0 32 (last ∷ []) all_run 70 departed ≡ (
        check_executors counting all_run 70 (handle_disconnections counting 7 departed.manager)
        >>= λ m. some (record departed { client_queue = []; manager = m })))
last_message_order_example =
    last_message_order (pos 0) counting numbering 0 32 departed
      (record client { allocation_requests = record { lease_id = negsuc 0; cores = pos 0 } ∷ [] })
      (record { lease_id = negsuc 0; cores = pos 0 }) last all_run 70 refl (unfold find in refl)
      refl refl refl
