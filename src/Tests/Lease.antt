-- ===== src/Tests/Lease.antt =====
-- A client that asks the resource manager for cores that its node has, or for more.
use r_faa_s.Common.{ℕ, ◌≡◌, refl, true, none, some, [], ◌∷◌, ◌++◌, nat_eq, find, arith}
use r_faa_s.Common.Int.{pos, ◌-ℤ◌}
use r_faa_s.Rdmalib.Queue.{Wc}
use r_faa_s.ResourceManager.Messages.{node_registration}
use r_faa_s.ResourceManager.Executor.{Executor, lease, is_initialized, is_fully_leased}
use r_faa_s.ResourceManager.Executors.{deref, lock, is_alive, store}
use r_faa_s.ResourceManager.Db.{LeaseResponse, search, open_lease}
use r_faa_s.ResourceManager.Manager.{Manager, Client, to_client, to_executor, handle_client_message}
use r_faa_s.Client.Connections.{ResourceManagerConnection}
use r_faa_s.Client.Lease.{lease as lease_executor}
use r_faa_s.Client.Lease.Granting.{lease_granted, lease_refused}
use r_faa_s.Tests.Rdmalib.{counting}
use r_faa_s.Tests.Client.{same_order}
use r_faa_s.Tests.Manager.{manager, client, from_client}

abbrev granted : LeaseResponse
granted = (open_lease (pos 2) (pos 10) (some 1) client.response manager.db).1

-- The node as it is after the lease.
abbrev node : Executor
node = record {
  node = 97 ∷ [];
  address = 49 ∷ [];
  port = pos 80;
  cores = pos 4;
  memory = pos 100;
  connection = some 7;
  free_cores = pos 2;
  free_memory = pos 90;
  receive_buffer = node_registration (98 ∷ 0 ∷ []) ∷ [];
}

took_it : (open_lease (pos 2) (pos 10) (some 1) client.response manager.db).0 ≡ some 1
unfolding open_lease search deref lock is_alive lease is_initialized
took_it = refl

left_it :
    deref (open_lease (pos 2) (pos 10) (some 1) client.response manager.db).2.executors 1
    ≡ some node
unfolding open_lease search deref lock is_alive lease is_initialized store is_fully_leased ◌-ℤ◌
left_it = refl

abbrev connection : ResourceManagerConnection
connection = record {
  is_connected = true;
  request = record { cores = pos 0; memory = pos 0 };
  responses = granted ∷ [];
  sent = [];
}

abbrev polled : ℕ → Wc
polled imm_data = record { status = 0; wr_id = 0; qp_num = 3; imm_data = imm_data; byte_len = 24 }

lease_granted_example :
    (m' : Manager counting) × (c' : ResourceManagerConnection) × (handle_client_message counting
        (some 1)
        from_client
        manager
      ≡ some m')
    × (m'.sent
        ≡ []
          ++ to_executor 7 (record { memory = pos 10; cores = pos 2; lease_id = 5 })
            ∷ to_client 9 1 granted
            ∷ [])
    × (lease_executor same_order (pos 2) (pos 10) (polled 1 ∷ []) connection
        ≡ some (
          some (record {
            address = 49 ∷ [];
            port = pos 80;
            numcores = pos 2;
            memory = pos 10;
            lease_id = pos 5;
          }),
          c',
        ))
    × (c'.sent ≡ [] ++ record { cores = pos 2; memory = pos 10 } ∷ [])
lease_granted_example =
    lease_granted counting same_order (pos 2) (pos 10) (some 1) from_client manager client 1 7 node
      connection (polled 1) [] refl (unfold find in refl) refl refl took_it left_it refl
      (omega arith, tt) (omega arith) (omega arith) refl refl refl

-- A client whose slot asks for more cores than any node has.
abbrev greedy : Client
greedy = record client { allocation_requests = record { cores = pos 9; memory = pos 10 } ∷ [] }

none_suits : (open_lease (pos 9) (pos 10) (some 1) client.response manager.db).0 ≡ none
unfolding open_lease search deref lock is_alive lease is_initialized
none_suits = refl

lease_refused_example :
    (m' : Manager counting) × (c' : ResourceManagerConnection) × (handle_client_message counting
        (some 1)
        from_client
        (record manager { clients = (9, greedy) ∷ [] })
      ≡ some m')
    × (m'.sent ≡ [] ++ to_client 9 0 client.response ∷ [])
    × (lease_executor same_order (pos 9) (pos 10) (polled 0 ∷ []) connection ≡ some (none, c'))
    × (c'.sent ≡ [] ++ record { cores = pos 9; memory = pos 10 } ∷ [])
lease_refused_example =
    lease_refused counting same_order (pos 9) (pos 10) (some 1) from_client
      (record manager { clients = (9, greedy) ∷ [] }) greedy connection (polled 0) [] refl
      (unfold find in refl) refl refl none_suits refl refl
