-- ===== src/Tests/Manager.antt =====
-- The resource manager with one node that is ready, one that registers, and a client.
use r_faa_s.Common.{ℕ, ◌≡◌, ◌⊎◌, refl, none, some, [], ◌∷◌, ◌++◌, find, nat_eq, bytes_eq}
use r_faa_s.Common.Int.{pos, negsuc}
use r_faa_s.Rdmalib.Queue.{Wc, links, Link}
use r_faa_s.ResourceManager.Messages.{node_registration, c_string}
use r_faa_s.ResourceManager.Executor.{Executor}
use r_faa_s.ResourceManager.Executors.{Executors, deref, get_executor, get_executor_by_name}
use r_faa_s.ResourceManager.Db.{open_lease}
use r_faa_s.ResourceManager.Manager.{
  Manager, Client, to_client, to_executor, handle_message, handle_client_message,
}
use r_faa_s.ResourceManager.Manager.Registration.{registration_handled}
use r_faa_s.ResourceManager.Manager.Answers.{request_answered}
use r_faa_s.Tests.Rdmalib.{counting}
use r_faa_s.Tests.ResourceManager.{
  node_b, ready, waiting, two_nodes, two_nodes-IsValid, response, database,
}

-- The node behind queue pair 7 has a registration of the name of the other node in slot 0.
abbrev registering : Executor
registering = record ready { receive_buffer = node_registration (98 ∷ 0 ∷ []) ∷ [] }

abbrev executors : Executors
executors = record two_nodes { objects = waiting ∷ registering ∷ [] }

abbrev pub client : Client
client = record {
  client_id = 3;
  allocation_requests =
      record { cores = pos 2; memory = pos 10 } ∷ record { cores = negsuc 2; memory = pos 0 } ∷ [];
  response = response;
}

abbrev pub link : Link counting
link = record {
  queue = record {
    rcv_buf_size = 32;
    refill_threshold = 32;
    requests = pos 31;
    nexts = links 32 0;
  };
  device = 30;
}

abbrev pub manager : Manager counting
manager = record {
  db = record database { executors = executors };
  clients = (9, client) ∷ [];
  client_id = 4;
  links = (7, link) ∷ (9, link) ∷ [];
  sent = [];
  poll_send = [];
}

abbrev from_node : Wc
from_node = record { status = 0; wr_id = 0; qp_num = 7; imm_data = 0; byte_len = 36 }

abbrev pub from_client : Wc
from_client = record from_node { qp_num = 9 }

registration_handled_example :
    (m' : Manager counting) × (s : ℕ) × (handle_message counting from_node manager ≡ some m')
    × (get_executor 7 m'.db.executors ≡ some s)
    × (get_executor_by_name node_b m'.db.executors ≡ some s)
registration_handled_example =
    registration_handled counting from_node manager 1 7 registering (98 ∷ 0 ∷ []) node_b
      (record { names = two_nodes-IsValid.names; conns = two_nodes-IsValid.conns }) refl
      (unfold get_executor find in refl) (unfold deref in refl) refl (unfold c_string in refl) refl

request_answered_example :
    let (taken, answer, db) = open_lease (pos 2) (pos 10) (some 1) response manager.db in
    ((taken ≡ none)
      × (m' : Manager counting) × (handle_client_message counting (some 1) from_client manager
          ≡ some m')
      × (m'.sent ≡ [] ++ to_client 9 0 response ∷ []))
    ⊎ ((r : ℕ) × (taken ≡ some r)
        × ((e : Executor) (c : ℕ)
            → deref db.executors r ≡ some e
            → e.connection ≡ some c
            → (m' : Manager counting) × (handle_client_message counting (some 1) from_client manager
                ≡ some m')
              × (m'.sent
                  ≡ []
                    ++ to_executor c (record { memory = pos 10; cores = pos 2; lease_id = 5 })
                      ∷ to_client 9 1 answer
                      ∷ [])
              × (answer.lease_id ≡ 5)))
request_answered_example =
    request_answered counting (some 1) from_client manager client
      (record { cores = pos 2; memory = pos 10 }) refl (unfold find in refl) refl refl
