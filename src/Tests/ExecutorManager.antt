-- ===== src/Tests/ExecutorManager.antt =====
-- An executor manager with two clients that have processes.
use r_faa_s.Common.{◌≤◌, ◌<◌, ◌≡◌, ◌⊎◌, refl, true, none, some, [], ◌∷◌, ◌++◌, find, nat_eq}
use r_faa_s.Common.Int.{ℤ, pos}
use r_faa_s.Rdmalib.Queue.{Wc, Link, create}
use r_faa_s.ExecutorManager.Leases.{Lease}
use r_faa_s.ExecutorManager.Client.{ActiveExecutor, Client}
use r_faa_s.ExecutorManager.Manager.{Manager}
use r_faa_s.ExecutorManager.Manager.Requests.{Served, request-Served}
use r_faa_s.ExecutorManager.Manager.Executors.{connect_all, workers_fit}
use r_faa_s.Tests.Rdmalib.{counting}

abbrev process : ActiveExecutor
process = record { pid = pos 100; cores = pos 2; connections = []; allocation_finished = 50 }

abbrev pub client : Client
client = record {
  connection = some 7;
  allocation_requests = record { lease_id = pos 5; cores = pos 2 } ∷ [];
  executor = some process;
  accounting = record { hot_polling_time = 11; execution_time = 12 };
  allocation_time = 1000;
  active = true;
  id = pos 7;
}

abbrev other : Client
other = record client { executor = some (record process { pid = pos 101 }) }

abbrev link : Link counting
link = record { queue = create 32; device = 0 }

abbrev pub manager : Manager counting
manager = record {
  clients = (7, client) ∷ (8, other) ∷ [];
  leases = (5, record { id = 5; cores = pos 4; memory = pos 512 }) ∷ [];
  effects = [];
  has_resource_manager = true;
  links = [];
  resource_manager_link = link;
}

abbrev request : Wc
request = record { status = 0; wr_id = 0; qp_num = 7; imm_data = 0; byte_len = 40 }

request-Served_example :
    (cores : ℤ) × Served counting (pos 300) 60 request manager client cores
    × (((l : Lease) × (find 5 manager.leases ≡ some l) × (cores ≡ l.cores))
        ⊎ ((find 5 manager.leases ≡ none) × (cores ≡ pos 2)))
request-Served_example =
    request-Served counting (pos 300) 60 request manager client
      (record { lease_id = pos 5; cores = pos 2 }) (unfold find in refl) refl refl refl

workers_fit_example :
    (2 ≤ 2
      → (m' : Manager counting) × (connect_all counting (20 ∷ 21 ∷ []) 7 manager ≡ some m')
        × (client' : Client) × (find 7 m'.clients ≡ some client')
        × (client'.executor ≡ some (record process { connections = [] ++ 20 ∷ 21 ∷ [] })))
    × (2 < 2 → 0 ≤ 2 → connect_all counting (20 ∷ 21 ∷ []) 7 manager ≡ none)
workers_fit_example =
    workers_fit counting (20 ∷ 21 ∷ []) 7 2 client process manager (unfold find in refl) refl refl
