-- ===== src/Tests/ResourceManager.antt =====
-- Two executor nodes, one connected and registered and one only added, and leases on them.
use mathlib.Core.List.{Mem}
use r_faa_s.Common.{
  ◌≡◌, ◌⊎◌, refl, false, none, some, [], ◌∷◌, Bytes, find, nat_eq, bytes_eq, arith,
}
use r_faa_s.Common.Int.{pos, ◌+ℤ◌}
use r_faa_s.ResourceManager.Messages.{LeaseDeallocation}
use r_faa_s.ResourceManager.Executor.{Executor, Lease, lease, is_initialized}
use r_faa_s.ResourceManager.Executors.{Executors, deref, lock, is_alive, store}
use r_faa_s.ResourceManager.Executors.Laws.{IsValid}
use r_faa_s.ResourceManager.Db.{Db, LeaseResponse, search, missing, open_lease, close_lease}
use r_faa_s.ResourceManager.Db.FirstFit.{live, NoneSuits, Taken, search_first_fit}
use r_faa_s.ResourceManager.Db.Closing.{close-open_lease, close_lease_twice}

abbrev pub node_a : Bytes
node_a = 97 ∷ []

abbrev pub node_b : Bytes
node_b = 98 ∷ []

abbrev pub address : Bytes
address = 49 ∷ []

abbrev pub ready : Executor
ready = record {
  node = node_a;
  address = address;
  port = pos 80;
  cores = pos 4;
  memory = pos 100;
  connection = some 7;
  free_cores = pos 4;
  free_memory = pos 100;
  receive_buffer = [];
}

abbrev pub waiting : Executor
waiting = record ready { node = node_b; connection = none }

abbrev pub two_nodes : Executors
two_nodes = record {
  objects = waiting ∷ ready ∷ [];
  by_name = (node_b, 0) ∷ (node_a, 1) ∷ [];
  by_conn = (7, 1) ∷ [];
}

abbrev pub response : LeaseResponse
response = record { lease_id = 0; port = pos 0; address = [] }

-- A pointer to a dead object, then the two nodes.
abbrev pub database : Db
database = record {
  executors = two_nodes;
  leases = [];
  lease_count = 5;
  free_nodes = some 9 ∷ some 0 ∷ some 1 ∷ [];
}

abbrev deallocation : LeaseDeallocation
deallocation = record {
  lease_id = 5;
  allocation_time = 1;
  hot_polling_time = 2;
  execution_time = 3;
}

abbrev one_lease : Lease
one_lease = record { cores = pos 2; memory = pos 10; total = false; node = some 1 }

abbrev pub leased : Db
leased = record database { leases = (5, one_lease) ∷ [] }

pub two_nodes-IsValid : IsValid two_nodes
two_nodes-IsValid = record { names = (omega arith, (omega arith, tt)); conns = (omega arith, tt) }

search_first_fit_example :
    (NoneSuits two_nodes (pos 2) (pos 10) database.free_nodes
      × (search two_nodes (pos 2) (pos 10) database.free_nodes
          ≡ missing (live two_nodes (pos 2) (pos 10) database.free_nodes)))
    ⊎ Taken two_nodes
        (pos 2)
        (pos 10)
        database.free_nodes
        (search two_nodes (pos 2) (pos 10) database.free_nodes)
search_first_fit_example = search_first_fit two_nodes (pos 2) (pos 10) database.free_nodes

pub takes_second : (open_lease (pos 2) (pos 10) (some 1) response database).0 ≡ some 1
unfolding open_lease search lock is_alive deref is_initialized lease store
takes_second = refl

close-open_lease_example :
    let db' = close_lease deallocation (open_lease (pos 2) (pos 10) (some 1) response database).2 in
    (db'.executors ≡ two_nodes) × Mem (some 1) db'.free_nodes
close-open_lease_example =
    close-open_lease (pos 2) (pos 10) response database 1 deallocation takes_second
      (unfold find in refl)
      (unfold open_lease search lock is_alive deref is_initialized lease store in refl)

close_lease_twice_example :
    (e' : Executor) × (deref
        (close_lease deallocation (close_lease deallocation leased)).executors
        1
      ≡ some e')
    × (e'.free_cores ≡ pos 8)
    × (e'.free_memory ≡ pos 120)
unfolding ◌+ℤ◌
close_lease_twice_example =
    close_lease_twice deallocation leased one_lease 1 ready (unfold find in refl)
      (unfold lock is_alive in refl) (unfold deref in refl)
