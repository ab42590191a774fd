-- ===== src/Tests/Allocation.antt =====
-- Two workers connect to a client, and a client leaves both managers.
use r_faa_s.Common.{ℕ, ◌<◌, ◌≤◌, ◌≡◌, ◌⊎◌, true, List, [], ◌∷◌, ◌++◌, map, nat_eq, length}
use r_faa_s.Common.Int.{pos}
use r_faa_s.Rdmalib.Listener.{ConnectionStatus, requested, established, disconnected}
use r_faa_s.Client.Allocation.{Loop, start, ended, waits, accept_loop}
use r_faa_s.Client.Allocation.Progress.{count_established, requests_of, numbers, allocation_ends}
use r_faa_s.Client.Connections.{ManagerConnection, ResourceManagerConnection}

-- An event that is ignored, and one behind the end of the loop.
abbrev events : List (ConnectionStatus × ℕ)
events =
    (requested, 70)
    ∷ (requested, 71)
    ∷ (established, 71)
    ∷ (disconnected, 5)
    ∷ (established, 70)
    ∷ (requested, 72)
    ∷ []

allocation_ends_example :
    ((2 ≤ count_established events)
      × (t : Loop) × (rest : List (ConnectionStatus × ℕ)) × (seen : List (ConnectionStatus × ℕ))
      × (accept_loop 2 events start ≡ ended rest t)
      × (events ≡ seen ++ rest)
      × (count_established seen ≡ 2)
      × (t.accepted ≡ requests_of seen)
      × (map (λ w. w.conn) t.connections ≡ requests_of seen)
      × (t.requests ≡ length (requests_of seen))
      × (t.posted ≡ numbers 0 (length (requests_of seen))))
    ⊎ ((count_established events < 2) × (t : Loop) × (accept_loop 2 events start ≡ waits t))
allocation_ends_example = allocation_ends 2 events

abbrev connected : ManagerConnection
connected = record {
  is_connected = true;
  request = record { lease_id = pos 5; cores = pos 2 };
  statuses = 0 ∷ [];
  sent = [];
}

abbrev connected_leases : ResourceManagerConnection
connected_leases = record {
  is_connected = true;
  request = record { cores = pos 2; memory = pos 10 };
  responses = [];
  sent = [];
}
