-- ===== src/Client/Connections/Leaving.antt =====
-- How the managers take the message with which a client leaves: rfaas/lib/connection.cpp against
-- server/executor_manager/manager.cpp and server/resource_manager/manager.cpp.
use r_faa_s.Common.{
  ℕ, ◌≡◌, refl, true, none, some, [], ◌∷◌, ◌++◌, nat_eq, find, erase, find-erase_self,
}
use r_faa_s.Rdmalib.Queue.{Verbs}
use r_faa_s.ResourceManager.Executor.{WeakPtr}
use r_faa_s.Common.Int.{ℤ}
use r_faa_s.ExecutorManager.Client.{Client as Tenant, disable}
use r_faa_s.ExecutorManager.Manager.{Manager as NodeManager, process_client}
use r_faa_s.ResourceManager.Manager.{Manager, Client, handle_request}
use r_faa_s.Client.Connections.{
  ManagerConnection, ResourceManagerConnection, end_request, end_lease_request, disconnect,
  disconnect_leases,
}

module _ (v : Verbs) where
  -- A client that is connected leaves with one last message to each manager. The executor manager,
  -- whatever process the client has, removes the client with its connection, and changes no lease; the
  -- resource manager forgets the client with its connection, and changes nothing of its leases.
  pub leaving_understood :
      (c : ManagerConnection) (c' : ResourceManagerConnection) (pid : ℤ) (now qp : ℕ)
      (tenant : Tenant) (node : NodeManager v) (dangling : WeakPtr) (client : Client)
      (m : Manager v)
      → c.is_connected ≡ true
      → c'.is_connected ≡ true
      → ((disconnect c).sent ≡ c.sent ++ end_request ∷ [])
        × ((disconnect_leases c').sent ≡ c'.sent ++ end_lease_request ∷ [])
        × ((node' : NodeManager v) × (process_client v pid now qp tenant end_request node
              ≡ some node')
            × (find qp node'.clients ≡ none)
            × (find qp node'.links ≡ none)
            × (node'.leases ≡ node.leases))
        × ((m' : Manager v) × (handle_request v dangling qp client end_lease_request m ≡ some m')
            × (find qp m'.clients ≡ none)
            × (find qp m'.links ≡ none)
            × (m'.db ≡ m.db))
  unfolding disconnect disconnect_leases process_client handle_request
  leaving_understood c c' pid now qp tenant node dangling client m up up' = (
    rw up refl,
    rw up' refl,
    (
      record node {
        clients = erase qp node.clients;
        links = erase qp node.links;
        effects = node.effects ++ (disable now node.has_resource_manager tenant).1;
      },
      refl,
      find-erase_self qp node.clients,
      find-erase_self qp node.links,
      refl,
    ),
    (
      record m { clients = erase qp m.clients; links = erase qp m.links },
      refl,
      find-erase_self qp m.clients,
      find-erase_self qp m.links,
      refl,
    ),
  )
