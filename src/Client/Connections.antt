-- ===== src/Client/Connections.antt =====
-- rfaas/lib/connection.cpp: the connections of a client to an executor manager and to the resource
-- manager. The buffers are the message that is sent and the slots that answers arrive in.
pub mod Leaving
use r_faa_s.Common.{
  ℕ, Bool, true, false, Option, none, some, List, [], ◌∷◌, ◌++◌, get_elem?, ◌==◌, ◌>>=◌,
  if◌then◌else◌,
}
use r_faa_s.Common.Int.{ℤ, pos, negsuc}
use r_faa_s.Rdmalib.Queue.{Wc}
use r_faa_s.ExecutorManager.Client.{AllocationRequest}
use r_faa_s.ResourceManager.Manager.{Request}
use r_faa_s.ResourceManager.Db.{LeaseResponse}

-- `manager_connection`; `statuses` are the slots of `LeaseStatus`.
pub record ManagerConnection : Type 0 where
  pub is_connected : Bool
  pub request : AllocationRequest
  pub statuses : List ℕ
  pub sent : List AllocationRequest

-- `connect`, given the success of the connection.
unfoldable pub connect : Bool → ManagerConnection → Bool × ManagerConnection
connect success c = if success then (true, record c { is_connected = true }) else (false, c)

-- `poll_response` on the completions of a blocking poll: the first one counts. The null pointer is
-- `some none`, and `none` a read outside of what is there.
unfoldable pub poll_response : List Wc → ManagerConnection → Option (Option ℕ)
poll_response [] c = none
poll_response (wc ∷ wcs) c =
    if wc.status == 0
    then (do status ← get_elem? c.statuses wc.wr_id; some (some status))
    else some none

-- `submit`: the lease is allocated if the status says so.
unfoldable pub submit : List Wc → ManagerConnection → Option (Bool × ManagerConnection)
unfolding poll_response
submit wcs c =
    let c' : ManagerConnection = record c { sent = c.sent ++ c.request ∷ [] } in
    do
      response ← poll_response wcs c'
      some (elim response [ none ↦ (false, c') | some status ↦ (status == 0, c') ])

-- The request that ends a connection.
abbrev pub end_request : AllocationRequest
end_request = record { lease_id = negsuc 0; cores = pos 0 }

-- `disconnect`
unfoldable pub disconnect : ManagerConnection → ManagerConnection
disconnect c =
    if c.is_connected
    then record c { is_connected = false; request = end_request; sent = c.sent ++ end_request ∷ [] }
    else c

-- `resource_mgr_connection`
pub record ResourceManagerConnection : Type 0 where
  pub is_connected : Bool
  pub request : Request
  pub responses : List LeaseResponse
  pub sent : List Request

-- `submit`, which does not wait for an answer.
unfoldable pub submit_lease : ResourceManagerConnection → Bool × ResourceManagerConnection
submit_lease c = (true, record c { sent = c.sent ++ c.request ∷ [] })

abbrev pub end_lease_request : Request
end_lease_request = record { cores = negsuc 0; memory = pos 0 }

unfoldable pub disconnect_leases : ResourceManagerConnection → ResourceManagerConnection
disconnect_leases c =
    if c.is_connected
    then record c {
      is_connected = false;
      request = end_lease_request;
      sent = c.sent ++ end_lease_request ∷ [];
    }
    else c
