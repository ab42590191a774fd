-- ===== src/ExecutorManager/System/Leaving.antt =====
-- The last message of a client whose connection has ended, in the thread that polls:
-- server/executor_manager/manager.cpp, `poll_rdma`.
use r_faa_s.Common.{
  ℕ, ◌≡◌, refl, ap, ◌∙◌, true, Option, none, some, List, [], ◌∷◌, ◌++◌, nat_eq, find, erase,
  get_elem?, ◌>>=◌, find-erase_self,
}
use r_faa_s.Common.Int.{ℤ, pos, ltb_ℤ}
use r_faa_s.Rdmalib.Queue.{Wc, Verbs}
use r_faa_s.Rdmalib.Listener.{ConnectionManager}
use r_faa_s.ExecutorManager.Client.{Waited, AllocationRequest, Client, disable}
use r_faa_s.ExecutorManager.Manager.{
  Manager, process_client, handle_client_message, handle_disconnections, check_executors,
}
use r_faa_s.ExecutorManager.System.{
  System, Entry, disconnect, take_entry, take_entries, Arrived, handle_messages, poll_round,
}

module _ (v : Verbs) where
  -- The last message of a client that is there.
  last_message :
      (pid : ℤ) (now : ℕ) (wc : Wc) (client : Client) (rq : AllocationRequest) (m : Manager v)
      → find wc.qp_num m.clients ≡ some client
      → wc.status ≡ 0
      → get_elem? client.allocation_requests wc.wr_id ≡ some rq
      → ltb_ℤ rq.lease_id (pos 0) ≡ true
      → (m' : Manager v) × (handle_client_message v pid now wc m ≡ some m')
        × (m'.effects ≡ m.effects ++ (disable now m.has_resource_manager client).1)
  unfolding handle_client_message process_client
  last_message pid now wc client rq m there good read last = (
    record m {
      clients = erase wc.qp_num m.clients;
      links = erase wc.qp_num m.links;
      effects = m.effects ++ (disable now m.has_resource_manager client).1;
    },
    rw (there, good, read, last, handle_client_message) refl,
    refl,
  )

  -- A message of a client that is not there.
  no_client :
      (pid : ℤ) (now : ℕ) (wc : Wc) (m : Manager v)
      → find wc.qp_num m.clients ≡ none
      → handle_client_message v pid now wc m ≡ some m
  unfolding handle_client_message
  no_client pid now wc m absent = rw (absent, handle_client_message) refl

module _ (indeterminate : ℤ) (v : Verbs) (cm : ConnectionManager) (fresh : v.Device)
    (recv_buf : ℕ) where
  abbrev E : Type 0
  E = Entry indeterminate v cm fresh recv_buf

  -- A client sends its last message, which ends its lease, and disconnects before the manager's thread,
  -- in the polling mode, looks. The message, taken now, would end the client's process and close its
  -- lease, as `disable` does it. But the round removes the client first and does nothing on the message:
  -- what is left is to look after the processes of the other clients.
  pub last_message_order :
      (s : System indeterminate v cm fresh recv_buf) (client : Client) (rq : AllocationRequest)
      (a : Arrived indeterminate v cm fresh recv_buf) (waited : ℤ → Waited) (now : ℕ)
      → s.client_queue ≡ disconnect a.wc.qp_num ∷ []
      → find a.wc.qp_num s.manager.clients ≡ some client
      → a.wc.status ≡ 0
      → get_elem? client.allocation_requests a.wc.wr_id ≡ some rq
      → ltb_ℤ rq.lease_id (pos 0) ≡ true
      → ((m' : Manager v) × (handle_client_message v a.pid a.now a.wc s.manager ≡ some m')
          × (m'.effects
              ≡ s.manager.effects ++ (disable a.now s.manager.has_resource_manager client).1))
        × (find a.wc.qp_num (handle_disconnections v a.wc.qp_num s.manager).clients ≡ none)
        × ((handle_disconnections v a.wc.qp_num s.manager).effects ≡ s.manager.effects)
        × (poll_round indeterminate v cm fresh recv_buf (a ∷ []) waited now s ≡ (
            check_executors v waited now (handle_disconnections v a.wc.qp_num s.manager) >>= λ m.
            some (record s { client_queue = []; manager = m })))
  unfolding handle_messages poll_round take_entries take_entry handle_disconnections
  last_message_order s client rq a waited now queued there good read last =
      let qp = a.wc.qp_num in
      let left = handle_disconnections v qp s.manager in
      let dropped = no_client v a.pid a.now a.wc left (find-erase_self qp s.manager.clients) in
      (
        last_message v a.pid a.now a.wc client rq s.manager there good read last,
        find-erase_self qp s.manager.clients,
        refl,
        ap
              (λ (es : List E).
                take_entries indeterminate v cm fresh recv_buf es (record s { client_queue = [] })
                >>= λ s1.
                    handle_messages indeterminate v cm fresh recv_buf (a ∷ []) s1.manager >>= λ m.
                    check_executors v waited now m >>= λ m'. some (record s1 { manager = m' }))
              queued
            ∙ ap
                (λ (o : Option (Manager v)). (o >>= λ m'. some m') >>= λ m.
                  check_executors v waited now m >>= λ m'.
                  some (record s { manager = m'; client_queue = [] }))
                dropped,
      )
