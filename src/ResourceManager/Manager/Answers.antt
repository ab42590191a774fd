-- ===== src/ResourceManager/Manager/Answers.antt =====
-- How requests of clients are answered: server/resource_manager/manager.cpp,
-- `_handle_client_message`.
use r_faa_s.Common.{
  ℕ, ◌≡◌, refl, ap, ◌∙◌, ◌⊎◌, true, false, inl, inr, none, some, [], ◌∷◌, ◌++◌, nat_eq, find,
  assign, erase, arith, get_elem?, ◌>>=◌, Option-cases, find-erase_self,
}
use r_faa_s.Common.Int.{ℤ, pos, ltb_ℤ}
use r_faa_s.Rdmalib.Queue.{Wc, Verbs}
use r_faa_s.ResourceManager.Executor.{Executor, WeakPtr}
use r_faa_s.ResourceManager.Executors.{deref}
use r_faa_s.ResourceManager.Db.{Db, LeaseResponse, open_lease}
use r_faa_s.ResourceManager.Db.FirstFit.{search_first_fit}
use r_faa_s.ResourceManager.Db.Leasing.{open_lease-Opened}
use r_faa_s.ResourceManager.Manager.{
  Manager, Client, Request, to_client, to_executor, answer, consumed, handle_request,
  handle_client_message,
}

-- A search that fails leaves the response as it was.
open_lease-refused :
    (cores memory : ℤ) (dangling : WeakPtr) (response : LeaseResponse) (db : Db)
    → (open_lease cores memory dangling response db).0 ≡ none
    → (open_lease cores memory dangling response db).1 ≡ response
unfolding open_lease
open_lease-refused cores memory dangling response db h =
    elim (search_first_fit db.executors cores memory db.free_nodes) [
      | inl (unfit, e) ↦ rw (e, open_lease) refl
      | inr t ↦ absurd (ground (arith, t.result))
    ]

module _ (v : Verbs) where
  pub consumed-sent : (c : ℕ) (m : Manager v) → (consumed v c m).sent ≡ m.sent
  unfolding consumed
  consumed-sent c m = elim (Option-cases (find c m.links)) [
    | inl e ↦ rw (e, consumed) refl
    | inr (l, e) ↦ rw (e, consumed) refl
  ]

  pub handled :
      (dangling : WeakPtr) (wc : Wc) (m : Manager v) (client : Client) (rq : Request)
      → wc.status ≡ 0
      → find wc.qp_num m.clients ≡ some client
      → get_elem? client.allocation_requests wc.wr_id ≡ some rq
      → ltb_ℤ (pos 0) rq.cores ≡ true
      → handle_client_message v dangling wc m ≡ (
          answer v wc.qp_num client rq
            (open_lease rq.cores rq.memory dangling client.response m.db)
            m
          >>= λ m'. some (consumed v wc.qp_num m'))
  unfolding handle_client_message handle_request
  handled dangling wc m client rq good known slot positive =
      rw (good, known, slot, positive, handle_client_message) refl

  -- A request for cores from a known client, in a slot of its buffer, is answered once. If no free node
  -- suits, what is sent, with the immediate value 0, is the response that the client's record already
  -- held, from its last lease if it had one. Otherwise, as the node that was taken has a connection, the
  -- node gets the lease before the client gets the response, which has the value 1, and both have the
  -- same identifier, the count of leases so far.
  pub request_answered :
      (dangling : WeakPtr) (wc : Wc) (m : Manager v) (client : Client) (rq : Request)
      → wc.status ≡ 0
      → find wc.qp_num m.clients ≡ some client
      → get_elem? client.allocation_requests wc.wr_id ≡ some rq
      → ltb_ℤ (pos 0) rq.cores ≡ true
      → let (taken, response, db) = open_lease rq.cores rq.memory dangling client.response m.db in
        ((taken ≡ none)
          × (m' : Manager v) × (handle_client_message v dangling wc m ≡ some m')
          × (m'.sent ≡ m.sent ++ to_client wc.qp_num 0 client.response ∷ []))
        ⊎ ((r : ℕ) × (taken ≡ some r)
            × ((e : Executor) (c : ℕ)
                → deref db.executors r ≡ some e
                → e.connection ≡ some c
                → (m' : Manager v) × (handle_client_message v dangling wc m ≡ some m')
                  × (m'.sent
                      ≡ m.sent
                        ++ to_executor c (record {
                          memory = rq.memory;
                          cores = rq.cores;
                          lease_id = m.db.lease_count;
                        })
                          ∷ to_client wc.qp_num 1 response
                          ∷ [])
                  × (response.lease_id ≡ m.db.lease_count)))
  unfolding answer
  request_answered dangling wc m client rq good known slot positive =
      let (taken, response, db) = open_lease rq.cores rq.memory dangling client.response m.db in
      elim (Option-cases taken) [
        | inl e ↦
            let m' : Manager v = record m {
              db = db;
              clients = assign wc.qp_num (record client { response = response }) m.clients;
              sent = m.sent ++ to_client wc.qp_num 0 response ∷ [];
              poll_send = m.poll_send ++ wc.qp_num ∷ [];
            } in
            inl (
              e,
              consumed v wc.qp_num m',
              handled dangling wc m client rq good known slot positive ∙ rw (e, answer) refl,
              consumed-sent wc.qp_num m'
                  ∙ ap (λ x. m.sent ++ to_client wc.qp_num 0 x ∷ [])
                      (open_lease-refused rq.cores rq.memory dangling client.response m.db e),
            )
        | inr (r, e) ↦
            let id = (open_lease-Opened rq.cores rq.memory dangling client.response m.db r e).1 in
            inr (
              r,
              e,
              λ exec c here conn.
                  let m' : Manager v = record m {
                    db = db;
                    clients = assign wc.qp_num (record client { response = response }) m.clients;
                    sent =
                        m.sent
                        ++ to_executor c (record {
                          memory = rq.memory;
                          cores = rq.cores;
                          lease_id = response.lease_id;
                        })
                          ∷ to_client wc.qp_num 1 response
                          ∷ [];
                    poll_send = m.poll_send ++ wc.qp_num ∷ [];
                  } in
                  (
                    consumed v wc.qp_num m',
                    handled dangling wc m client rq good known slot positive
                        ∙ rw (e, here, conn, answer) refl,
                    consumed-sent wc.qp_num m'
                        ∙ ap
                            (λ x.
                              m.sent
                              ++ to_executor c
                                  (record { memory = rq.memory; cores = rq.cores; lease_id = x })
                                ∷ to_client wc.qp_num 1 response
                                ∷ [])
                            id,
                    id,
                  ),
            )
      ]

  -- A request for no positive number of cores forgets the client, but its sends that
  -- are yet to be polled stay noted.
  pub request_forgets :
      (dangling : WeakPtr) (wc : Wc) (m : Manager v) (client : Client) (rq : Request)
      → wc.status ≡ 0
      → find wc.qp_num m.clients ≡ some client
      → get_elem? client.allocation_requests wc.wr_id ≡ some rq
      → ltb_ℤ (pos 0) rq.cores ≡ false
      → (m' : Manager v) × (handle_client_message v dangling wc m ≡ some m')
        × (find wc.qp_num m'.clients ≡ none)
        × (find wc.qp_num m'.links ≡ none)
        × (m'.db ≡ m.db)
        × (m'.sent ≡ m.sent)
        × (m'.poll_send ≡ m.poll_send)
  unfolding handle_client_message handle_request
  request_forgets dangling wc m client rq good known slot others =
      let m' = record m { clients = erase wc.qp_num m.clients; links = erase wc.qp_num m.links } in
      (
        m',
        rw (good, known, slot, others, handle_client_message) refl,
        find-erase_self wc.qp_num m.clients,
        find-erase_self wc.qp_num m.links,
        refl,
        refl,
        refl,
      )
