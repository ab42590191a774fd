-- ===== src/Client/Lease/Granting.antt =====
-- A lease from the client over the resource manager and back: rfaas/include/rfaas/client.hpp against
-- server/resource_manager/manager.cpp and server/resource_manager/db.cpp.
use r_faa_s.Common.{
  ℕ, ◌<◌, ◌≡◌, refl, sym, ap, ◌∙◌, subst, true, inl, inr, none, some, List, [], ◌∷◌, ◌++◌, Bytes,
  nat_eq, find, arith, length, get_elem?, ◌>>=◌, if◌then◌else◌, some_inj,
}
use r_faa_s.Common.Int.{ℤ, pos, ltb_ℤ, to_int32, to_int32_small}
use r_faa_s.Rdmalib.Queue.{Wc, Verbs}
use r_faa_s.ResourceManager.Messages.{c_string, IsPlain, c_string-strncpy}
use r_faa_s.ResourceManager.Executor.{Executor, WeakPtr}
use r_faa_s.ResourceManager.Executors.{deref}
use r_faa_s.ResourceManager.Db.{LeaseResponse, open_lease}
use r_faa_s.ResourceManager.Db.Granted.{open_lease-response}
use r_faa_s.ResourceManager.Manager.{
  Manager, Client, Request, to_client, to_executor, handle_client_message,
}
use r_faa_s.ResourceManager.Manager.Answers.{request_answered}
use r_faa_s.Client.Invocation.{NetworkOrder}
use r_faa_s.Client.Connections.{ResourceManagerConnection, submit_lease}
use r_faa_s.Client.Lease.{Leased, read_response, lease}

module _ (n : NetworkOrder) where
  open n use {htonl, ntohl, ntohl-htonl}

  request_sent : ℤ → ℤ → ResourceManagerConnection → ResourceManagerConnection
  unfolding submit_lease
  request_sent cores memory c =
      (submit_lease (record c { request = record { cores = cores; memory = memory } })).1

  leased_as : ℤ → ℤ → LeaseResponse → Bytes → Leased
  leased_as cores memory response address = record {
    address = address;
    port = response.port;
    numcores = cores;
    memory = memory;
    lease_id = to_int32 (pos response.lease_id);
  }

  -- A response with the value 1 is read from its slot.
  read-granted :
      (cores memory : ℤ) (wc : Wc) (wcs : List Wc) (c : ResourceManagerConnection)
      (response : LeaseResponse) (address : Bytes)
      → wc.imm_data ≡ htonl 1
      → get_elem? c.responses wc.wr_id ≡ some response
      → c_string response.address ≡ some address
      → read_response n cores memory (wc ∷ wcs) c
        ≡ some (some (leased_as cores memory response address))
  unfolding read_response leased_as
  read-granted cores memory wc wcs c response address granted slot plain =
      let one : ntohl wc.imm_data ≡ 1 = ap ntohl granted ∙ ntohl-htonl 1 (omega arith) in
      rw (one, slot, plain, read_response) refl

  connected-lease :
      (cores memory : ℤ) (wc : Wc) (wcs : List Wc) (c : ResourceManagerConnection)
      → c.is_connected ≡ true
      → lease n cores memory (wc ∷ wcs) c ≡ (
          read_response n cores memory (wc ∷ wcs) (request_sent cores memory c) >>= λ leased.
          some (leased, request_sent cores memory c))
  unfolding lease request_sent submit_lease
  connected-lease cores memory wc wcs c up =
      let c' = request_sent cores memory c in
      ap
        (λ b.
          if b
          then (read_response n cores memory (wc ∷ wcs) c' >>= λ leased. some (leased, c'))
          else some (none, c))
        up

  lease-granted :
      (cores memory : ℤ) (wc : Wc) (wcs : List Wc) (c : ResourceManagerConnection)
      (response : LeaseResponse) (address : Bytes)
      → c.is_connected ≡ true
      → wc.imm_data ≡ htonl 1
      → get_elem? c.responses wc.wr_id ≡ some response
      → c_string response.address ≡ some address
      → lease n cores memory (wc ∷ wcs) c
        ≡ some (some (leased_as cores memory response address), request_sent cores memory c)
  unfolding request_sent submit_lease
  lease-granted cores memory wc wcs c response address up granted slot plain =
      connected-lease cores memory wc wcs c up
      ∙ ap (λ o. o >>= λ leased. some (leased, request_sent cores memory c))
          (read-granted cores memory wc wcs (request_sent cores memory c) response address granted
            slot plain)

  lease-refused :
      (cores memory : ℤ) (wc : Wc) (wcs : List Wc) (c : ResourceManagerConnection)
      → c.is_connected ≡ true
      → wc.imm_data ≡ htonl 0
      → lease n cores memory (wc ∷ wcs) c ≡ some (none, request_sent cores memory c)
  unfolding read_response
  lease-refused cores memory wc wcs c up refused =
      let nothing : ntohl wc.imm_data ≡ 0 = ap ntohl refused ∙ ntohl-htonl 0 (omega arith) in
      let read : read_response n cores memory (wc ∷ wcs) (request_sent cores memory c) ≡ some none =
        rw nothing refl in
      connected-lease cores memory wc wcs c up
      ∙ ap (λ o. o >>= λ leased. some (leased, request_sent cores memory c)) read

module _ (v : Verbs) (n : NetworkOrder) where
  open n use {htonl}

  -- A request for cores of a client that the manager knows takes a node that has a connection and whose
  -- address fits its field. Then the manager sends the lease to the node and the response, with the
  -- value 1, to the client; and where the client polls that response, `lease` gives an executor with the
  -- address and the port of the node, the cores and the memory that were asked for, and the
  -- identifier of the lease that the node was told, where fewer than 2 ^ 31 leases were counted. The
  -- client has sent this one request.
  pub lease_granted :
      (cores memory : ℤ) (dangling : WeakPtr) (wc : Wc) (m : Manager v) (client : Client) (r k : ℕ)
      (e : Executor) (c : ResourceManagerConnection) (polled : Wc) (more : List Wc)
      → wc.status ≡ 0
      → find wc.qp_num m.clients ≡ some client
      → get_elem? client.allocation_requests wc.wr_id
        ≡ some (record { cores = cores; memory = memory })
      → ltb_ℤ (pos 0) cores ≡ true
      → (open_lease cores memory dangling client.response m.db).0 ≡ some r
      → deref (open_lease cores memory dangling client.response m.db).2.executors r ≡ some e
      → e.connection ≡ some k
      → IsPlain e.address
      → length e.address < 16
      → m.db.lease_count < 0x8000_0000
      → c.is_connected ≡ true
      → polled.imm_data ≡ htonl 1
      → get_elem? c.responses polled.wr_id
        ≡ some (open_lease cores memory dangling client.response m.db).1
      → let response = (open_lease cores memory dangling client.response m.db).1 in
        (m' : Manager v) × (c' : ResourceManagerConnection) × (handle_client_message v dangling wc m
          ≡ some m')
        × (m'.sent
            ≡ m.sent
              ++ to_executor k
                  (record { memory = memory; cores = cores; lease_id = m.db.lease_count })
                ∷ to_client wc.qp_num 1 response
                ∷ [])
        × (lease n cores memory (polled ∷ more) c
            ≡ some (
              some (record {
                address = e.address;
                port = e.port;
                numcores = cores;
                memory = memory;
                lease_id = pos m.db.lease_count;
              }),
              c',
            ))
        × (c'.sent ≡ c.sent ++ record { cores = cores; memory = memory } ∷ [])
  unfolding leased_as request_sent submit_lease
  lease_granted cores memory dangling wc m client r k e c polled more good known slot positive taken
        here connected plain fits few up granted read =
      let rq : Request = record { cores = cores; memory = memory } in
      let named = open_lease-response cores memory dangling client.response m.db r e taken here in
      let address = ap (λ x. c_string x.address) named ∙ c_string-strncpy 16 e.address plain fits in
      let c' = request_sent n cores memory c in
      elim (request_answered v dangling wc m client rq good known slot positive) [
        | inl (none_of, _, _, _) ↦ absurd (cc (none_of, taken))
        | inr (r', taken', rest) ↦
            let same : r ≡ r' = some_inj (sym taken ∙ taken') in
            let (m', run, sent, id) =
              rest e k
                (subst
                  (λ q.
                    deref (open_lease cores memory dangling client.response m.db).2.executors q
                    ≡ some e)
                  same here)
                connected in
            (
              m',
              c',
              run,
              sent,
              lease-granted n cores memory polled more c _ e.address up granted read address
                  ∙ ap (λ x. some (some (leased_as n cores memory x e.address), c')) named
                  ∙ ap
                      (λ id. some (
                        some (record {
                          address = e.address;
                          port = e.port;
                          numcores = cores;
                          memory = memory;
                          lease_id = id;
                        }),
                        c',
                      ))
                      (to_int32_small m.db.lease_count few),
              refl,
            )
      ]

  -- Where no free node suits, the manager answers with the value 0 and with the response that it last
  -- sent to the client; the client that polls it gets no executor, whatever that response is and
  -- wherever it lies.
  pub lease_refused :
      (cores memory : ℤ) (dangling : WeakPtr) (wc : Wc) (m : Manager v) (client : Client)
      (c : ResourceManagerConnection) (polled : Wc) (more : List Wc)
      → wc.status ≡ 0
      → find wc.qp_num m.clients ≡ some client
      → get_elem? client.allocation_requests wc.wr_id
        ≡ some (record { cores = cores; memory = memory })
      → ltb_ℤ (pos 0) cores ≡ true
      → (open_lease cores memory dangling client.response m.db).0 ≡ none
      → c.is_connected ≡ true
      → polled.imm_data ≡ htonl 0
      → (m' : Manager v) × (c' : ResourceManagerConnection) × (handle_client_message v dangling wc m
          ≡ some m')
        × (m'.sent ≡ m.sent ++ to_client wc.qp_num 0 client.response ∷ [])
        × (lease n cores memory (polled ∷ more) c ≡ some (none, c'))
        × (c'.sent ≡ c.sent ++ record { cores = cores; memory = memory } ∷ [])
  unfolding request_sent submit_lease
  lease_refused cores memory dangling wc m client c polled more good known slot positive refused up
        zero_of =
      let rq : Request = record { cores = cores; memory = memory } in
      elim (request_answered v dangling wc m client rq good known slot positive) [
        | inl (_, m', run, sent) ↦ (
          m',
          request_sent n cores memory c,
          run,
          sent,
          lease-refused n cores memory polled more c up zero_of,
          refl,
        )
        | inr (r, taken, _) ↦ absurd (cc (refused, taken))
      ]
