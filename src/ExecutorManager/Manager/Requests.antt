-- ===== src/ExecutorManager/Manager/Requests.antt =====
-- What a client's request for a lease leads to: server/executor_manager/manager.cpp, `_process_client`.
use r_faa_s.Common.{
  ℕ, ◌≡◌, refl, ap, ◌∙◌, ◌⊎◌, true, false, inl, inr, Option, none, some, [], ◌∷◌, ◌++◌, nat_eq,
  find, get_elem?, Option-cases, Bool-cases, find-assign_self, ◌>>=◌,
}
use r_faa_s.Common.Int.{ℤ, pos, ltb_ℤ, pattern_of}
use r_faa_s.Rdmalib.Queue.{Wc, Verbs}
use r_faa_s.ExecutorManager.Leases.{Lease, insert, get_threadsafe, get_threadsafe-insert}
use r_faa_s.ExecutorManager.Client.{
  AllocationRequest, ActiveExecutor, Client, status_sent, given_up,
}
use r_faa_s.ExecutorManager.Manager.{
  Manager, allocated, started, consumed, allocate, process_client, handle_client_message,
}

module _ (v : Verbs) where
  consumed-rest :
      (c : ℕ) (m : Manager v)
      → ((consumed v c m).clients ≡ m.clients) × ((consumed v c m).effects ≡ m.effects)
  unfolding consumed
  consumed-rest c m = elim (Option-cases (find c m.links)) [
    | inl e ↦ rw (e, consumed) (refl, refl)
    | inr (l, e) ↦ rw (e, consumed) (refl, refl)
  ]

  -- The process of a client, as it is started.
  abbrev pub process : ℤ → ℕ → ℤ → ActiveExecutor
  process pid now cores = record {
    pid = pid;
    cores = cores;
    connections = [];
    allocation_finished = now;
  }

  -- What an allocation with a lease does.
  allocate-lease :
      (pid : ℤ) (now qp_num : ℕ) (client : Client) (rq : AllocationRequest) (m : Manager v)
      (l : Lease)
      → get_threadsafe (pattern_of 0x8000_0000 rq.lease_id) (
          insert
            (record { id = pattern_of 0x8000_0000 rq.lease_id; cores = rq.cores; memory = pos 512 })
            m.leases)
        ≡ some l
      → (ltb_ℤ l.cores (pos 0) ≡ true → allocate v pid now qp_num client rq m ≡ none)
        × (ltb_ℤ l.cores (pos 0) ≡ false
            → (m' : Manager v) × (allocate v pid now qp_num client rq m ≡ some m')
              × (find qp_num m'.clients
                  ≡ some (record client { executor = some (process pid now l.cores) }))
              × (m'.effects
                  ≡ m.effects
                    ++ (started pid l.cores
                        ++ given_up client.executor
                        ++ status_sent qp_num allocated ∷ [])))
  unfolding allocate
  allocate-lease pid now qp_num client rq m l e =
      rw (e, allocate)
        (
          λ negative. rw negative refl,
          λ enough. rw enough (_, refl, find-assign_self qp_num _ m.clients, refl),
        )

  -- A message that names a lease is an allocation.
  named-allocate :
      (pid : ℤ) (now : ℕ) (wc : Wc) (m : Manager v) (client : Client) (rq : AllocationRequest)
      → find wc.qp_num m.clients ≡ some client
      → wc.status ≡ 0
      → get_elem? client.allocation_requests wc.wr_id ≡ some rq
      → ltb_ℤ rq.lease_id (pos 0) ≡ false
      → handle_client_message v pid now wc m
        ≡ (allocate v pid now wc.qp_num client rq m >>= λ m'. some (consumed v wc.qp_num m'))
  unfolding handle_client_message process_client
  named-allocate pid now wc m client rq known good slot named =
      rw (known, good, slot, named, handle_client_message) refl

  -- What a message that names a lease leads to, given the number of cores.
  abbrev pub Served : ℤ → ℕ → Wc → Manager v → Client → ℤ → Type 0
  Served pid now wc m client cores =
      ((ltb_ℤ cores (pos 0) ≡ true) × (handle_client_message v pid now wc m ≡ none))
      ⊎ ((ltb_ℤ cores (pos 0) ≡ false)
          × (m' : Manager v) × (handle_client_message v pid now wc m ≡ some m')
          × (find wc.qp_num m'.clients
              ≡ some (record client { executor = some (process pid now cores) }))
          × (m'.effects
              ≡ m.effects
                ++ (started pid cores
                    ++ given_up client.executor
                    ++ status_sent wc.qp_num allocated ∷ [])))

  lease-Served :
      (pid : ℤ) (now : ℕ) (wc : Wc) (m : Manager v) (client : Client) (rq : AllocationRequest)
      (l : Lease)
      → handle_client_message v pid now wc m
        ≡ (allocate v pid now wc.qp_num client rq m >>= λ m'. some (consumed v wc.qp_num m'))
      → get_threadsafe (pattern_of 0x8000_0000 rq.lease_id) (
          insert
            (record { id = pattern_of 0x8000_0000 rq.lease_id; cores = rq.cores; memory = pos 512 })
            m.leases)
        ≡ some l
      → Served pid now wc m client l.cores
  lease-Served pid now wc m client rq l run e =
      let done = allocate-lease pid now wc.qp_num client rq m l e in
      let finish = λ (o : Option (Manager v)). o >>= λ m'. some (consumed v wc.qp_num m') in
      elim (Bool-cases (ltb_ℤ l.cores (pos 0))) [
        | inl negative ↦ inl (negative, run ∙ ap finish (done.0 negative))
        | inr enough ↦
            let (m', here, found, effects) = done.1 enough in
            let same = consumed-rest wc.qp_num m' in
            inr (
              enough,
              consumed v wc.qp_num m',
              run ∙ ap finish here,
              ap (find wc.qp_num) same.0 ∙ found,
              same.1 ∙ effects,
            )
      ]

  -- A request with an identifier that is not negative is never answered with an unknown lease: its
  -- process gets the cores of the lease if the resource manager has announced it, and else as many as
  -- the client asks for. A negative number of cores ends the manager with an exception. Otherwise the
  -- client has the process, and the effects are its start, unless `fork` failed, the deletion of the
  -- connections of the executor that the client had, whose process is not ended, and the answer, which
  -- says that the lease is allocated even where `fork` failed.
  pub request-Served :
      (pid : ℤ) (now : ℕ) (wc : Wc) (m : Manager v) (client : Client) (rq : AllocationRequest)
      → find wc.qp_num m.clients ≡ some client
      → wc.status ≡ 0
      → get_elem? client.allocation_requests wc.wr_id ≡ some rq
      → ltb_ℤ rq.lease_id (pos 0) ≡ false
      → (cores : ℤ) × Served pid now wc m client cores
        × (((l : Lease) × (find (pattern_of 0x8000_0000 rq.lease_id) m.leases ≡ some l)
              × (cores ≡ l.cores))
            ⊎ ((find (pattern_of 0x8000_0000 rq.lease_id) m.leases ≡ none) × (cores ≡ rq.cores)))
  request-Served pid now wc m client rq known good slot named =
      let id = pattern_of 0x8000_0000 rq.lease_id in
      let asked : Lease = record { id = id; cores = rq.cores; memory = pos 512 } in
      let run = named-allocate pid now wc m client rq known good slot named in
      elim (Option-cases (find id m.leases)) [
        | inl e ↦ (
          rq.cores,
          lease-Served pid now wc m client rq asked run
              ((get_threadsafe-insert asked m.leases).1 e),
          inr (e, refl),
        )
        | inr (l, e) ↦ (
          l.cores,
          lease-Served pid now wc m client rq l run ((get_threadsafe-insert asked m.leases).0 l e),
          inl (l, e, refl),
        )
      ]
