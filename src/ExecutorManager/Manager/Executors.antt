-- ===== src/ExecutorManager/Manager/Executors.antt =====
-- The workers that connect to a client's process: server/executor_manager/manager.cpp,
-- `_handle_connections`.
use r_faa_s.Common.{
  ℕ, ◌+◌, ◌≤◌, ◌<◌, ◌≡◌, refl, sym, ap, ◌∙◌, true, false, inl, inr, Option, none, some, List, [],
  ◌∷◌, ◌++◌, length, length-append, nat_eq, find, assign, ◌>>=◌, Bool-cases, find-assign_self,
  append_nil, append_assoc, arith,
}
use r_faa_s.Common.Int.{ℤ, pos, ltb_ℤ}
use r_faa_s.Rdmalib.Queue.{Verbs}
use r_faa_s.ExecutorManager.Client.{ActiveExecutor, add_executor, Client}
use r_faa_s.ExecutorManager.Manager.{Manager, handle_executor_connection}

full-le : (n cores : ℕ) (width : ℤ) → width ≡ pos cores → ltb_ℤ (pos n) width ≡ false → cores ≤ n
full-le n cores width e h = ground arith

ltb-room :
    (n cores : ℕ) (width : ℤ) {k : ℕ}
    → width ≡ pos cores
    → ltb_ℤ (pos n) width ≡ true
    → k ≡ n + 1
    → k ≤ cores
ltb-room n cores width e h same = ground arith

module _ (v : Verbs) where
  -- Workers that connect one after another for the same client.
  unfoldable pub connect_all : List ℕ → ℕ → Manager v → Option (Manager v)
  connect_all [] qp_num m = some m
  connect_all (conn ∷ conns) qp_num m = do
    m' ← handle_executor_connection v conn qp_num m
    connect_all conns qp_num m'

  connected : (conn qp_num : ℕ) (client : Client) (e : ActiveExecutor) (m : Manager v) → Manager v
  connected conn qp_num client e m = record m {
    clients =
        assign qp_num
          (record client {
            executor = some (record e { connections = e.connections ++ conn ∷ [] });
          })
          m.clients;
  }

  handle_executor_connection-fits :
      (conn qp_num : ℕ) (client : Client) (e : ActiveExecutor) (m : Manager v)
      → find qp_num m.clients ≡ some client
      → client.executor ≡ some e
      → ltb_ℤ (pos (length e.connections)) e.cores ≡ true
      → handle_executor_connection v conn qp_num m ≡ some (connected conn qp_num client e m)
  unfolding handle_executor_connection add_executor connected
  handle_executor_connection-fits conn qp_num client e m known process room =
      rw (known, process, room, handle_executor_connection) refl

  handle_executor_connection-full :
      (conn qp_num : ℕ) (client : Client) (e : ActiveExecutor) (m : Manager v)
      → find qp_num m.clients ≡ some client
      → client.executor ≡ some e
      → ltb_ℤ (pos (length e.connections)) e.cores ≡ false
      → handle_executor_connection v conn qp_num m ≡ none
  unfolding handle_executor_connection add_executor
  handle_executor_connection-full conn qp_num client e m known process full =
      rw (known, process, full, handle_executor_connection) refl

  -- As many workers can connect for a client as its process has cores, and each is kept; one more
  -- writes past the end of the array of connections.
  pub workers_fit :
      (conns : List ℕ) (qp_num cores : ℕ) (client : Client) (e : ActiveExecutor) (m : Manager v)
      → find qp_num m.clients ≡ some client
      → client.executor ≡ some e
      → e.cores ≡ pos cores
      → (length e.connections + length conns ≤ cores
          → (m' : Manager v) × (connect_all conns qp_num m ≡ some m')
            × (client' : Client) × (find qp_num m'.clients ≡ some client')
            × (client'.executor ≡ some (record e { connections = e.connections ++ conns })))
        × (cores < length e.connections + length conns
            → length e.connections ≤ cores
            → connect_all conns qp_num m ≡ none)
  unfolding connect_all connected
  workers_fit [] qp_num cores client e m known process width = (
    λ le. (
      m,
      refl,
      client,
      known,
      process ∙ ap (λ l. some (record e { connections = l })) (sym (append_nil e.connections)),
    ),
    λ lt le. absurd (omega arith),
  )
  workers_fit (conn ∷ conns) qp_num cores client e m known process width =
      let more = record e { connections = e.connections ++ conn ∷ [] } in
      let next = connected conn qp_num client e m in
      let rest =
        workers_fit conns qp_num cores (record client { executor = some more }) more next
          (find-assign_self qp_num (record client { executor = some more }) m.clients) refl width in
      let longer = length-append e.connections (conn ∷ []) in
      elim (Bool-cases (ltb_ℤ (pos (length e.connections)) e.cores)) [
        | inl room ↦
            let step = handle_executor_connection-fits conn qp_num client e m known process room in
            (
              λ le.
                  let (m', run, client', found, whole) = rest.0 (omega arith) in
                  (
                    m',
                    rw step run,
                    client',
                    found,
                    whole
                        ∙ ap (λ l. some (record e { connections = l }))
                            (append_assoc e.connections (conn ∷ []) conns),
                  ),
              λ lt le. rw step (
                  rest.1 (omega arith)
                    (ltb-room (length e.connections) cores e.cores width room longer)),
            )
        | inr full ↦ (
          λ le. absurd (omega (arith, full-le (length e.connections) cores e.cores width full)),
          λ lt le.
              rw (handle_executor_connection-full conn qp_num client e m known process full) refl,
        )
      ]
