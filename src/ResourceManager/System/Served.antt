-- ===== src/ResourceManager/System/Served.antt =====
-- What is queued is served in the next round: server/resource_manager/manager.cpp,
-- `process_executors`.
use r_faa_s.Common.{
  ℕ, ◌≡◌, refl, sym, subst, inl, inr, Bool, true, false, some, List, [], ◌∷◌, ◌++◌, nat_eq, ◌==◌,
  if◌then◌else◌, arith, Bool-cases, bind_inv, some_inj,
}
use r_faa_s.Rdmalib.Queue.{Wc, Verbs, Link}
use r_faa_s.Rdmalib.Listener.{ConnectionManager}
use r_faa_s.ResourceManager.Executor.{Executor}
use r_faa_s.ResourceManager.Executors.Conns.{Knows, connect_executor-kept, remove_executor-kept}
use r_faa_s.ResourceManager.Manager.{
  Manager, handle_message, handle_executor_connection, handle_executor_disconnection,
}
use r_faa_s.ResourceManager.Manager.Conns.{registry, handle_message-Keeps}
use r_faa_s.ResourceManager.System.{System, Entry, connect, disconnect, handle_executor_entry}
use r_faa_s.ResourceManager.System.Rounds.{drain_executors, handle_messages, executors_round}

module _ (v : Verbs) (cm : ConnectionManager) (fresh : v.Device) (recv_buf : ℕ) where
  abbrev S : Type 0
  S = System v cm fresh recv_buf

  -- No entry reports the end of the connection.
  abbrev pub stays : ℕ → List (Entry v cm fresh recv_buf Executor) → Bool
  stays qp [] = true
  stays qp (connect q link exec ∷ es) = stays qp es
  stays qp (disconnect q ∷ es) = if q == qp then false else stays qp es

  drain-Knows :
      (qp : ℕ) (es : List (Entry v cm fresh recv_buf Executor)) (s : S)
      → stays qp es ≡ true
      → Knows qp (registry v s.manager)
      → Knows qp (registry v (drain_executors v cm fresh recv_buf es s).manager)
        × ((drain_executors v cm fresh recv_buf es s).executor_queue ≡ [])
  unfolding drain_executors handle_executor_entry handle_executor_connection
      handle_executor_disconnection
  drain-Knows qp [] s left k = (k, refl)
  drain-Knows qp (connect q link exec ∷ es) s left k =
      drain-Knows qp es _ left (connect_executor-kept q qp exec (registry v s.manager) (inr k))
  drain-Knows qp (disconnect q ∷ es) s left k = elim (Bool-cases (q == qp)) [
    | inl same ↦ absurd (ground (arith, same))
    | inr other ↦
        drain-Knows qp es _ (ground (arith, other))
          (remove_executor-kept q qp (registry v s.manager) other k)
  ]

  drain-connects :
      (qp : ℕ) (link : Link v) (exec : Executor)
      (front back : List (Entry v cm fresh recv_buf Executor)) (s : S)
      → stays qp back ≡ true
      → let s' = drain_executors v cm fresh recv_buf (front ++ connect qp link exec ∷ back) s in
        Knows qp (registry v s'.manager) × (s'.executor_queue ≡ [])
  unfolding drain_executors handle_executor_entry handle_executor_connection
  drain-connects qp link exec [] back s left =
      drain-Knows qp back _ left
        (connect_executor-kept qp qp exec (registry v s.manager) (inl refl))
  drain-connects qp link exec (e ∷ front) back s left =
      drain-connects qp link exec front back _ left

  messages-Knows :
      (qp : ℕ) (wcs : List Wc) (m : Manager v) {m' : Manager v}
      → handle_messages v cm fresh recv_buf wcs m ≡ some m'
      → Knows qp (registry v m)
      → Knows qp (registry v m')
  unfolding handle_messages
  messages-Knows qp [] m h k = subst (λ x. Knows qp (registry v x)) (some_inj h) k
  messages-Knows qp (wc ∷ wcs) m h k =
      let (m1, first, rest) = bind_inv (handle_message v wc m) h in
      messages-Knows qp wcs m1 rest ((handle_message-Keeps v wc m first).kept qp k)

  -- A connection that waits anywhere in the queue of the executors, and whose end is not reported behind
  -- it, is known to the registry after the next round, whatever messages that round handles without
  -- undefined behaviour; the queue is then empty.
  pub queued_is_served :
      (qp : ℕ) (link : Link v) (exec : Executor)
      (front back : List (Entry v cm fresh recv_buf Executor)) (wcs : List Wc) (s : S)
      (m : Manager v)
      → s.executor_queue ≡ front ++ connect qp link exec ∷ back
      → stays qp back ≡ true
      → handle_messages v cm fresh recv_buf wcs
          (drain_executors v cm fresh recv_buf s.executor_queue s).manager
        ≡ some m
      → (t : S) × (executors_round v cm fresh recv_buf wcs s ≡ some t)
        × (t.executor_queue ≡ [])
        × Knows qp t.manager.db.executors
  unfolding executors_round
  queued_is_served qp link exec front back wcs s m queue left handled =
      let s' = drain_executors v cm fresh recv_buf s.executor_queue s in
      let served : Knows qp (registry v s'.manager) × (s'.executor_queue ≡ []) =
        subst
          (λ es.
            let s'' = drain_executors v cm fresh recv_buf es s in
            Knows qp (registry v s''.manager) × (s''.executor_queue ≡ []))
          (sym queue) (drain-connects qp link exec front back s left) in
      (
        record s' { manager = m },
        rw handled refl,
        served.1,
        messages-Knows qp wcs s'.manager handled served.0,
      )
