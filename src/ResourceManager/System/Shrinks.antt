-- ===== src/ResourceManager/System/Shrinks.antt =====
-- Steps that bring the registry no connection: server/resource_manager/manager.cpp.
use r_faa_s.Common.{
  ℕ, ◌≡◌, sym, ap, subst, inl, inr, some, nat_eq, find, arith, Bool-cases, Option-cases,
}
use r_faa_s.Rdmalib.Queue.{Verbs}
use r_faa_s.Rdmalib.Listener.{ConnectionManager}
use r_faa_s.ResourceManager.Messages.{Message}
use r_faa_s.ResourceManager.Executors.{deref, get_executor}
use r_faa_s.ResourceManager.Executors.Conns.{Shrinks, refl-Keeps, store-Keeps}
use r_faa_s.ResourceManager.Manager.{Manager, Request}
use r_faa_s.ResourceManager.Manager.Conns.{registry}
use r_faa_s.ResourceManager.System.{poll_sends, executor_writes, client_writes, all_known}

module _ (v : Verbs) (cm : ConnectionManager) (fresh : v.Device) (recv_buf : ℕ) where
  -- The device writes into a buffer.
  pub executor_writes-Shrinks :
      (qp slot : ℕ) (msg : Message) (m : Manager v)
      → Shrinks (registry v m) (registry v (executor_writes v cm fresh recv_buf qp slot msg m))
  unfolding executor_writes
  executor_writes-Shrinks qp slot msg m = elim (Option-cases (get_executor qp m.db.executors)) [
    | inl e ↦ rw (e, executor_writes) (refl-Keeps (registry v m)).shrinks
    | inr (r, e) ↦ elim (Option-cases (deref m.db.executors r)) [
      | inl e' ↦ rw (e, e', executor_writes) (refl-Keeps (registry v m)).shrinks
      | inr (o, e') ↦ rw (e, e', executor_writes) (store-Keeps r _ (registry v m)).shrinks
    ]
  ]

  pub client_writes-Shrinks :
      (qp slot : ℕ) (rq : Request) (m : Manager v)
      → Shrinks (registry v m) (registry v (client_writes v cm fresh recv_buf qp slot rq m))
  unfolding client_writes
  client_writes-Shrinks qp slot rq m = elim (Option-cases (find qp m.clients)) [
    | inl e ↦ rw (e, client_writes) (refl-Keeps (registry v m)).shrinks
    | inr (c, e) ↦ rw (e, client_writes) (refl-Keeps (registry v m)).shrinks
  ]

  pub poll_sends-Shrinks :
      (m m' : Manager v)
      → poll_sends v cm fresh recv_buf m ≡ some m'
      → Shrinks (registry v m) (registry v m')
  unfolding poll_sends
  poll_sends-Shrinks m m' h =
      let same : m'.db ≡ m.db = elim (Bool-cases (all_known v cm fresh recv_buf m.poll_send m)) [
        | inl e ↦ ground (arith, e)
        | inr e ↦ ground (arith, e)
      ] in
      subst (Shrinks (registry v m)) (sym (ap (λ x. x.executors) same))
        (refl-Keeps (registry v m)).shrinks
