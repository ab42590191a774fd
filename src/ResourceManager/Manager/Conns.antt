-- ===== src/ResourceManager/Manager/Conns.antt =====
-- What the handlers do to the connections of the registry: server/resource_manager/manager.cpp.
use r_faa_s.Common.{
  ℕ, ◌≡◌, refl, sym, ap, subst, ◌∙◌, ◌⊎◌, inl, inr, true, false, Option, none, some, nat_eq, find,
  get_elem?, ◌==◌, ◌>>=◌, arith, Bool-cases, Option-cases, some_inj, bind_inv,
}
use r_faa_s.Common.Int.{pos, ltb_ℤ}
use r_faa_s.Rdmalib.Queue.{Wc, Verbs}
use r_faa_s.ResourceManager.Messages.{
  Message, node_registration, lease_deallocation, unknown, c_string,
}
use r_faa_s.ResourceManager.Executor.{WeakPtr}
use r_faa_s.ResourceManager.Executors.{Executors, deref, get_executor}
use r_faa_s.ResourceManager.Executors.Conns.{
  Keeps, Shrinks, refl-Keeps, register_executor-Keeps, remove_executor-Shrinks,
}
use r_faa_s.ResourceManager.Db.{Db, LeaseResponse, open_lease}
use r_faa_s.ResourceManager.Db.Conns.{open_lease-Keeps, close_lease-Keeps}
use r_faa_s.ResourceManager.Manager.{
  Manager, Client, Request, consumed, dispatch, handle_message, answer, handle_request,
  handle_client_message, handle_executor_disconnection, handle_client_disconnection,
}
use r_faa_s.ResourceManager.Manager.Registration.{consumed-db}

module _ (v : Verbs) where
  abbrev pub registry : Manager v → Executors
  registry m = m.db.executors

  dispatch-Keeps :
      (qp_num : ℕ) (msg : Message) (m : Manager v) {m' : Manager v}
      → dispatch v qp_num msg m ≡ some m'
      → Keeps (registry m) (registry m')
  unfolding dispatch
  dispatch-Keeps qp_num (node_registration field) m h =
      let (name, e, done) = bind_inv (c_string field) h in
      subst (λ x. Keeps (registry m) (registry x)) (some_inj done)
        (register_executor-Keeps qp_num name (registry m))
  dispatch-Keeps qp_num (lease_deallocation msg) m h =
      subst (λ x. Keeps (registry m) (registry x)) (some_inj h) (close_lease-Keeps msg m.db)
  dispatch-Keeps qp_num (unknown type) m h =
      subst (λ x. Keeps (registry m) (registry x)) (some_inj h) (refl-Keeps (registry m))

  message_failed :
      (wc : Wc) (m : Manager v) → (wc.status == 0) ≡ false → handle_message v wc m ≡ some m
  unfolding handle_message
  message_failed wc m failed = rw (failed, handle_message) refl

  message_stray :
      (wc : Wc) (m : Manager v)
      → (wc.status == 0) ≡ true
      → get_executor wc.qp_num (registry m) ≡ none
      → handle_message v wc m ≡ some m
  unfolding handle_message
  message_stray wc m good gone = rw (good, gone, handle_message) refl

  message_handled :
      (wc : Wc) (m : Manager v) {r : ℕ}
      → (wc.status == 0) ≡ true
      → get_executor wc.qp_num (registry m) ≡ some r
      → handle_message v wc m ≡ (
          deref (registry m) r >>= λ exec. get_elem? exec.receive_buffer wc.wr_id >>= λ msg.
          dispatch v wc.qp_num msg m >>= λ m'.
          exec.connection >>= λ conn. some (consumed v conn m'))
  unfolding handle_message
  message_handled wc m good e = rw (good, e, handle_message) refl

  -- A message from an executor neither adds nor removes a connection.
  pub handle_message-Keeps :
      (wc : Wc) (m : Manager v) {m' : Manager v}
      → handle_message v wc m ≡ some m'
      → Keeps (registry m) (registry m')
  handle_message-Keeps wc m {m'} h = elim (Bool-cases (wc.status == 0)) [
    | inr failed ↦
        subst (λ x. Keeps (registry m) (registry x))
          (some_inj (sym (message_failed wc m failed) ∙ h)) (refl-Keeps (registry m))
    | inl good ↦ elim (Option-cases (get_executor wc.qp_num (registry m))) [
      | inl gone ↦
          subst (λ x. Keeps (registry m) (registry x))
            (some_inj (sym (message_stray wc m good gone) ∙ h)) (refl-Keeps (registry m))
      | inr (r, e) ↦
          let (exec, here, h1) =
            bind_inv (deref (registry m) r) (sym (message_handled wc m good e) ∙ h) in
          let (msg, slot, h2) = bind_inv (get_elem? exec.receive_buffer wc.wr_id) h1 in
          let (m1, done, h3) = bind_inv (dispatch v wc.qp_num msg m) h2 in
          let (conn, c, h4) = bind_inv exec.connection h3 in
          subst (Keeps (registry m))
            (sym (ap (λ x. x.executors) (consumed-db v conn m1)) ∙ ap registry (some_inj h4))
            (dispatch-Keeps wc.qp_num msg m done)
    ]
  ]

  answer-Keeps :
      (qp_num : ℕ) (client : Client) (rq : Request) (o : Option ℕ × LeaseResponse × Db)
      (m : Manager v) {m' : Manager v}
      → Keeps (registry m) o.2.executors
      → answer v qp_num client rq o m ≡ some m'
      → Keeps (registry m) (registry m')
  unfolding answer
  answer-Keeps qp_num client rq (none, response, db) m kept h =
      subst (Keeps (registry m)) (ap registry (some_inj h)) kept
  answer-Keeps qp_num client rq (some r, response, db) m kept h =
      let (exec, here, h1) = bind_inv (deref db.executors r) h in
      let (conn, c, h2) = bind_inv exec.connection h1 in
      subst (Keeps (registry m)) (ap registry (some_inj h2)) kept

  request_positive :
      (dangling : WeakPtr) (qp_num : ℕ) (client : Client) (rq : Request) (m : Manager v)
      → ltb_ℤ (pos 0) rq.cores ≡ true
      → handle_request v dangling qp_num client rq m ≡ (
          answer v qp_num client rq (open_lease rq.cores rq.memory dangling client.response m.db) m
          >>= λ m'. some (consumed v qp_num m'))
  unfolding handle_request
  request_positive dangling qp_num client rq m e = rw (e, handle_request) refl

  request_others :
      (dangling : WeakPtr) (qp_num : ℕ) (client : Client) (rq : Request) (m : Manager v)
      {m' : Manager v}
      → ltb_ℤ (pos 0) rq.cores ≡ false
      → handle_request v dangling qp_num client rq m ≡ some m'
      → m'.db ≡ m.db
  unfolding handle_request
  request_others dangling qp_num client rq m e h = ground (arith, e)

  handle_request-Keeps :
      (dangling : WeakPtr) (qp_num : ℕ) (client : Client) (rq : Request) (m : Manager v)
      {m' : Manager v}
      → handle_request v dangling qp_num client rq m ≡ some m'
      → Keeps (registry m) (registry m')
  handle_request-Keeps dangling qp_num client rq m {m'} h =
      elim (Bool-cases (ltb_ℤ (pos 0) rq.cores)) [
        | inr others ↦
            subst (Keeps (registry m))
              (sym (ap (λ x. x.executors) (request_others dangling qp_num client rq m others h)))
              (refl-Keeps (registry m))
        | inl positive ↦
            let lease = open_lease rq.cores rq.memory dangling client.response m.db in
            let (m1, done, h1) =
              bind_inv (answer v qp_num client rq lease m)
                (sym (request_positive dangling qp_num client rq m positive) ∙ h) in
            subst (Keeps (registry m))
              (sym (ap (λ x. x.executors) (consumed-db v qp_num m1)) ∙ ap registry (some_inj h1))
              (answer-Keeps qp_num client rq lease m
                (open_lease-Keeps rq.cores rq.memory dangling client.response m.db) done)
      ]

  client_message_ignored :
      (dangling : WeakPtr) (wc : Wc) (m : Manager v)
      → ((wc.status == 0) ≡ false) ⊎ (find wc.qp_num m.clients ≡ none)
      → handle_client_message v dangling wc m ≡ some m
  unfolding handle_client_message
  client_message_ignored dangling wc m (inl failed) = rw (failed, handle_client_message) refl
  client_message_ignored dangling wc m (inr gone) = elim (Bool-cases (wc.status == 0)) [
    | inl good ↦ rw (good, gone, handle_client_message) refl
    | inr failed ↦ rw (failed, handle_client_message) refl
  ]

  client_message_handled :
      (dangling : WeakPtr) (wc : Wc) (m : Manager v) {client : Client}
      → (wc.status == 0) ≡ true
      → find wc.qp_num m.clients ≡ some client
      → handle_client_message v dangling wc m ≡ (
          get_elem? client.allocation_requests wc.wr_id >>= λ rq.
          handle_request v dangling wc.qp_num client rq m)
  unfolding handle_client_message
  client_message_handled dangling wc m good e = rw (good, e, handle_client_message) refl

  -- Neither does a message from a client.
  pub handle_client_message-Keeps :
      (dangling : WeakPtr) (wc : Wc) (m : Manager v) {m' : Manager v}
      → handle_client_message v dangling wc m ≡ some m'
      → Keeps (registry m) (registry m')
  handle_client_message-Keeps dangling wc m {m'} h = elim (Bool-cases (wc.status == 0)) [
    | inr failed ↦
        subst (λ x. Keeps (registry m) (registry x))
          (some_inj (sym (client_message_ignored dangling wc m (inl failed)) ∙ h))
          (refl-Keeps (registry m))
    | inl good ↦ elim (Option-cases (find wc.qp_num m.clients)) [
      | inl gone ↦
          subst (λ x. Keeps (registry m) (registry x))
            (some_inj (sym (client_message_ignored dangling wc m (inr gone)) ∙ h))
            (refl-Keeps (registry m))
      | inr (client, e) ↦
          let (rq, slot, done) =
            bind_inv (get_elem? client.allocation_requests wc.wr_id)
              (sym (client_message_handled dangling wc m good e) ∙ h) in
          handle_request-Keeps dangling wc.qp_num client rq m done
    ]
  ]

  -- A disconnection, of an executor or of a client, adds none.
  pub disconnection-Shrinks :
      (qp_num : ℕ) (m : Manager v)
      → Shrinks (registry m) (registry (handle_executor_disconnection v qp_num m))
        × Shrinks (registry m) (registry (handle_client_disconnection v qp_num m))
  unfolding handle_executor_disconnection handle_client_disconnection
  disconnection-Shrinks qp_num m = (
    remove_executor-Shrinks qp_num (registry m),
    elim (Option-cases (find qp_num m.clients)) [
      | inl e ↦ rw (e, handle_client_disconnection) (remove_executor-Shrinks qp_num (registry m))
      | inr (c, e) ↦
          rw (e, handle_client_disconnection) (remove_executor-Shrinks qp_num (registry m))
    ],
  )
