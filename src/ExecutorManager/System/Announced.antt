-- ===== src/ExecutorManager/System/Announced.antt =====
-- The order in which the thread learns of clients and of their workers:
-- server/executor_manager/manager.cpp, `listen`.
use r_faa_s.Common.{
  ℕ, ◌≡◌, refl, sym, ap, subst, ◌∙◌, true, Option, none, some, List, [], ◌∷◌, ◌++◌, append_assoc,
  append_nil, ◌==◌, Bool-cases, bind_inv, some_inj, inl, inr, get_elem?, arith, if_elim, ltb,
}
use r_faa_s.Common.Int.{ℤ}
use r_faa_s.Rdmalib.Queue.{Verbs}
use r_faa_s.ExecutorManager.Manager.{
  Manager, handle_client_message, handle_res_mgr_message, check_executors,
}
use r_faa_s.Rdmalib.Listener.{
  ConnectionManager, Connection, ConnectionStatus, unknown, requested, established, disconnected,
  CmEvent, poll_events,
}
use r_faa_s.ExecutorManager.System.{
  member, without, System, Entry, connect_worker, connect_client, disconnect, requested_worker,
  requested_client, on_status, on_event, listen, take_entry, handle_connections, Event, listens,
  takes, message, allocation, checks, with_manager, step, taken, Run, here, next,
}

member-without : (w x : ℕ) (l : List ℕ) → member w (without x l) ≡ true → member w l ≡ true
member-without w x [] h = h
member-without w x (y ∷ l) h = ground (arith, h, member-without w x l)

module _ (indeterminate : ℤ) (v : Verbs) (cm : ConnectionManager) (fresh : v.Device)
    (recv_buf : ℕ) where
  abbrev E : Type 0
  E = Entry indeterminate v cm fresh recv_buf

  abbrev S : Type 0
  S = System indeterminate v cm fresh recv_buf

  -- The clients among some entries, the last one first, before which there were others.
  abbrev pub clients_of : List ℕ → List E → List ℕ
  clients_of seen [] = seen
  clients_of seen (connect_client qp link client ∷ es) = clients_of (qp ∷ seen) es
  clients_of seen (_ ∷ es) = clients_of seen es

  -- Each worker comes after the client that it names.
  abbrev pub AreAnnounced : List ℕ → List E → Type 0
  AreAnnounced seen [] = Unit {0}
  AreAnnounced seen (connect_worker c qp ∷ es) = (member qp seen ≡ true) × AreAnnounced seen es
  AreAnnounced seen (connect_client qp link client ∷ es) = AreAnnounced (qp ∷ seen) es
  AreAnnounced seen (disconnect qp ∷ es) = AreAnnounced seen es

  clients_of-append :
      (seen : List ℕ) (es fs : List E)
      → clients_of seen (es ++ fs) ≡ clients_of (clients_of seen es) fs
  clients_of-append seen [] fs = refl
  clients_of-append seen (connect_worker c qp ∷ es) fs = clients_of-append seen es fs
  clients_of-append seen (connect_client qp link client ∷ es) fs =
      clients_of-append (qp ∷ seen) es fs
  clients_of-append seen (disconnect qp ∷ es) fs = clients_of-append seen es fs

  append-AreAnnounced :
      (seen : List ℕ) (es fs : List E)
      → AreAnnounced seen es
      → AreAnnounced (clients_of seen es) fs
      → AreAnnounced seen (es ++ fs)
  append-AreAnnounced seen [] fs h k = k
  append-AreAnnounced seen (connect_worker c qp ∷ es) fs h k =
      (h.0, append-AreAnnounced seen es fs h.1 k)
  append-AreAnnounced seen (connect_client qp link client ∷ es) fs h k =
      append-AreAnnounced (qp ∷ seen) es fs h k
  append-AreAnnounced seen (disconnect qp ∷ es) fs h k = append-AreAnnounced seen es fs h k

  -- What holds of the entries taken and those still in the queue, and of the listener's clients.
  pub record Ordered (log : List E) (s : S) : Type 0 where
    pub announced : AreAnnounced [] (log ++ s.client_queue)
    pub known :
        (w : ℕ)
        → member w s.clients_to_connect ≡ true
        → member w (clients_of [] (log ++ s.client_queue)) ≡ true

  -- The listener adds an entry.
  added-Ordered :
      (log : List E) (s t : S) (e : E)
      → Ordered log s
      → t.client_queue ≡ s.client_queue ++ e ∷ []
      → AreAnnounced (clients_of [] (log ++ s.client_queue)) (e ∷ [])
      → ((w : ℕ)
          → member w t.clients_to_connect ≡ true
          → member w (clients_of (clients_of [] (log ++ s.client_queue)) (e ∷ [])) ≡ true)
      → Ordered log t
  added-Ordered log s t e o q h k =
      let same : log ++ t.client_queue ≡ (log ++ s.client_queue) ++ e ∷ [] =
        ap (λ x. log ++ x) q ∙ sym (append_assoc log s.client_queue (e ∷ [])) in
      record {
        announced =
            subst (AreAnnounced []) (sym same)
              (append-AreAnnounced [] (log ++ s.client_queue) (e ∷ []) o.announced h);
        known = λ w m.
            subst (λ x. member w x ≡ true)
              (sym
                (ap (clients_of []) same ∙ clients_of-append [] (log ++ s.client_queue) (e ∷ [])))
              (k w m);
      }

  -- The listener changes nothing in the queue.
  same-Ordered :
      (log : List E) (s t : S)
      → Ordered log s
      → t.client_queue ≡ s.client_queue
      → t.clients_to_connect ≡ s.clients_to_connect
      → Ordered log t
  same-Ordered log s t o q c = record {
    announced = subst (λ x. AreAnnounced [] (log ++ x)) (sym q) o.announced;
    known = λ w m.
        subst (λ x. member w (clients_of [] (log ++ x)) ≡ true) (sym q)
          (o.known w (subst (λ x. member w x ≡ true) c m));
  }

  worker-Ordered :
      (log : List E) (c : ℕ) (conn : Connection) (s : S)
      → Ordered log s
      → Ordered log (requested_worker indeterminate v cm fresh recv_buf c conn s)
  unfolding requested_worker
  worker-Ordered log c conn s o =
      elim (Bool-cases (member conn.private_data s.clients_to_connect)) [
        | inl there ↦ rw there (
            added-Ordered log s _ (connect_worker c conn.private_data) o refl
              (o.known conn.private_data there, tt) o.known)
        | inr absent ↦ rw absent (same-Ordered log s _ o refl refl)
      ]

  more_members :
      (w x : ℕ) (l l' : List ℕ)
      → (member w l ≡ true → member w l' ≡ true)
      → member w (x ∷ l) ≡ true
      → member w (x ∷ l') ≡ true
  more_members w x l l' h k = elim (Bool-cases (x == w)) [
    | inl same ↦ rw same refl
    | inr apart ↦ rw apart (h (ground (arith, k, apart)))
  ]

  client-Ordered :
      (log : List E) (c : ℕ) (conn : Connection) (s : S)
      → Ordered log s
      → Ordered log (requested_client indeterminate v cm fresh recv_buf c conn s)
  unfolding requested_client
  client-Ordered log c conn s o = added-Ordered log s _ _ o refl tt (λ w m.
      more_members w conn.qp.qp_num s.clients_to_connect (clients_of [] (log ++ s.client_queue))
        (o.known w) m)

  on_status-Ordered :
      (log : List E) (secret : ℕ) (status : ConnectionStatus) (c : ℕ) (conn : Connection) (s : S)
      → Ordered log s
      → Ordered log (on_status indeterminate v cm fresh recv_buf secret status c conn s)
  unfolding on_status
  on_status-Ordered log secret requested c conn s o =
      if_elim (Ordered log) (ltb 0 secret) (worker-Ordered log c conn s o)
        (client-Ordered log c conn s o)
  on_status-Ordered log secret disconnected c conn s o =
      added-Ordered log s _ (disconnect conn.qp.qp_num) o refl tt
        (λ w m. o.known w (member-without w conn.qp.qp_num s.clients_to_connect m))
  on_status-Ordered log secret established c conn s o = o
  on_status-Ordered log secret unknown c conn s o = o

  on_event-Ordered :
      (log : List E) (secret : ℕ) (status : ConnectionStatus) (o : Option ℕ) (s t : S)
      → Ordered log s
      → on_event indeterminate v cm fresh recv_buf secret status o s ≡ some t
      → Ordered log t
  unfolding on_event
  on_event-Ordered log secret status none s t h done = subst (Ordered log) (some_inj done) h
  on_event-Ordered log secret status (some c) s t h done =
      let (conn, there, result) = bind_inv (get_elem? s.passive.connections c) done in
      subst (Ordered log) (some_inj result) (on_status-Ordered log secret status c conn s h)

  listen-Ordered :
      (log : List E) (secret : ℕ) (ev : CmEvent) (s t : S)
      → Ordered log s
      → listen indeterminate v cm fresh recv_buf secret ev s ≡ some t
      → Ordered log t
  unfolding listen
  listen-Ordered log secret ev s t o done =
      let (r, polled, result) = bind_inv (poll_events cm ev s.passive) done in
      on_event-Ordered log secret r.1 r.0 (record s { passive = r.2 }) t
        (same-Ordered log s _ o refl refl) result

  -- The thread takes an entry: it goes from the queue to those that were taken.
  take_entry-kept :
      (e : E) (s t : S)
      → take_entry indeterminate v cm fresh recv_buf e s ≡ some t
      → (t.client_queue ≡ s.client_queue) × (t.clients_to_connect ≡ s.clients_to_connect)
  unfolding take_entry
  take_entry-kept (disconnect qp) s t h = (
    ap (λ x. x.client_queue) (sym (some_inj h)),
    ap (λ x. x.clients_to_connect) (sym (some_inj h)),
  )
  take_entry-kept (connect_worker c qp) s t h =
      let (m, e, h1) =
        bind_inv
          (handle_connections indeterminate v cm fresh recv_buf (connect_worker c qp) s.manager)
          h in
      (
        ap (λ x. x.client_queue) (sym (some_inj h1)),
        ap (λ x. x.clients_to_connect) (sym (some_inj h1)),
      )
  take_entry-kept (connect_client qp link client) s t h = (
    ap (λ x. x.client_queue) (sym (some_inj h)),
    ap (λ x. x.clients_to_connect) (sym (some_inj h)),
  )

  moved-Ordered :
      (log : List E) (e : E) (es : List E) (s t : S)
      → s.client_queue ≡ e ∷ es
      → t.client_queue ≡ es
      → t.clients_to_connect ≡ s.clients_to_connect
      → Ordered log s
      → Ordered (log ++ e ∷ []) t
  moved-Ordered log e es s t q q' c o =
      let same : (log ++ e ∷ []) ++ t.client_queue ≡ log ++ s.client_queue =
        ap (λ x. (log ++ e ∷ []) ++ x) q'
        ∙ append_assoc log (e ∷ []) es
        ∙ ap (λ x. log ++ x) (sym q) in
      record {
        announced = subst (AreAnnounced []) (sym same) o.announced;
        known = λ w m.
            subst (λ x. member w (clients_of [] x) ≡ true) (sym same)
              (o.known w (subst (λ x. member w x ≡ true) c m));
      }

  manager-Ordered :
      (log : List E) (s t : S) (o : Option (Manager v))
      → Ordered log s
      → with_manager indeterminate v cm fresh recv_buf s o ≡ some t
      → Ordered (log ++ []) t
  manager-Ordered log s t o h done =
      let (m, e, result) = bind_inv o done in
      subst (λ x. Ordered x t) (sym (append_nil log))
        (subst (Ordered log) (some_inj result) (same-Ordered log s _ h refl refl))

  after_taking : S → List E → Option S
  after_taking s [] = some s
  after_taking s (x ∷ es) =
      take_entry indeterminate v cm fresh recv_buf x (record s { client_queue = es })

  step-taking :
      (s : S) (q : List E)
      → s.client_queue ≡ q
      → step indeterminate v cm fresh recv_buf takes s ≡ after_taking s q
  unfolding step after_taking
  step-taking s q e =
      ap
        (λ (l : List E). elim l as (λ _. Option S) [
          | [] ↦ some s
          | x ∷ es ↦ take_entry indeterminate v cm fresh recv_buf x (record s { client_queue = es })
        ])
        e
      ∙ cases q
    where
      cases :
          (l : List E)
          → (elim l as (λ _. Option S) [
            | [] ↦ some s
            | x ∷ es ↦
                take_entry indeterminate v cm fresh recv_buf x (record s { client_queue = es })
          ])
            ≡ after_taking s l
      cases [] = refl
      cases (x ∷ es) = refl

  takes-Ordered :
      (log : List E) (q : List E) (s t : S)
      → s.client_queue ≡ q
      → Ordered log s
      → after_taking s q ≡ some t
      → Ordered (log ++ taken indeterminate v cm fresh recv_buf takes q) t
  unfolding after_taking
  takes-Ordered log [] s t e o done =
      subst (λ x. Ordered x t) (sym (append_nil log)) (subst (Ordered log) (some_inj done) o)
  takes-Ordered log (x ∷ es) s t e o done =
      let (q, c) = take_entry-kept x (record s { client_queue = es }) t done in
      moved-Ordered log x es s t e q c o

  step-Ordered :
      (log : List E) (ev : Event indeterminate v cm fresh recv_buf) (s t : S)
      → Ordered log s
      → step indeterminate v cm fresh recv_buf ev s ≡ some t
      → Ordered (log ++ taken indeterminate v cm fresh recv_buf ev s.client_queue) t
  step-Ordered log (listens secret ev) s t o done =
      subst (λ x. Ordered x t) (sym (append_nil log))
        (listen-Ordered log secret ev s t o (unfold step in done))
  step-Ordered log takes s t o done =
      takes-Ordered log s.client_queue s t refl o (sym (step-taking s s.client_queue refl) ∙ done)
  step-Ordered log (message a) s t o done =
      manager-Ordered log s t (handle_client_message v a.pid a.now a.wc s.manager) o
        (unfold step in done)
  step-Ordered log (allocation status msg) s t o done =
      manager-Ordered log s t (some (handle_res_mgr_message v status msg s.manager)) o
        (unfold step in done)
  step-Ordered log (checks waited now) s t o done =
      manager-Ordered log s t (check_executors v waited now s.manager) o (unfold step in done)

  Run-Ordered :
      {s : S} (log : List E) (t : S)
      → Ordered [] s
      → Run indeterminate v cm fresh recv_buf s log t
      → Ordered log t
  Run-Ordered {s} _ _ o here = o
  Run-Ordered {s} _ u o (next {log} {t} ev r done) =
      step-Ordered log ev t u (Run-Ordered log t o r) done

  -- However the listener and the other thread interleave, and whatever connections come in: among the
  -- entries that the thread takes, and those that are left for it, every worker comes after the client
  -- that it names.
  pub workers_after_clients :
      (s t : S) (log : List E)
      → s.client_queue ≡ []
      → s.clients_to_connect ≡ []
      → Run indeterminate v cm fresh recv_buf s log t
      → AreAnnounced [] (log ++ t.client_queue)
  workers_after_clients s t log nothing none_yet r =
      (Run-Ordered log t
        (record { announced = rw nothing tt; known = λ w m. absurd (ground (arith, none_yet, m)) })
        r).announced
