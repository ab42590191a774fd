-- ===== src/ResourceManager/System/Listening.antt =====
-- The listener keeps what holds of every state: server/resource_manager/manager.cpp, `listen_rdma`.
use r_faa_s.Common.{
  ℕ, ◌≡◌, ap, subst, ◌∙◌, inl, inr, Option, none, some, nat_eq, get_elem?, ◌==◌, some_inj, bind_inv,
  if_elim,
}
use r_faa_s.Rdmalib.PrivateData.{key}
use r_faa_s.Rdmalib.Queue.{Verbs}
use r_faa_s.Rdmalib.Listener.{
  ConnectionManager, Connection, ConnectionStatus, unknown, requested, established, disconnected,
  CmEvent, Passive, poll_events,
}
use r_faa_s.Rdmalib.Listener.Laws.{poll_events-kept}
use r_faa_s.ResourceManager.Manager.{Admission, admit, reject, accept_executor, accept_client}
use r_faa_s.ResourceManager.System.{
  System, admitted, on_event, on_requested, on_disconnected, on_established, on_status, listen,
}
use r_faa_s.ResourceManager.System.Admitting.{Admitted, admit-inv}
use r_faa_s.ResourceManager.System.Sound.{Sound, Queued-append, Queued-connect, Queued-disconnect}

module _ (v : Verbs) (cm : ConnectionManager) (fresh : v.Device) (recv_buf : ℕ) where
  abbrev S : Type 0
  S = System v cm fresh recv_buf

  -- The listener learns of an event.
  passive-Sound :
      {mine : ℕ} (s : S) (p : Passive cm)
      → Sound v cm fresh recv_buf mine s
      → ((c : ℕ) (conn : Connection)
          → get_elem? s.passive.connections c ≡ some conn
          → get_elem? p.connections c ≡ some conn)
      → Sound v cm fresh recv_buf mine (record s { passive = p })
  passive-Sound {mine} s p h kept = record {
    same = h.same;
    valid = h.valid;
    known = λ qp k. moved qp (h.known qp k);
    queued = λ qp k. moved qp (h.queued qp k);
  }
    where
      moved : (qp : ℕ) → Admitted s.passive.connections mine qp → Admitted p.connections mine qp
      moved qp a = record {
        place = a.place;
        conn = a.conn;
        object = kept a.place a.conn a.object;
        number = a.number;
        keyed = a.keyed;
        proven = a.proven;
      }

  -- What a decision adds to the queue of the executors is admitted.
  admitted-Sound :
      {mine : ℕ} (verdict : Admission) (c : ℕ) (conn : Connection) (s : S)
      → Sound v cm fresh recv_buf mine s
      → get_elem? s.passive.connections c ≡ some conn
      → admit s.secret conn.private_data ≡ some verdict
      → Sound v cm fresh recv_buf mine (admitted v cm fresh recv_buf verdict c conn s)
  unfolding admitted
  admitted-Sound {mine} reject c conn s h there e = record {
    same = h.same;
    valid = h.valid;
    known = h.known;
    queued = h.queued;
  }
  admitted-Sound {mine} accept_client c conn s h there e = record {
    same = h.same;
    valid = h.valid;
    known = h.known;
    queued = h.queued;
  }
  admitted-Sound {mine} accept_executor c conn s h there e = record {
    same = h.same;
    valid = h.valid;
    known = h.known;
    queued = λ qp k. elim (Queued-append v cm fresh recv_buf qp s.executor_queue _ k) [
      | inl before ↦ h.queued qp before
      | inr new ↦ record {
        place = c;
        conn = conn;
        object = there;
        number = Queued-connect v cm fresh recv_buf qp conn.qp.qp_num _ _ new;
        keyed = (admit-inv s.secret conn.private_data e).0;
        proven = (admit-inv s.secret conn.private_data e).1 ∙ ap some h.same;
      }
    ];
  }

  on_status-Sound :
      {mine : ℕ} (status : ConnectionStatus) (c : ℕ) (conn : Connection) (s : S) {t : S}
      → Sound v cm fresh recv_buf mine s
      → get_elem? s.passive.connections c ≡ some conn
      → on_status v cm fresh recv_buf status c conn s ≡ some t
      → Sound v cm fresh recv_buf mine t
  unfolding on_status on_requested on_disconnected on_established
  on_status-Sound {mine} unknown c conn s h there done =
      subst (Sound v cm fresh recv_buf mine) (some_inj done) h
  on_status-Sound {mine} requested c conn s h there done =
      let (verdict, e, result) = bind_inv (admit s.secret conn.private_data) done in
      subst (Sound v cm fresh recv_buf mine) (some_inj result)
        (admitted-Sound verdict c conn s h there e)
  on_status-Sound {mine} established c conn s h there done =
      let (k, e, result) = bind_inv (key 8 8 16 conn.private_data) done in
      subst (Sound v cm fresh recv_buf mine) (some_inj result) (
        if_elim (Sound v cm fresh recv_buf mine) (k == 1) h (
          if_elim (Sound v cm fresh recv_buf mine) (k == 2) h
            (record { same = h.same; valid = h.valid; known = h.known; queued = h.queued })))
  on_status-Sound {mine} disconnected c conn s h there done =
      let (k, e, result) = bind_inv (key 8 8 16 conn.private_data) done in
      subst (Sound v cm fresh recv_buf mine) (some_inj result) (
        if_elim (Sound v cm fresh recv_buf mine) (k == 1)
          (record {
            same = h.same;
            valid = h.valid;
            known = h.known;
            queued = λ qp q.
                h.queued qp
                  (Queued-disconnect v cm fresh recv_buf qp s.executor_queue conn.qp.qp_num q);
          })
          (record { same = h.same; valid = h.valid; known = h.known; queued = h.queued }))

  on_event-Sound :
      {mine : ℕ} (status : ConnectionStatus) (o : Option ℕ) (s : S) {t : S}
      → Sound v cm fresh recv_buf mine s
      → on_event v cm fresh recv_buf status o s ≡ some t
      → Sound v cm fresh recv_buf mine t
  unfolding on_event
  on_event-Sound {mine} status none s h done =
      subst (Sound v cm fresh recv_buf mine) (some_inj done) h
  on_event-Sound {mine} status (some c) s h done =
      let (conn, there, result) = bind_inv (get_elem? s.passive.connections c) done in
      on_status-Sound status c conn s h there result

  pub listen-Sound :
      {mine : ℕ} (ev : CmEvent) (s : S) {t : S}
      → Sound v cm fresh recv_buf mine s
      → listen v cm fresh recv_buf ev s ≡ some t
      → Sound v cm fresh recv_buf mine t
  unfolding listen
  listen-Sound {mine} ev s h done =
      let (r, polled, result) = bind_inv (poll_events cm ev s.passive) done in
      on_event-Sound r.1 r.0 (record s { passive = r.2 })
        (passive-Sound s r.2 h (λ c conn there. poll_events-kept cm ev s.passive c polled there))
        result
