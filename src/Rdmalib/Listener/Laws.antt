-- ===== src/Rdmalib/Listener/Laws.antt =====
-- What a successful request does, and what no event undoes: rdmalib/lib/rdmalib.cpp.
use r_faa_s.Common.{
  ℕ, some_inj, bind_inv, ◌≡◌, refl, sym, ap, subst, ◌∙◌, inl, inr, Option, none, some, List, [],
  ◌∷◌, nat_eq, find, get_elem?, arith, ◌>>=◌, Option-cases, get_elem?-append_left,
}
use r_faa_s.Rdmalib.PrivateData.{key}
use r_faa_s.Rdmalib.Listener.{
  ConnectionManager, QueuePair, Connection, ConnectionStatus, CmEvent, connect_request,
  has_established, has_disconnected, unexpected, device_removal, disconnected, Passive, attr_of,
  queue_key, word_of, connected, create_connection, request, poll_events, without,
}

module _ (cm : ConnectionManager) where
  -- What a request that succeeds has done.
  pub record Requested (id : ℕ) (word : ℕ) (p : Passive cm) (c : ℕ) (p' : Passive cm) : Type 0 where
    pub k : ℕ
    pub qp : QueuePair
    pub keyed : key 8 8 16 word ≡ some k
    pub created :
        let attr = attr_of (queue_key k p.shared >>= λ j. find j p.shared) in
        (cm.create_qp attr.send_cq attr.recv_cq p.device).0 ≡ some qp
    pub result :
        let attr = attr_of (queue_key k p.shared >>= λ j. find j p.shared) in
        let d = (cm.create_qp attr.send_cq attr.recv_cq p.device).1 in
        (c, p')
        ≡ connected cm id word (queue_key k p.shared) qp (record p { device = d; attr = attr })

  pub request-Requested :
      (id : ℕ) (private_data : Option ℕ) (p : Passive cm) {c : ℕ} {p' : Passive cm}
      → request cm id private_data p ≡ some (c, p')
      → Requested id (word_of private_data) p c p'
  unfolding request create_connection
  request-Requested id private_data p {c} {p'} h =
      elim (Option-cases (key 8 8 16 (word_of private_data))) [
        | inl e ↦ absurd (ground (arith, e))
        | inr (k, e) ↦
            let attr = attr_of (queue_key k p.shared >>= λ j. find j p.shared) in
            elim (Option-cases (cm.create_qp attr.send_cq attr.recv_cq p.device).0) [
              | inl e' ↦ absurd (ground (arith, e, e'))
              | inr (q, e') ↦ record {
                k = k;
                qp = q;
                keyed = e;
                created = e';
                result = some_inj (sym h ∙ rw (e, create_connection, e') refl);
              }
            ]
      ]

  pub disconnected_unknown :
      (id : ℕ) (p : Passive cm)
      → find id p.contexts ≡ none
      → poll_events cm (has_disconnected id) p ≡ some (none, disconnected, p)
  unfolding poll_events
  disconnected_unknown id p h = rw (h, poll_events) refl

  pub disconnected_known :
      (id c : ℕ) (p : Passive cm)
      → find id p.contexts ≡ some c
      → poll_events cm (has_disconnected id) p
        ≡ some (some c, disconnected, record p { active = without c p.active })
  unfolding poll_events
  disconnected_known id c p h = rw (h, poll_events) refl

  -- No connection is ever taken away.
  pub poll_events-kept :
      (ev : CmEvent) (p : Passive cm) (c : ℕ) {conn : Connection}
      {r : Option ℕ × ConnectionStatus × Passive cm}
      → poll_events cm ev p ≡ some r
      → get_elem? p.connections c ≡ some conn
      → get_elem? r.2.connections c ≡ some conn
  unfolding poll_events connected
  poll_events-kept (connect_request id private_data) p c {conn} done there =
      let (r, result, state) = bind_inv (request cm id private_data p) done in
      let next = ap (λ x. x.1.connections) (request-Requested id private_data p result).result in
      let here = get_elem?-append_left p.connections _ c there in
      subst (λ l. get_elem? l c ≡ some conn) (sym next ∙ ap (λ x. x.2.connections) (some_inj state))
        here
  poll_events-kept (has_established id) p c {conn} done there =
      subst (λ x. get_elem? x.2.connections c ≡ some conn) (some_inj done) there
  poll_events-kept (has_disconnected id) p c {conn} done there =
      elim (Option-cases (find id p.contexts)) [
        | inl gone ↦
            subst (λ x. get_elem? x.2.connections c ≡ some conn)
              (some_inj (sym (disconnected_unknown id p gone) ∙ done)) there
        | inr (c', known) ↦
            subst (λ x. get_elem? x.2.connections c ≡ some conn)
              (some_inj (sym (disconnected_known id c' p known) ∙ done)) there
      ]
  poll_events-kept unexpected p c {conn} done there =
      subst (λ x. get_elem? x.2.connections c ≡ some conn) (some_inj done) there
  poll_events-kept device_removal p c {conn} done there = absurd (cc)

  -- The loop of a listener, for what it does to the state of the listening side.
  unfoldable pub poll_all : List CmEvent → Passive cm → Option (Passive cm)
  poll_all [] p = some p
  poll_all (ev ∷ evs) p = do r ← poll_events cm ev p; poll_all evs r.2
