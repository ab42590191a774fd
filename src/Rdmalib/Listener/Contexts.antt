-- ===== src/Rdmalib/Listener/Contexts.antt =====
-- Later events of a connection find it again: rdmalib/lib/rdmalib.cpp, `poll_events`.
use r_faa_s.Common.{
  ℕ, ◌≡◌, refl, sym, ap, subst, ◌∙◌, Bool, true, false, inl, inr, Option, some, List, [], ◌∷◌,
  nat_eq, find, get_elem?, length, arith, ◌==◌, if◌then◌else◌, some_inj, bind_inv, Option-cases,
  Bool-cases, find-assign, find-assign_self, get_elem?-append_left, get_elem?-append_end,
}
use r_faa_s.Rdmalib.Listener.{
  ConnectionManager, Connection, ConnectionStatus, CmEvent, connect_request, has_established,
  has_disconnected, unexpected, device_removal, established, disconnected, requested, Passive,
  word_of, without, connected, request, poll_events,
}
use r_faa_s.Rdmalib.Listener.Laws.{
  request-Requested, poll_all, disconnected_unknown, disconnected_known,
}

abbrev pub requests : ℕ → CmEvent → Bool
requests id (connect_request id' private_data) = id' == id
requests id _ = false

abbrev pub any_requests : ℕ → List CmEvent → Bool
any_requests id [] = false
any_requests id (ev ∷ evs) = if requests id ev then true else any_requests id evs

abbrev pub is_active : ℕ → List ℕ → Bool
is_active c [] = false
is_active c (a ∷ l) = if a == c then true else is_active c l

is_active-without : (c : ℕ) (l : List ℕ) → is_active c (without c l) ≡ false
is_active-without c [] = refl
is_active-without c (a ∷ l) = elim (Bool-cases (a == c)) [
  | inl same ↦ rw same (is_active-without c l)
  | inr other ↦ rw (other, other) (is_active-without c l)
]

module _ (cm : ConnectionManager) where
  -- The identifier leads to the connection, an object with this content.
  pub record Leads (id c : ℕ) (conn : Connection) (p : Passive cm) : Type 0 where
    pub context : find id p.contexts ≡ some c
    pub object : get_elem? p.connections c ≡ some conn

  request-Leads :
      (id id' c : ℕ) (private_data : Option ℕ) (conn : Connection) (p : Passive cm) {c' : ℕ}
      {p' : Passive cm}
      → Leads id c conn p
      → (id' == id) ≡ false
      → request cm id' private_data p ≡ some (c', p')
      → Leads id c conn p'
  unfolding connected
  request-Leads id id' c private_data conn p h other done =
      let state = ap (λ x. x.1) (request-Requested cm id' private_data p done).result in
      record {
        context =
            rw state (rw (find-assign id' id (length p.connections) p.contexts, other) h.context);
        object = rw state (get_elem?-append_left p.connections _ c h.object);
      }

  poll_events-Leads :
      (id c : ℕ) (conn : Connection) (ev : CmEvent) (p : Passive cm)
      {r : Option ℕ × ConnectionStatus × Passive cm}
      → Leads id c conn p
      → requests id ev ≡ false
      → poll_events cm ev p ≡ some r
      → Leads id c conn r.2
  unfolding poll_events
  poll_events-Leads id c conn (connect_request id' private_data) p {r} h other done =
      let (r, result, state) = bind_inv (request cm id' private_data p) done in
      subst (λ x. Leads id c conn x.2) (some_inj state)
        (request-Leads id id' c private_data conn p h other result)
  poll_events-Leads id c conn (has_established id') p {r} h other done =
      subst (λ x. Leads id c conn x.2) (some_inj done) h
  poll_events-Leads id c conn (has_disconnected id') p {r} h other done =
      elim (Option-cases (find id' p.contexts)) [
        | inl gone ↦
            subst (λ x. Leads id c conn x.2)
              (some_inj (sym (disconnected_unknown cm id' p gone) ∙ done)) h
        | inr (c', there) ↦
            subst (λ x. Leads id c conn x.2)
              (some_inj (sym (disconnected_known cm id' c' p there) ∙ done))
              (record { context = h.context; object = h.object })
      ]
  poll_events-Leads id c conn unexpected p {r} h other done =
      subst (λ x. Leads id c conn x.2) (some_inj done) h
  poll_events-Leads id c conn device_removal p {r} h other done = absurd (cc)

  poll_all-Leads :
      (id c : ℕ) (conn : Connection) (evs : List CmEvent) (p : Passive cm) {p' : Passive cm}
      → Leads id c conn p
      → any_requests id evs ≡ false
      → poll_all cm evs p ≡ some p'
      → Leads id c conn p'
  unfolding poll_all
  poll_all-Leads id c conn [] p h others done = subst (Leads id c conn) (some_inj done) h
  poll_all-Leads id c conn (ev ∷ evs) p h others done =
      let (r, first, rest) = bind_inv (poll_events cm ev p) done in
      elim (Bool-cases (requests id ev)) [
        | inl same ↦ absurd (ground (arith, same))
        | inr other ↦
            poll_all-Leads id c conn evs r.2 (poll_events-Leads id c conn ev p h other first)
              (ground (arith, other)) rest
      ]

  requested-Leads :
      (id c : ℕ) (private_data : Option ℕ) (p p' : Passive cm)
      → request cm id private_data p ≡ some (c, p')
      → (conn : Connection) × (conn.private_data ≡ word_of private_data) × Leads id c conn p'
  unfolding connected
  requested-Leads id c private_data p p' done =
      let r = request-Requested cm id private_data p done in
      let number = ap (λ x. x.0) r.result in
      let state = ap (λ x. x.1) r.result in
      (
        record { private_data = word_of private_data; qp = r.qp },
        refl,
        record {
          context = rw (state, number) (find-assign_self id (length p.connections) p.contexts);
          object = rw (state, number) (get_elem?-append_end p.connections _);
        },
      )

  unwrapped :
      {c c' : ℕ} {p p' : Passive cm}
      → ◌≡◌ {A = Option (Option ℕ × ConnectionStatus × Passive cm)}
          (some (some c', requested, p'))
          (some (some c, requested, p))
      → ◌≡◌ {A = Option (ℕ × Passive cm)} (some (c', p')) (some (c, p))
  unwrapped h = cc

  request_of :
      (id c : ℕ) (private_data : Option ℕ) (p p' : Passive cm)
      → poll_events cm (connect_request id private_data) p ≡ some (some c, requested, p')
      → request cm id private_data p ≡ some (c, p')
  unfolding poll_events
  request_of id c private_data p p' asked =
      let (r, made, state) = bind_inv (request cm id private_data p) asked in made ∙ unwrapped state

  -- A connection request that succeeds gives an object that holds the private data that came with it.
  -- As long as no other request has the same identifier, whatever else happens, the events that report
  -- the connection as established and as ended give that same object, and after the latter it is not
  -- among the active connections.
  pub events_find_connection :
      (id c : ℕ) (private_data : Option ℕ) (evs : List CmEvent) (p p1 p2 : Passive cm)
      → poll_events cm (connect_request id private_data) p ≡ some (some c, requested, p1)
      → any_requests id evs ≡ false
      → poll_all cm evs p1 ≡ some p2
      → (conn : Connection) × (get_elem? p2.connections c ≡ some conn)
        × (conn.private_data ≡ word_of private_data)
        × (poll_events cm (has_established id) p2 ≡ some (some c, established, p2))
        × ((p3 : Passive cm) × (poll_events cm (has_disconnected id) p2
              ≡ some (some c, disconnected, p3))
            × (is_active c p3.active ≡ false)
            × (p3.connections ≡ p2.connections))
  unfolding poll_events
  events_find_connection id c private_data evs p p1 p2 asked others done =
      let made = request_of id c private_data p p1 asked in
      let (conn, word, leads) = requested-Leads id c private_data p p1 made in
      let leads' = poll_all-Leads id c conn evs p1 leads others done in
      (
        conn,
        leads'.object,
        word,
        rw leads'.context refl,
        (
          record p2 { active = without c p2.active },
          disconnected_known cm id c p2 leads'.context,
          is_active-without c p2.active,
          refl,
        ),
      )
