-- ===== src/Rdmalib/Listener/Sharing.antt =====
-- Connections of one key share a completion queue: rdmalib/lib/rdmalib.cpp, `poll_events`.
use r_faa_s.Common.{
  ℕ, zero, suc, some_inj, bind_inv, le_or_lt, ==_iff, ◌≤◌, ◌≡◌, refl, sym, ap, subst, ◌∙◌, inl, inr,
  Option, none, some, List, [], ◌∷◌, ◌++◌, Map, nat_eq, find, assign, get_elem?, length, arith,
  ◌>>=◌, Option-cases, Bool-cases, find-assign, get_elem?-append_left, get_elem?-lt, get_elem?-some,
  ◌==◌,
}
use r_faa_s.Rdmalib.PrivateData.{key}
use r_faa_s.Rdmalib.Listener.{
  ConnectionManager, QueuePair, Connection, ConnectionStatus, Shared, CmEvent, connect_request,
  has_established, has_disconnected, unexpected, device_removal, Passive, attr_of, filled,
  queue_key, shared_queue, connected, request, poll_events, without,
}
use r_faa_s.Rdmalib.Listener.Laws.{
  request-Requested, poll_all, disconnected_unknown, disconnected_known,
}

last_of {ℓ} :
    {A : Type ℓ} (l : List A) (a : A) (i : ℕ) {b : A}
    → length l ≤ i
    → get_elem? (l ++ a ∷ []) i ≡ some b
    → b ≡ a
last_of [] a zero h e = some_inj (sym e)
last_of [] a (suc i) h e = absurd (cc)
last_of (x ∷ l) a zero h e = absurd (omega arith)
last_of (x ∷ l) a (suc i) h e = last_of l a i (omega arith) e

module _ (cm : ConnectionManager) where
  -- What every event leaves alone, and what a connection that it adds is like, where the queue that the
  -- connections of a key share is there.
  record Stepped (k : ℕ) (s : Shared) (cq : ℕ) (p p' : Passive cm) : Type 0 where
    kept :
        (c : ℕ) {conn : Connection}
        → get_elem? p.connections c ≡ some conn
        → get_elem? p'.connections c ≡ some conn
    entry : find k p'.shared ≡ some s
    fresh :
        (c : ℕ) (conn : Connection)
        → length p.connections ≤ c
        → get_elem? p'.connections c ≡ some conn
        → key 8 8 16 conn.private_data ≡ some k
        → conn.qp.recv_cq ≡ cq

  same-Stepped :
      (k : ℕ) (s : Shared) (cq : ℕ) (p p' : Passive cm)
      → find k p.shared ≡ some s
      → p'.connections ≡ p.connections
      → p'.shared ≡ p.shared
      → Stepped k s cq p p'
  same-Stepped k s cq p p' e ec es = record {
    kept = λ c h. rw ec h;
    entry = rw es e;
    fresh = λ c conn h here keyed. absurd (
        omega
          (arith, get_elem?-lt p.connections c (subst (λ l. get_elem? l c ≡ some conn) ec here)));
  }

  filled_self : (q : QueuePair) (s : Shared) {cq : ℕ} → s.recv_cq ≡ some cq → filled q s ≡ s
  filled_self q s e = rw e refl

  -- An entry that has its queue stays as it is when a pair is created.
  refilled-entry :
      (k cq : ℕ) (s : Shared) (q : QueuePair) (chosen : Option ℕ) (t : Map ℕ Shared)
      → find k t ≡ some s
      → s.recv_cq ≡ some cq
      → find k (elim chosen [
        | none ↦ t
        | some j ↦ elim (find j t) [ none ↦ t | some s' ↦ assign j (filled q s') t ]
      ])
        ≡ some s
  refilled-entry k cq s q none t e h = e
  refilled-entry k cq s q (some j) t e h = elim (Option-cases (find j t)) [
    | inl gone ↦ rw gone e
    | inr (s', there) ↦
        rw (there, find-assign j k (filled q s') t)
          (elim (Bool-cases (j == k)) [
            | inl same ↦
                let here : s' ≡ s =
                  some_inj (sym there ∙ ap (λ i. find i t) ((==_iff j k).0 same) ∙ e) in
                rw (same, here, filled_self q s h) refl
            | inr other ↦ rw other e
          ])
  ]

  -- A request for the key whose queue is there takes that queue.
  attr-chosen :
      (k cq : ℕ) (s : Shared) (t : Map ℕ Shared)
      → find k t ≡ some s
      → s.recv_cq ≡ some cq
      → (attr_of (queue_key k t >>= λ j. find j t)).recv_cq ≡ some cq
  unfolding queue_key shared_queue
  attr-chosen k cq s t e h = rw (e, queue_key, e) h

  -- So does the pair that is created with it.
  created-recv_cq :
      (k cq : ℕ) (s : Shared) (p : Passive cm) (q : QueuePair)
      → find k p.shared ≡ some s
      → s.recv_cq ≡ some cq
      → (let attr = attr_of (queue_key k p.shared >>= λ j. find j p.shared) in
          (cm.create_qp attr.send_cq attr.recv_cq p.device).0 ≡ some q)
      → q.recv_cq ≡ cq
  created-recv_cq k cq s p q e h created =
      let attr = attr_of (queue_key k p.shared >>= λ j. find j p.shared) in
      cm.create_qp-recv_cq attr.send_cq cq p.device (
        subst (λ a. (cm.create_qp attr.send_cq a p.device).0 ≡ some q)
          (attr-chosen k cq s p.shared e h) created)

  request-Stepped :
      (k : ℕ) (s : Shared) (cq id : ℕ) (private_data : Option ℕ) (p : Passive cm) {c : ℕ}
      {p' : Passive cm}
      → find k p.shared ≡ some s
      → s.recv_cq ≡ some cq
      → request cm id private_data p ≡ some (c, p')
      → Stepped k s cq p p'
  unfolding connected
  request-Stepped k s cq id private_data p {c} {p'} e h done =
      let r = request-Requested cm id private_data p done in
      let state = ap (λ x. x.1) r.result in
      record {
        kept = λ i there. rw state (get_elem?-append_left p.connections _ i there);
        entry = rw state (refilled-entry k cq s r.qp (queue_key r.k p.shared) p.shared e h);
        fresh = λ i conn new there keyed.
            let last =
              last_of p.connections _ i new
                (subst (λ x. get_elem? x.connections i ≡ some conn) state there) in
            let key_of =
              some_inj (sym r.keyed ∙ ap (λ x. key 8 8 16 x.private_data) (sym last) ∙ keyed) in
            ap (λ x. x.qp.recv_cq) last
            ∙ created-recv_cq k cq s p r.qp e h (
                subst
                  (λ j.
                    let attr = attr_of (queue_key j p.shared >>= λ j'. find j' p.shared) in
                    (cm.create_qp attr.send_cq attr.recv_cq p.device).0 ≡ some r.qp)
                  key_of r.created);
      }

  poll_events-Stepped :
      (k : ℕ) (s : Shared) (cq : ℕ) (ev : CmEvent) (p : Passive cm)
      {r : Option ℕ × ConnectionStatus × Passive cm}
      → find k p.shared ≡ some s
      → s.recv_cq ≡ some cq
      → poll_events cm ev p ≡ some r
      → Stepped k s cq p r.2
  unfolding poll_events
  poll_events-Stepped k s cq (connect_request id private_data) p {r} e h done =
      let (r, result, state) = bind_inv (request cm id private_data p) done in
      subst (λ x. Stepped k s cq p x.2) (some_inj state)
        (request-Stepped k s cq id private_data p e h result)
  poll_events-Stepped k s cq (has_established id) p {r} e h done =
      subst (λ x. Stepped k s cq p x.2) (some_inj done) (same-Stepped k s cq p p e refl refl)
  poll_events-Stepped k s cq (has_disconnected id) p {r} e h done =
      elim (Option-cases (find id p.contexts)) [
        | inl gone ↦
            subst (λ x. Stepped k s cq p x.2)
              (some_inj (sym (disconnected_unknown cm id p gone) ∙ done))
              (same-Stepped k s cq p p e refl refl)
        | inr (c, there) ↦
            subst (λ x. Stepped k s cq p x.2)
              (some_inj (sym (disconnected_known cm id c p there) ∙ done))
              (same-Stepped k s cq p (record p { active = without c p.active }) e refl refl)
      ]
  poll_events-Stepped k s cq unexpected p {r} e h done =
      subst (λ x. Stepped k s cq p x.2) (some_inj done) (same-Stepped k s cq p p e refl refl)
  poll_events-Stepped k s cq device_removal p {r} e h done = absurd (cc)

  poll_all-kept :
      (k cq : ℕ) (s : Shared) (evs : List CmEvent) (p p' : Passive cm) (c : ℕ) {conn : Connection}
      → find k p.shared ≡ some s
      → s.recv_cq ≡ some cq
      → poll_all cm evs p ≡ some p'
      → get_elem? p.connections c ≡ some conn
      → get_elem? p'.connections c ≡ some conn
  unfolding poll_all
  poll_all-kept k cq s [] p p' c e h done there = rw (sym (some_inj done)) there
  poll_all-kept k cq s (ev ∷ evs) p p' c e h done there =
      let (r, first, rest) = bind_inv (poll_events cm ev p) done in
      let st = poll_events-Stepped k s cq ev p e h first in
      poll_all-kept k cq s evs r.2 p' c st.entry h rest (st.kept c there)

  -- Once the completion queue of a key is there, every connection with that key which is added later,
  -- whatever events come in between, receives through that one queue.
  pub key_shares_queue :
      (k cq : ℕ) (s : Shared) (evs : List CmEvent) (p p' : Passive cm) (c : ℕ) (conn : Connection)
      → find k p.shared ≡ some s
      → s.recv_cq ≡ some cq
      → poll_all cm evs p ≡ some p'
      → length p.connections ≤ c
      → get_elem? p'.connections c ≡ some conn
      → key 8 8 16 conn.private_data ≡ some k
      → conn.qp.recv_cq ≡ cq
  unfolding poll_all
  key_shares_queue k cq s [] p p' c conn e h done new there keyed = absurd (
      omega (
        arith,
        get_elem?-lt p'.connections c there,
        ap (λ x. length x.connections) (some_inj done),
      ))
  key_shares_queue k cq s (ev ∷ evs) p p' c conn e h done new there keyed =
      let (r, first, rest) = bind_inv (poll_events cm ev p) done in
      let st = poll_events-Stepped k s cq ev p e h first in
      elim (le_or_lt (length r.2.connections) c) [
        | inl later ↦ key_shares_queue k cq s evs r.2 p' c conn st.entry h rest later there keyed
        | inr now ↦
            let (conn', here) = get_elem?-some r.2.connections c now in
            let same =
              some_inj (sym there ∙ poll_all-kept k cq s evs r.2 p' c st.entry h rest here) in
            ap (λ x. x.qp.recv_cq) same
            ∙ st.fresh c conn' new here (ap (λ x. key 8 8 16 x.private_data) (sym same) ∙ keyed)
      ]
