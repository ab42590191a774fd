-- ===== src/ResourceManager/System/Dangling.antt =====
-- A client that asks for cores and leaves within one round: server/resource_manager/manager.cpp,
-- `process_clients`.
use r_faa_s.Common.{
  ==_iff, find-assign_self, ℕ, ◌≡◌, refl, sym, ap, subst, ◌∙◌, inl, inr, Bool, true, false, Option,
  none, some, List, [], ◌∷◌, ◌++◌, nat_eq, find, get_elem?, ◌==◌, ◌>>=◌, if◌then◌else◌, arith,
  Bool-cases, Option-cases, bind_inv, some_inj,
}
use r_faa_s.Common.Int.{pos, ltb_ℤ}
use r_faa_s.Rdmalib.Queue.{Wc, Verbs}
use r_faa_s.Rdmalib.Listener.{ConnectionManager}
use r_faa_s.ResourceManager.Executor.{WeakPtr}
use r_faa_s.ResourceManager.Executors.{deref}
use r_faa_s.ResourceManager.Db.{Db, LeaseResponse, open_lease}
use r_faa_s.ResourceManager.Manager.{
  Manager, Client, Request, answer, consumed, handle_client_message,
}
use r_faa_s.ResourceManager.Manager.Answers.{request_forgets, handled}
use r_faa_s.ResourceManager.System.{all_known, poll_sends}
use r_faa_s.ResourceManager.System.Rounds.{handle_requests}

module _ (v : Verbs) (cm : ConnectionManager) (fresh : v.Device) (recv_buf : ℕ) where
  abbrev waits : ℕ → List ℕ → Bool
  waits qp [] = false
  waits qp (q ∷ l) = if q == qp then true else waits qp l

  waits-append : (qp : ℕ) (l : List ℕ) → waits qp (l ++ qp ∷ []) ≡ true
  waits-append qp [] = ground arith
  waits-append qp (q ∷ l) = ground (arith, waits-append qp l)

  -- A client whose send waits to be polled, but which is gone.
  gone-unknown :
      (qp : ℕ) (l : List ℕ) (m : Manager v)
      → waits qp l ≡ true
      → find qp m.clients ≡ none
      → all_known v cm fresh recv_buf l m ≡ false
  gone-unknown qp [] m w gone = absurd (cc)
  gone-unknown qp (q ∷ l) m w gone = elim (Bool-cases (q == qp)) [
    | inl same ↦
        let gone' = ap (λ i. find i m.clients) ((==_iff q qp).0 same) ∙ gone in
        rw (gone', all_known) refl
    | inr other ↦ elim (Option-cases (find q m.clients)) [
      | inl e ↦ rw (e, all_known) refl
      | inr (c, e) ↦ rw (e, all_known) (gone-unknown qp l m (ground (arith, other)) gone)
    ]
  ]

  poll_sends-gone :
      (qp : ℕ) (m : Manager v)
      → waits qp m.poll_send ≡ true
      → find qp m.clients ≡ none
      → poll_sends v cm fresh recv_buf m ≡ none
  unfolding poll_sends
  poll_sends-gone qp m w gone = rw (gone-unknown qp m.poll_send m w gone) refl

  -- What an answer leaves behind.
  record Answered (qp : ℕ) (client : Client) (m m' : Manager v) : Type 0 where
    response : LeaseResponse
    remembered : find qp m'.clients ≡ some (record client { response = response })
    waiting : m'.poll_send ≡ m.poll_send ++ qp ∷ []

  answer-Answered :
      (qp : ℕ) (client : Client) (rq : Request) (o : Option ℕ × LeaseResponse × Db) (m : Manager v)
      {m' : Manager v}
      → answer v qp client rq o m ≡ some m'
      → Answered qp client m m'
  unfolding answer
  answer-Answered qp client rq (none, response, db) m h = record {
    response = response;
    remembered = ap (λ x. find qp x.clients) (sym (some_inj h)) ∙ find-assign_self qp _ m.clients;
    waiting = ap (λ x. x.poll_send) (sym (some_inj h));
  }
  answer-Answered qp client rq (some r, response, db) m h =
      let (exec, here, h1) = bind_inv (deref db.executors r) h in
      let (conn, c, h2) = bind_inv exec.connection h1 in
      record {
        response = response;
        remembered =
            ap (λ x. find qp x.clients) (sym (some_inj h2)) ∙ find-assign_self qp _ m.clients;
        waiting = ap (λ x. x.poll_send) (sym (some_inj h2));
      }

  consumed-Answered :
      (qp : ℕ) (client : Client) (m m1 : Manager v)
      → Answered qp client m m1
      → Answered qp client m (consumed v qp m1)
  unfolding consumed
  consumed-Answered qp client m m1 a = elim (Option-cases (find qp m1.links)) [
    | inl e ↦ rw (e, consumed) a
    | inr (l, e) ↦
        rw (e, consumed)
          (record { response = a.response; remembered = a.remembered; waiting = a.waiting })
  ]

  -- If a client asks for cores and then, in a message that the same round handles right behind, for no
  -- positive number of them, then the round has no defined result: the client is forgotten, and its
  -- pointer is read when the sends are polled.
  pub departed_client_dangles :
      (d d' : WeakPtr) (wc wc' : Wc) (client : Client) (rq rq' : Request) (m : Manager v)
      → wc.status ≡ 0
      → wc'.status ≡ 0
      → wc'.qp_num ≡ wc.qp_num
      → find wc.qp_num m.clients ≡ some client
      → get_elem? client.allocation_requests wc.wr_id ≡ some rq
      → get_elem? client.allocation_requests wc'.wr_id ≡ some rq'
      → ltb_ℤ (pos 0) rq.cores ≡ true
      → ltb_ℤ (pos 0) rq'.cores ≡ false
      → (handle_requests v cm fresh recv_buf ((d, wc) ∷ (d', wc') ∷ []) m
          >>= poll_sends v cm fresh recv_buf)
        ≡ none
  unfolding handle_requests
  departed_client_dangles d d' wc wc' client rq rq' m good good' same known slot slot' asks leaves =
      elim (Option-cases (handle_client_message v d wc m)) [
        | inl e ↦ rw (e, handle_requests) refl
        | inr (m1, e) ↦
            let lease = open_lease rq.cores rq.memory d client.response m.db in
            let (m0, answered, done) =
              bind_inv (answer v wc.qp_num client rq lease m)
                (sym (handled v d wc m client rq good known slot asks) ∙ e) in
            let a = subst (Answered wc.qp_num client m) (some_inj done) (
              consumed-Answered wc.qp_num client m m0
                (answer-Answered wc.qp_num client rq lease m answered)) in
            let (m2, forgot, gone, unlinked, db, sent, noted) =
              request_forgets v d' wc' m1 (record client { response = a.response }) rq' good'
                (ap (λ q. find q m1.clients) same ∙ a.remembered) slot' leaves in
            rw (e, forgot, handle_requests)
              (poll_sends-gone wc.qp_num m2
                (rw (noted, a.waiting) (waits-append wc.qp_num m.poll_send))
                (ap (λ q. find q m2.clients) (sym same) ∙ gone))
      ]
