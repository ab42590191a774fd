-- ===== src/ResourceManager/System/Sound.antt =====
-- What is kept of every state of the resource manager: server/resource_manager/manager.cpp.
use r_faa_s.Common.{
  ℕ, ◌≡◌, refl, sym, subst, ◌⊎◌, inl, inr, Option, none, some, List, [], ◌∷◌, ◌++◌, nat_eq,
  some_inj,
}
use r_faa_s.Common.Int.{pos}
use r_faa_s.Rdmalib.Queue.{Verbs, Link}
use r_faa_s.Rdmalib.Listener.{ConnectionManager}
use r_faa_s.ResourceManager.Executor.{Executor}
use r_faa_s.ResourceManager.Executors.Laws.{IsValid, registry-IsValid}
use r_faa_s.ResourceManager.Executors.Conns.{Knows, Shrinks, connect_executor-Knows}
use r_faa_s.ResourceManager.Manager.{
  Manager, Client, handle_executor_connection, handle_client_connection,
}
use r_faa_s.ResourceManager.Manager.Conns.{registry, disconnection-Shrinks}
use r_faa_s.ResourceManager.System.{
  System, Entry, connect, disconnect, handle_executor_entry, handle_client_entry,
  take_executor_entry, take_client_entry, with_manager,
}
use r_faa_s.ResourceManager.System.Admitting.{Admitted}

module _ (v : Verbs) (cm : ConnectionManager) (fresh : v.Device) (recv_buf : ℕ) where
  abbrev S : Type 0
  S = System v cm fresh recv_buf

  -- A connection that is still to be taken from a queue.
  pub data Queued {A : Type 0} (qp : ℕ) : List (Entry v cm fresh recv_buf A) → Type 0 where
    first :
        {l : Link v} {a : A} {es : List (Entry v cm fresh recv_buf A)}
        → Queued qp (connect qp l a ∷ es)
    later :
        {e : Entry v cm fresh recv_buf A} {es : List (Entry v cm fresh recv_buf A)}
        → Queued qp es
        → Queued qp (e ∷ es)

  -- The manager's secret is the given one, its registry is well formed, and every connection that it
  -- knows or is about to learn of is admitted.
  pub record Sound (mine : ℕ) (s : S) : Type 0 where
    pub same : s.secret ≡ mine
    pub valid : IsValid (registry v s.manager)
    pub known : (qp : ℕ) → Knows qp (registry v s.manager) → Admitted s.passive.connections mine qp
    pub queued : (qp : ℕ) → Queued qp s.executor_queue → Admitted s.passive.connections mine qp

  pub Queued-append :
      {A : Type 0} (qp : ℕ) (es : List (Entry v cm fresh recv_buf A))
      (e : Entry v cm fresh recv_buf A)
      → Queued qp (es ++ e ∷ [])
      → Queued qp es ⊎ Queued qp (e ∷ [])
  Queued-append qp [] e h = inr h
  Queued-append qp (x ∷ es) e first = inl first
  Queued-append qp (x ∷ es) e (later h) = elim (Queued-append qp es e h) [
    | inl i ↦ inl (later i)
    | inr i ↦ inr i
  ]

  pub Queued-connect :
      {A : Type 0} (qp q : ℕ) (l : Link v) (a : A) → Queued qp (connect q l a ∷ []) → q ≡ qp
  Queued-connect qp q l a first = refl
  Queued-connect qp q l a (later h) = elim h [ ]

  pub Queued-disconnect :
      {A : Type 0} (qp : ℕ) (es : List (Entry v cm fresh recv_buf A)) (q : ℕ)
      → Queued qp (es ++ disconnect q ∷ [])
      → Queued qp es
  Queued-disconnect qp [] q (later h) = elim h [ ]
  Queued-disconnect qp (x ∷ es) q first = first
  Queued-disconnect qp (x ∷ es) q (later h) = later (Queued-disconnect qp es q h)

  -- The manager changes, and its registry gets no new connection.
  pub manager-Sound :
      {mine : ℕ} (s : S) (m : Manager v)
      → Sound mine s
      → Shrinks (registry v s.manager) (registry v m)
      → Sound mine (record s { manager = m })
  manager-Sound {mine} s m h shrinks = record {
    same = h.same;
    valid = shrinks.valid h.valid;
    known = λ qp k. h.known qp (shrinks.old qp k);
    queued = h.queued;
  }

  pub with_manager-Sound :
      {mine : ℕ} (s t : S) (o : Option (Manager v))
      → Sound mine s
      → ((m : Manager v) → o ≡ some m → Shrinks (registry v s.manager) (registry v m))
      → with_manager v cm fresh recv_buf s o ≡ some t
      → Sound mine t
  with_manager-Sound {mine} s t none h shrinks e = absurd (cc)
  with_manager-Sound {mine} s t (some m) h shrinks e =
      subst (Sound mine) (some_inj e) (manager-Sound s m h (shrinks m refl))

  -- The thread of the executors takes an entry.
  pub take_executor_entry-Sound :
      {mine : ℕ} (es : List (Entry v cm fresh recv_buf Executor)) (s : S)
      → s.executor_queue ≡ es
      → Sound mine s
      → Sound mine (take_executor_entry v cm fresh recv_buf s)
  unfolding take_executor_entry handle_executor_entry
  take_executor_entry-Sound {mine} [] s e h = rw (e, take_executor_entry) h
  take_executor_entry-Sound {mine} (disconnect qp ∷ es) s e h =
      rw (e, take_executor_entry)
        (let shrinks = (disconnection-Shrinks v qp s.manager).0 in
          record {
            same = h.same;
            valid = shrinks.valid h.valid;
            known = λ q k. h.known q (shrinks.old q k);
            queued = λ q k. h.queued q (subst (Queued q) (sym e) (later k));
          })
  take_executor_entry-Sound {mine} (connect qp link exec ∷ es) s e h =
      rw (e, take_executor_entry)
        (record {
          same = h.same;
          valid =
              unfold handle_executor_connection in
              (registry-IsValid qp exec [] [] (pos 0) (pos 0) (pos 0) (registry v s.manager)
                h.valid).1;
          known = λ q k.
              unfold handle_executor_connection in
              elim (connect_executor-Knows qp q exec (registry v s.manager) k) [
                | inl same ↦ h.queued q (
                    subst (Queued q) (sym e)
                      (subst (λ x. Queued x (connect qp link exec ∷ es)) same first))
                | inr before ↦ h.known q before
              ];
          queued = λ q k. h.queued q (subst (Queued q) (sym e) (later k));
        })

  -- The thread of the clients takes an entry.
  pub take_client_entry-Sound :
      {mine : ℕ} (es : List (Entry v cm fresh recv_buf Client)) (s : S)
      → s.client_queue ≡ es
      → Sound mine s
      → Sound mine (take_client_entry v cm fresh recv_buf s)
  unfolding take_client_entry handle_client_entry
  take_client_entry-Sound {mine} [] s e h = rw (e, take_client_entry) h
  take_client_entry-Sound {mine} (disconnect qp ∷ es) s e h =
      rw (e, take_client_entry)
        (let shrinks = (disconnection-Shrinks v qp s.manager).1 in
          record {
            same = h.same;
            valid = shrinks.valid h.valid;
            known = λ q k. h.known q (shrinks.old q k);
            queued = h.queued;
          })
  take_client_entry-Sound {mine} (connect qp link client ∷ es) s e h =
      rw (e, take_client_entry)
        (unfold handle_client_connection in
          record { same = h.same; valid = h.valid; known = h.known; queued = h.queued })
