-- ===== src/Worker/Thread/Polling.antt =====
-- The rounds of the polling loops of server/executor/fast_executor.cpp.
use r_faa_s.Common.{
  ℕ, ◌+◌, ◌≡◌, refl, ◌≢◌, Bool, true, false, ◌⊎◌, inl, inr, some, [], ◌∷◌, ◌==◌, Bool-cases, leb,
  ◌%◌, ◌^◌, ◌&&◌, not,
}
use r_faa_s.Rdmalib.Queue.{Wc, Polled}
use r_faa_s.Worker.Accounting.{
  Accounting, Counters, Event, executed, polled, report_execution, report_polling, account,
  account_at, update_polling_time,
}
use r_faa_s.Worker.Accounting.Conservation.{Conserved, account_at-Conserved}
use r_faa_s.Worker.Thread.{
  Platform, Thread, Round, again, leave, PollingState, hot, hot_always, warm, warm_always,
  is_hot_always, work, hot_serve, hot_verify, hot_due, hot_round, warm_round,
  hot_polling_verification_period, elapsed,
}
use r_faa_s.Worker.Thread.Rounds.{hot_round-keeps, warm_round-keeps}

not_always : (s : PollingState) (b : Bool) → (not (is_hot_always s) && b) ≡ true → s ≢ hot_always
not_always hot b e z = cc
not_always hot_always b e z = cc
not_always warm b e z = cc
not_always warm_always b e z = cc

module _ (p : Platform) where
  -- The accounting of a thread that is alone with its counters.
  abbrev pub Billed : Thread p → Type 0
  Billed t = Conserved (t.accounting ∷ []) t.counters

  account-Conserved :
      (e : Event) (a : Accounting) (c : Counters)
      → Conserved (a ∷ []) c
      → Conserved ((account e a c).0 ∷ []) (account e a c).1
  unfolding account_at
  account-Conserved e a c v = account_at-Conserved 0 e (a ∷ []) c v

  work-Billed : (wc : Wc) (t : Thread p) → Billed t → Billed (work p wc t).0
  unfolding work account
  work-Billed wc t v =
      let d = elapsed (p.clock t.readings) (p.clock (t.readings + 1)) in
      let once = account (executed d) t.accounting t.counters in
      account-Conserved (report_execution false) once.0 once.1
        (account-Conserved (executed d) t.accounting t.counters v)

  hot_serve-Billed :
      (wc : Wc) (start : ℕ) (t : Thread p) → Billed t → Billed (hot_serve p wc start t).0
  unfolding hot_serve account
  hot_serve-Billed wc start t v =
      let now = p.clock t.readings in
      let t' = (work p wc (record t { readings = t.readings + 1 })).0 in
      account-Conserved (polled (elapsed start now)) t'.accounting t'.counters
        (work-Billed wc (record t { readings = t.readings + 1 }) v)

  -- The thread at the end of a round.
  abbrev pub thread_of : Round p → Thread p
  thread_of (again i start t) = t
  thread_of (leave t) = t

  hot_due-Billed :
      (timeout start : ℕ) (t : Thread p) → Billed t → Billed (thread_of (hot_due p timeout start t))
  unfolding hot_due account
  hot_due-Billed timeout start t v =
      let d = elapsed start (p.clock t.readings) in
      let once = account (polled d) t.accounting t.counters in
      let twice =
        account-Conserved (report_polling false) once.0 once.1
          (account-Conserved (polled d) t.accounting t.counters v) in
      elim (Bool-cases (not (is_hot_always t.polling_state) && leb timeout (d % 2 ^ 32))) [
        | inl e ↦ rw (e, hot_due) twice
        | inr e ↦ rw (e, hot_due) twice
      ]

  hot_verify-Billed :
      (timeout i start : ℕ) (t : Thread p)
      → Billed t
      → Billed (thread_of (hot_verify p timeout i start t))
  unfolding hot_verify
  hot_verify-Billed timeout i start t v =
      elim (Bool-cases (i + 1 == hot_polling_verification_period)) [
        | inl e ↦ rw (e, hot_verify) (hot_due-Billed timeout start t v)
        | inr e ↦ rw (e, hot_verify) v
      ]

  -- Every round of hot and of warm polling keeps the thread's times in balance with the manager's
  -- counters: what is reported and what is held back is what was measured.
  pub round-Billed :
      (fuel timeout i start : ℕ) (r : Polled) (t : Thread p)
      → Billed t
      → ((o : Round p) → hot_round p fuel timeout r i start t ≡ some o → Billed (thread_of o))
        × Billed (thread_of (warm_round p r t))
  unfolding hot_round warm_round
  round-Billed fuel timeout i start r t v =
      let (t', holds, cases) =
        warm_round-keeps p Billed (λ q d t' h. h) (λ wc t' h. work-Billed wc t' h) r t v in
      (
        (λ o e.
            let (u, start', kept, e') =
              hot_round-keeps p Billed (λ q d t' h. h) hot_serve-Billed fuel timeout i start r t v o
                e in
            rw e' (hot_verify-Billed timeout i start' u kept)),
        elim cases [ inl e ↦ rw e holds | inr (ne, e) ↦ rw e holds ],
      )

  hot_due-state :
      (timeout start : ℕ) (t : Thread p)
      → ((thread_of (hot_due p timeout start t)).polling_state ≡ t.polling_state)
        ⊎ ((t.polling_state ≢ hot_always)
            × ((thread_of (hot_due p timeout start t)).polling_state ≡ warm))
  unfolding hot_due update_polling_time
  hot_due-state timeout start t =
      let d = elapsed start (p.clock t.readings) in
      elim (Bool-cases (not (is_hot_always t.polling_state) && leb timeout (d % 2 ^ 32))) [
        | inl e ↦ rw (e, hot_due) (inr (not_always t.polling_state _ e, refl))
        | inr e ↦ rw (e, hot_due) (inl refl)
      ]

  hot_verify-state :
      (timeout i start : ℕ) (t : Thread p)
      → ((thread_of (hot_verify p timeout i start t)).polling_state ≡ t.polling_state)
        ⊎ ((t.polling_state ≢ hot_always)
            × ((thread_of (hot_verify p timeout i start t)).polling_state ≡ warm))
  unfolding hot_verify
  hot_verify-state timeout i start t =
      elim (Bool-cases (i + 1 == hot_polling_verification_period)) [
        | inl e ↦ rw (e, hot_verify) (hot_due-state timeout start t)
        | inr e ↦ rw (e, hot_verify) (inl refl)
      ]

  -- The states in which polling never ends are kept: the round is followed by another one. Otherwise
  -- a round of warm polling with completions leaves for hot polling, and hot polling is left only for
  -- warm polling.
  pub polling_transitions :
      (fuel timeout i start : ℕ) (r : Polled) (t : Thread p)
      → ((o : Round p)
          → hot_round p fuel timeout r i start t ≡ some o
          → ((thread_of o).polling_state ≡ t.polling_state)
            ⊎ ((t.polling_state ≢ hot_always) × ((thread_of o).polling_state ≡ warm)))
        × (((thread_of (warm_round p r t)).polling_state ≡ t.polling_state)
            ⊎ ((t.polling_state ≢ warm_always)
                × ((thread_of (warm_round p r t)).polling_state ≡ hot)))
  unfolding work hot_serve
  polling_transitions fuel timeout i start r t =
      let P : Thread p → Type 0 = λ u. u.polling_state ≡ t.polling_state in
      let (t', same, cases) = warm_round-keeps p P (λ q d u h. h) (λ wc u h. h) r t refl in
      (
        (λ o e.
            let (u, start', kept, e') =
              hot_round-keeps p P (λ q d u h. h) (λ wc s u h. h) fuel timeout i start r t refl o
                e in
            rw e' (rw kept at (hot_verify-state timeout i start' u))),
        elim cases [ inl e ↦ rw e (inl same) | inr (ne, e) ↦ rw e (inr (rw same at ne, refl)) ],
      )
