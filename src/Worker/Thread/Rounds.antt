-- ===== src/Worker/Thread/Rounds.antt =====
-- What the rounds of the polling loops keep: server/executor/fast_executor.cpp.
use r_faa_s.Common.{
  ℕ, zero, suc, ◌+◌, ◌≡◌, refl, sym, ◌∙◌, ◌≢◌, ◌⊎◌, inl, inr, Option, none, some, List, [], ◌∷◌,
  get_elem?, ◌==◌, Bool-cases, Option-cases, arith, subst,
}
use r_faa_s.Rdmalib.Queue.{Wc, Polled, RecvQueue, poll, refill, wcs_of}
use r_faa_s.Worker.Thread.{
  Platform, Thread, Round, again, leave, PollingState, hot, hot_always, warm, warm_always, work,
  hot_serve, hot_batch, warm_batch, hot_verify, hot_after, hot_round, warm_round, warm_after,
  polled as polled_of, refilled, is_nonzero,
}
use r_faa_s.Worker.Thread.Batches.{hot_batch-end, hot_batch-skip, hot_batch-serve}

some_eq {ℓ} : {A : Type ℓ} {x y : A} → some x ≡ some y → y ≡ x
some_eq e = grind arith

module _ (p : Platform) where
  warm_after-cases :
      (s : PollingState) (t : Thread p)
      → t.polling_state ≡ s
      → (warm_after p s t ≡ again 0 0 t)
        ⊎ ((t.polling_state ≢ warm_always)
            × (warm_after p s t ≡ leave (record t { polling_state = hot })))
  warm_after-cases hot t e = inr (λ z. cc, refl)
  warm_after-cases hot_always t e = inr (λ z. cc, refl)
  warm_after-cases warm t e = inr (λ z. cc, refl)
  warm_after-cases warm_always t e = inl refl

  -- What holds of a thread and is kept by serving one completion is kept by a whole batch.
  module _ (P : Thread p → Type 0) where
    hot_batch-keeps :
        ((wc : Wc) (start : ℕ) (t : Thread p) → P t → P (hot_serve p wc start t).0)
        → (fuel : ℕ) (wcs : List Wc) (i start : ℕ) (t : Thread p) → P t
        → {t' : Thread p} {end : ℕ} → hot_batch p fuel wcs i start t ≡ some (t', end)
        → P t'
    unfolding hot_batch
    hot_batch-keeps serve zero wcs i start t holds e = absurd (cc)
    hot_batch-keeps serve (suc fuel) wcs i start t holds e = elim (Option-cases (get_elem? wcs i)) [
      | inl out ↦ subst P (grind (arith, hot_batch-end p fuel wcs i start t out, e)) holds
      | inr (w, here) ↦ elim (Bool-cases (w.status == 0)) [
        | inl z ↦
            hot_batch-keeps serve fuel wcs 1 (hot_serve p w start t).1 (hot_serve p w start t).0
              (serve w start t holds) (sym (hot_batch-serve p fuel wcs i start t here z) ∙ e)
        | inr z ↦
            hot_batch-keeps serve fuel wcs (i + 1) start t holds
              (sym (hot_batch-skip p fuel wcs i start t here z) ∙ e)
      ]
    ]

    warm_batch-keeps :
        ((wc : Wc) (t : Thread p)
          → P t
          → P (record (work p wc t).0 { repetitions = t.repetitions + 1 }))
        → (wcs : List Wc) (t : Thread p) → P t
        → P (warm_batch p wcs t)
    unfolding warm_batch
    warm_batch-keeps serve [] t holds = holds
    warm_batch-keeps serve (wc ∷ wcs) t holds = elim (Bool-cases (wc.status == 0)) [
      | inl z ↦ rw (z, warm_batch) (warm_batch-keeps serve wcs _ (serve wc t holds))
      | inr z ↦ rw (z, warm_batch) (warm_batch-keeps serve wcs t holds)
    ]

    hot_after-some :
        (timeout i : ℕ) (b : Option (Thread p × ℕ)) {o : Round p}
        → hot_after p timeout i b ≡ some o
        → (t' : Thread p) × (start' : ℕ) × (b ≡ some (t', start'))
          × (o ≡ hot_verify p timeout i start' (refilled p t'))
    hot_after-some timeout i none e = absurd (cc)
    hot_after-some timeout i (some (t', start')) e = (t', start', refl, some_eq e)

    module _
        (frame : (q : RecvQueue) (d : p.verbs.Device) (t : Thread p)
          → P t
          → P (record t { receive = q; device = d })) where
      refilled-keeps : (t : Thread p) → P t → P (refilled p t)
      refilled-keeps t holds =
          let (posted, q, d) = refill p.verbs t.receive t.device in frame q d t holds

      polled-keeps : (r : Polled) (t : Thread p) → P t → P (polled_of p r t)
      polled-keeps r t holds = frame (poll r t.receive).0 t.device t holds

      -- A round of hot polling ends with the verification of a thread of which this holds.
      pub hot_round-keeps :
          ((wc : Wc) (start : ℕ) (t : Thread p) → P t → P (hot_serve p wc start t).0)
          → (fuel timeout i start : ℕ) (r : Polled) (t : Thread p) → P t
          → (o : Round p) → hot_round p fuel timeout r i start t ≡ some o
          → (t' : Thread p) × (start' : ℕ) × P t' × (o ≡ hot_verify p timeout i start' t')
      unfolding hot_round
      hot_round-keeps serve fuel timeout i start r t holds o e =
          elim (Bool-cases (is_nonzero p r)) [
            | inl z ↦
                let b = hot_batch p fuel (wcs_of r) 0 start (polled_of p r t) in
                let (t', start', done, o_eq) =
                  hot_after-some timeout i b (sym (rw (z, hot_round) refl) ∙ e) in
                (
                  refilled p t',
                  start',
                  refilled-keeps t' (
                      hot_batch-keeps serve fuel (wcs_of r) 0 start (polled_of p r t)
                        (polled-keeps r t holds) done),
                  o_eq,
                )
            | inr z ↦ (
              polled_of p r t,
              start,
              polled-keeps r t holds,
              some_eq (sym (rw (z, hot_round) refl) ∙ e),
            )
          ]

      -- A round of warm polling that does not go on in the same way leaves in the hot state.
      pub warm_round-keeps :
          ((wc : Wc) (t : Thread p)
            → P t
            → P (record (work p wc t).0 { repetitions = t.repetitions + 1 }))
          → (r : Polled) (t : Thread p) → P t
          → (t' : Thread p) × P t'
            × ((warm_round p r t ≡ again 0 0 t')
                ⊎ ((t'.polling_state ≢ warm_always)
                    × (warm_round p r t ≡ leave (record t' { polling_state = hot }))))
      unfolding warm_round
      warm_round-keeps serve r t holds = elim (Bool-cases (is_nonzero p r)) [
        | inl z ↦
            let t' = refilled p (warm_batch p (wcs_of r) (polled_of p r t)) in
            (
              t',
              refilled-keeps (warm_batch p (wcs_of r) (polled_of p r t))
                  (warm_batch-keeps serve (wcs_of r) (polled_of p r t) (polled-keeps r t holds)),
              rw (z, warm_round) (warm_after-cases t'.polling_state t' refl),
            )
        | inr z ↦ (polled_of p r t, polled-keeps r t holds, rw (z, warm_round) (inl refl))
      ]
