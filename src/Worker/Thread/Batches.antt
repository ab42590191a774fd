-- ===== src/Worker/Thread/Batches.antt =====
-- The loops over the completions of one poll in server/executor/fast_executor.cpp.
use r_faa_s.Common.{
  append_nil, append_assoc, ℕ, zero, suc, ◌+◌, ◌≤◌, ◌<◌, ◌≡◌, refl, sym, ap, ◌∙◌, ◌≢◌, true, false,
  subst, inl, inr, none, some, List, [], ◌∷◌, ◌++◌, map, length, get_elem?, ◌==◌, Bool-cases, arith,
}
use r_faa_s.Rdmalib.Queue.{Wc}
use r_faa_s.Worker.Thread.{Platform, Thread, reply_of, work, hot_serve, hot_batch, warm_batch}

-- The completions of a poll that did not fail.
abbrev pub successes : List Wc → List Wc
successes [] = []
successes (wc ∷ wcs) = elim (wc.status == 0) [ true ↦ wc ∷ successes wcs | false ↦ successes wcs ]

reached :
    (wcs : List Wc) (i j : ℕ) {wc : Wc}
    → get_elem? wcs j ≡ some wc
    → i ≤ j
    → (here : Wc) × (get_elem? wcs i ≡ some here)
reached [] i j at le = absurd (cc)
reached (w ∷ wcs) zero j at le = (w, refl)
reached (w ∷ wcs) (suc i) zero at le = absurd (omega arith)
reached (w ∷ wcs) (suc i) (suc j) at le = reached wcs i j at (omega arith)

other :
    (wcs : List Wc) (i j : ℕ) (here wc : Wc)
    → get_elem? wcs i ≡ some here
    → get_elem? wcs j ≡ some wc
    → wc.status ≡ 0
    → (here.status == 0) ≡ false
    → i ≢ j
other wcs i j here wc e at ok z same = grind arith

after_first :
    (first : Wc) (rest : List Wc) (k : ℕ) → get_elem? (first ∷ rest) (1 + k) ≡ get_elem? rest k
after_first first rest k = let e : 1 + k ≡ suc k = omega arith in ap (get_elem? (first ∷ rest)) e

none_succeeds :
    (wc : Wc) (wcs : List Wc)
    → successes (wc ∷ wcs) ≡ []
    → ((wc.status == 0) ≡ false) × (successes wcs ≡ [])
none_succeeds wc wcs h = elim (Bool-cases (wc.status == 0)) [
  | inl e ↦ absurd (
      grind (
        arith,
        subst
            (λ b.
              elim b as (λ x. List Wc) [ true ↦ wc ∷ successes wcs | false ↦ successes wcs ] ≡ [])
            e h,
      ))
  | inr e ↦ (
    e,
    subst (λ b. elim b as (λ x. List Wc) [ true ↦ wc ∷ successes wcs | false ↦ successes wcs ] ≡ [])
        e h,
  )
]

module _ (p : Platform) where
  -- Warm polling answers the completions that succeeded, each one once and in their order.
  pub warm_batch_replies :
      (wcs : List Wc) (t : Thread p)
      → ((warm_batch p wcs t).replies ≡ t.replies ++ map (reply_of p) (successes wcs))
        × ((warm_batch p wcs t).repetitions ≡ t.repetitions + length (successes wcs))
  unfolding warm_batch work
  warm_batch_replies [] t = (sym (append_nil t.replies), omega arith)
  warm_batch_replies (wc ∷ wcs) t = elim (Bool-cases (wc.status == 0)) [
    | inl e ↦
        let next : Thread p = record (work p wc t).0 { repetitions = t.repetitions + 1 } in
        let ih = warm_batch_replies wcs next in
        rw (e, warm_batch, successes)
          (rw (ih.0, ih.1)
            (
              append_assoc t.replies (reply_of p wc ∷ []) (map (reply_of p) (successes wcs)),
              omega arith,
            ))
    | inr e ↦ rw (e, warm_batch, successes) (warm_batch_replies wcs t)
  ]

  -- The three ways of a step of the hot loop.
  module _ (fuel : ℕ) (wcs : List Wc) (i start : ℕ) (t : Thread p) where
    pub hot_batch-end :
        get_elem? wcs i ≡ none → hot_batch p (suc fuel) wcs i start t ≡ some (t, start)
    unfolding hot_batch
    hot_batch-end e = rw (e, hot_batch) refl

    pub hot_batch-skip :
        {w : Wc}
        → get_elem? wcs i ≡ some w
        → (w.status == 0) ≡ false
        → hot_batch p (suc fuel) wcs i start t ≡ hot_batch p fuel wcs (i + 1) start t
    unfolding hot_batch
    hot_batch-skip {w = w} e z = rw (e, hot_batch) (rw z refl)

    pub hot_batch-serve :
        {w : Wc}
        → get_elem? wcs i ≡ some w
        → (w.status == 0) ≡ true
        → let (t', end) = hot_serve p w start t in
          hot_batch p (suc fuel) wcs i start t ≡ hot_batch p fuel wcs 1 end t'
    unfolding hot_batch
    hot_batch-serve {w = w} e z = rw (e, hot_batch) (rw z refl)

  -- Hot polling never ends the loop over the completions of a poll when one after the first succeeded:
  -- every amount of fuel is too little.
  pub hot_batch_diverges :
      (fuel : ℕ) (wcs : List Wc) (i j : ℕ) (wc : Wc) (start : ℕ) (t : Thread p)
      → get_elem? wcs j ≡ some wc
      → wc.status ≡ 0
      → 1 ≤ j
      → i ≤ j
      → hot_batch p fuel wcs i start t ≡ none
  unfolding hot_batch
  hot_batch_diverges zero wcs i j wc start t at ok pos_j le = refl
  hot_batch_diverges (suc fuel) wcs i j wc start t at ok pos_j le =
      let (here, e) = reached wcs i j at le in
      elim (Bool-cases (here.status == 0)) [
        | inl z ↦
            hot_batch-serve fuel wcs i start t e z
            ∙ hot_batch_diverges fuel wcs 1 j wc (hot_serve p here start t).1
                (hot_serve p here start t).0 at ok pos_j pos_j
        | inr z ↦
            hot_batch-skip fuel wcs i start t e z
            ∙ hot_batch_diverges fuel wcs (i + 1) j wc start t at ok pos_j
                (omega (arith, other wcs i j here wc e at ok z))
      ]

  -- Completions that all failed are passed over, from any index on.
  skip :
      (rest wcs : List Wc) (fuel i start : ℕ) (t : Thread p)
      → ((k : ℕ) → get_elem? wcs (i + k) ≡ get_elem? rest k)
      → successes rest ≡ []
      → length rest < fuel
      → hot_batch p fuel wcs i start t ≡ some (t, start)
  unfolding hot_batch
  skip [] wcs zero i start t at bad enough = absurd (omega arith)
  skip [] wcs (suc fuel) i start t at bad enough =
      hot_batch-end fuel wcs i start t (subst (λ n. get_elem? wcs n ≡ none) (omega arith) (at 0))
  skip (w ∷ rest) wcs zero i start t at bad enough = absurd (omega arith)
  skip (w ∷ rest) wcs (suc fuel) i start t at bad enough =
      let (z, bad') = none_succeeds w rest bad in
      hot_batch-skip fuel wcs i start t (subst (λ n. get_elem? wcs n ≡ some w) (omega arith) (at 0))
        z
      ∙ skip rest wcs fuel (i + 1) start t
          (λ k. subst (λ n. get_elem? wcs n ≡ get_elem? rest k) (omega arith) (at (suc k))) bad'
          (omega arith)

  -- When only the first completion may have succeeded, hot polling ends with fuel for one step more
  -- than there are completions, and it has answered what warm polling answers.
  pub hot_batch_ends :
      (first : Wc) (rest : List Wc) (fuel start : ℕ) (t : Thread p)
      → successes rest ≡ []
      → length rest + 1 < fuel
      → (t' : Thread p) × (end : ℕ) × (hot_batch p fuel (first ∷ rest) 0 start t ≡ some (t', end))
        × (t'.replies ≡ (warm_batch p (first ∷ rest) t).replies)
        × (t'.repetitions ≡ (warm_batch p (first ∷ rest) t).repetitions)
  unfolding hot_serve work
  hot_batch_ends first rest zero start t bad enough = absurd (omega arith)
  hot_batch_ends first rest (suc fuel) start t bad enough = elim (Bool-cases (first.status == 0)) [
    | inl e ↦
        let (t', end) = hot_serve p first start t in
        let warm = warm_batch_replies (first ∷ rest) t in
        let s : successes (first ∷ rest) ≡ first ∷ [] =
          rw (e, successes) (ap (λ l. first ∷ l) bad) in
        (
          t',
          end,
          hot_batch-serve fuel (first ∷ rest) 0 start t refl e
              ∙ skip rest (first ∷ rest) fuel 1 end t' (after_first first rest) bad (omega arith),
          sym (warm.0 ∙ ap (λ l. t.replies ++ map (reply_of p) l) s),
          sym (warm.1 ∙ ap (λ l. t.repetitions + length l) s),
        )
    | inr e ↦
        let warm = warm_batch_replies (first ∷ rest) t in
        let s : successes (first ∷ rest) ≡ [] = rw (e, successes) bad in
        let plus_zero : t.repetitions + 0 ≡ t.repetitions = omega arith in
        (
          t,
          start,
          hot_batch-skip fuel (first ∷ rest) 0 start t refl e
              ∙ skip rest (first ∷ rest) fuel 1 start t (after_first first rest) bad (omega arith),
          sym (warm.0 ∙ ap (λ l. t.replies ++ map (reply_of p) l) s ∙ append_nil t.replies),
          sym (warm.1 ∙ ap (λ l. t.repetitions + length l) s ∙ plus_zero),
        )
  ]
