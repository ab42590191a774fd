-- ===== src/Client/Futures/Completion.antt =====
-- When the promise of an invocation is kept: rfaas/lib/executor.cpp, `poll_queue`.
use r_faa_s.Common.{
  ℕ, zero, suc, ◌≤◌, ◌≡◌, refl, sym, ap, ◌∙◌, true, false, inl, inr, none, some, List, [], ◌∷◌,
  nat_eq, find, assign, find-assign, arith, ◌==◌, ==_iff, ◌>>=◌, Bool-cases,
}
use r_faa_s.Common.Int.{pos, ◌-ℤ◌}
use r_faa_s.Client.Submission.{return_val, finished_invoc_id}
use r_faa_s.Client.Futures.{Future, Futures, answered_once, complete, complete_all}
use r_faa_s.Client.Futures.Counting.{
  count, count-other, count-same, missing, future-eq, after, after-other, after-more, after-last,
}

-- Every result is of an invocation that is waited for.
abbrev pub AllKnown : List ℕ → Futures → Type 0
AllKnown [] futures = Unit {0}
AllKnown (word ∷ words) futures =
    ((f : Future) × (find (finished_invoc_id word) futures ≡ some f)) × AllKnown words futures

find-other :
    (k id : ℕ) (g : Future) (futures : Futures)
    → (k == id) ≡ false
    → find id (assign k g futures) ≡ find id futures
find-other k id g futures e = find-assign k id g futures ∙ rw e refl

AllKnown-assign :
    (words : List ℕ) (k : ℕ) (g : Future) (futures : Futures)
    → AllKnown words futures
    → AllKnown words (assign k g futures)
AllKnown-assign [] k g futures known = tt
AllKnown-assign (word ∷ words) k g futures ((f, here), known) =
    let id = finished_invoc_id word in
    let rest = AllKnown-assign words k g futures known in
    elim (Bool-cases (k == id)) [
      | inl e ↦ ((g, find-assign k id g futures ∙ rw e refl), rest)
      | inr e ↦ ((f, find-other k id g futures e ∙ here), rest)
    ]

pub complete-known :
    (word : ℕ) (f : Future) (futures : Futures)
    → find (finished_invoc_id word) futures ≡ some f
    → complete word futures
      ≡ some (assign (finished_invoc_id word) (answered_once (return_val word) f) futures)
unfolding complete
complete-known word f futures e = rw (e, complete) refl

-- Results that belong to invocations that are waited for are all taken.
pub complete_all-known :
    (words : List ℕ) (futures : Futures)
    → AllKnown words futures
    → (futures' : Futures) × (complete_all words futures ≡ some futures')
unfolding complete_all
complete_all-known [] futures known = (futures, refl)
complete_all-known (word ∷ words) futures ((f, here), known) =
    let g = answered_once (return_val word) f in
    let k = finished_invoc_id word in
    let (futures', run) =
      complete_all-known words (assign k g futures) (AllKnown-assign words k g futures known) in
    (futures', rw (complete-known word f futures here) run)

-- One more answer, and the last one.
pub answered_once-more :
    (value n : ℕ)
    → (answered_once value (record { remaining = pos (suc (suc n)); value = none })
        ≡ record { remaining = pos (suc n); value = none })
      × (answered_once value (record { remaining = pos 1; value = none })
          ≡ record { remaining = pos 0; value = some value })
unfolding answered_once ◌-ℤ◌
answered_once-more value n =
    let less : pos (suc (suc n)) -ℤ pos 1 ≡ pos (suc n) = ground arith in
    (rw (less, answered_once) (ground arith), refl)

-- Results of other invocations leave the entry of this one.
untouched :
    (words : List ℕ) (futures : Futures) (id : ℕ)
    → AllKnown words futures
    → count id words ≡ 0
    → (futures' : Futures) × (complete_all words futures ≡ some futures')
      × (find id futures' ≡ find id futures)
unfolding complete_all
untouched [] futures id known zero_of = (futures, refl, refl)
untouched (word ∷ words) futures id ((f, here), known) zero_of =
    let k = finished_invoc_id word in
    let g = answered_once (return_val word) f in
    let other : (k == id) ≡ false = ground arith in
    let (futures', run, same) =
      untouched words (assign k g futures) id (AllKnown-assign words k g futures known)
        (ground arith) in
    (futures', rw (complete-known word f futures here) run, same ∙ find-other k id g futures other)

mine :
    (k id : ℕ) (futures : Futures) {f g : Future}
    → (k == id) ≡ true
    → find k futures ≡ some f
    → find id futures ≡ some g
    → f ≡ g
mine k id futures same here waits = grind (arith, ==_iff k id)

-- Results that belong to invocations that are waited for are all taken. An invocation of which `n`
-- answers are missing, at least one and no fewer than there are results of it, then misses as many
-- fewer as there were results of it, and its promise is kept exactly when none is missing any more,
-- with the value of the last of them.
pub promise_kept :
    (words : List ℕ) (futures : Futures) (id n : ℕ)
    → AllKnown words futures
    → find id futures ≡ some (record { remaining = pos n; value = none })
    → 1 ≤ n
    → count id words ≤ n
    → (futures' : Futures) × (complete_all words futures ≡ some futures')
      × (find id futures' ≡ some (after n id words))
unfolding complete_all
promise_kept words futures id zero known waits lo hi = elim lo [ ]
promise_kept [] futures id (suc n) known waits lo hi =
    (futures, refl, waits ∙ ap some (future-eq (omega arith) (ground arith)))
promise_kept (word ∷ words) futures id (suc n) ((f, here), known) waits lo hi =
    let k = finished_invoc_id word in
    let g = answered_once (return_val word) f in
    let run = complete-known word f futures here in
    let known' = AllKnown-assign words k g futures known in
    elim (Bool-cases (k == id)) [
      | inr other ↦
          let (futures', run', found) =
            promise_kept words (assign k g futures) id (suc n) known'
              (find-other k id g futures other ∙ waits) lo
              (count-other word words id (suc n) other hi) in
          (futures', rw run run', found ∙ ap some (sym (after-other (suc n) id word words other)))
      | inl same ↦
          let f_eq : f ≡ missing (suc n) none = mine k id futures same here waits in
          let found : find id (assign k g futures)
              ≡ some (answered_once (return_val word) (missing (suc n) none)) =
            find-assign k id g futures
            ∙ rw same (ap (λ x. some (answered_once (return_val word) x)) f_eq) in
          let fewer : count id words ≤ n = omega (arith, count-same id word words same) in
          let once = answered_once-more (return_val word) in
          elim n
              as (λ n.
                find id (assign k g futures)
                  ≡ some (answered_once (return_val word) (missing (suc n) none))
                → count id words ≤ n
                → (futures' : Futures) × ((complete word futures >>= complete_all words)
                    ≡ some futures')
                  × (find id futures' ≡ some (after (suc n) id (word ∷ words)))) [
                    | zero ↦ λ found fewer.
                        let (futures', run', rest) =
                          untouched words (assign k g futures) id known' (omega arith) in
                        (
                          futures',
                          rw run run',
                          rest
                              ∙ found
                              ∙ ap some
                                  ((once 0).1 ∙ sym (after-last id word words same (omega arith))),
                        )
                    | suc n ↦ λ found fewer.
                        let (futures', run', rest) =
                          promise_kept words (assign k g futures) id (suc n) known'
                            (found ∙ ap some (once n).0) (omega arith) fewer in
                        (
                          futures',
                          rw run run',
                          rest ∙ ap some (sym (after-more n id word words same)),
                        )
                  ]
            found fewer
    ]
