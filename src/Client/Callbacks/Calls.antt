-- ===== src/Client/Callbacks/Calls.antt =====
-- Which callbacks the results of one poll call: rfaas/lib/executor.cpp, `poll_queue_once`.
use r_faa_s.Common.{
  ℕ, ◌≡◌, refl, sym, ap, subst, ◌∙◌, inl, inr, Bool, true, false, none, some, List, [], ◌∷◌, ◌++◌,
  Map, nat_eq, find, assign, arith, ◌==◌, ==_iff, if◌then◌else◌, Bool-cases, some_inj, bind_inv,
  find-assign, append_nil, append_assoc,
}
use r_faa_s.Common.Int.{pos, ◌-ℤ◌, ◌≤ℤ◌, -ℤ_parts}
use r_faa_s.Rdmalib.Queue.{Wc, Verbs}
use r_faa_s.Client.Submission.{return_val, finished_invoc_id}
use r_faa_s.Client.Invocation.{NetworkOrder}
use r_faa_s.Client.Callbacks.{Callback, Called, called, Client, counted_down, answer, answers}

abbrev pub is_in : ℕ → List ℕ → Bool
is_in id [] = false
is_in id (j ∷ js) = if j == id then true else is_in id js

-- The calls that should be made: one for the first result of every invocation, in the order in which
-- the results come.
abbrev pub first_calls : Map ℕ Callback → List ℕ → List ℕ → List Called
first_calls t seen [] = []
first_calls t seen (word ∷ words) =
    let id = finished_invoc_id word in
    let rest = first_calls t (id ∷ seen) words in
    if is_in id seen then rest else elim (find id t) [
      | none ↦ rest
      | some c ↦ called c.function (return_val word) c.out ∷ rest
    ]

counted_last : (c : Callback) → c.remaining ≡ pos 1 → (counted_down c).1 ≡ true
unfolding counted_down ◌-ℤ◌
counted_last c h = rw h refl

counted_over : (c : Callback) → c.remaining ≤ℤ pos 0 → (counted_down c).1 ≡ false
unfolding counted_down
counted_over c h = ground (arith, -ℤ_parts c.remaining (pos 1))

counted_low : (c : Callback) → c.remaining ≤ℤ pos 1 → (counted_down c).0.remaining ≤ℤ pos 0
unfolding counted_down
counted_low c h = ground (arith, -ℤ_parts c.remaining (pos 1))

-- Where an entry is after results of the invocations `seen`.
record Tracked (seen : Bool) (c0 c : Callback) : Type 0 where
  function : c.function ≡ c0.function
  out : c.out ≡ c0.out
  low : c.remaining ≤ℤ pos 1
  done : seen ≡ true → c.remaining ≤ℤ pos 0
  waiting : seen ≡ false → c.remaining ≡ pos 1

abbrev Tracks : Map ℕ Callback → List ℕ → Map ℕ Callback → Type 0
Tracks t0 seen t =
    (id : ℕ) (c : Callback)
    → find id t ≡ some c
    → (c0 : Callback) × (find id t0 ≡ some c0) × Tracked (is_in id seen) c0 c

counted-Tracked :
    (seen : Bool) (c0 c : Callback) → Tracked seen c0 c → Tracked true c0 (counted_down c).0
unfolding counted_down
counted-Tracked seen c0 c h = record {
  function = h.function;
  out = h.out;
  low = ground (arith, counted_low c h.low);
  done = λ e. counted_low c h.low;
  waiting = λ e. absurd (cc);
}

Tracks-next :
    (t0 t : Map ℕ Callback) (seen : List ℕ) (id : ℕ) (c : Callback)
    → Tracks t0 seen t
    → find id t ≡ some c
    → Tracks t0 (id ∷ seen) (assign id (counted_down c).0 t)
Tracks-next t0 t seen id c tracks here j d there = elim (Bool-cases (id == j)) [
  | inl same ↦
      let (c0, known, h) = tracks id c here in
      let eq = (==_iff id j).0 same in
      let this : (counted_down c).0 ≡ d =
        some_inj (sym (find-assign id j (counted_down c).0 t ∙ rw same refl) ∙ there) in
      (
        c0,
        ap (λ i. find i t0) (sym eq) ∙ known,
        rw same (subst (Tracked true c0) this (counted-Tracked (is_in id seen) c0 c h)),
      )
  | inr other ↦
      let old = sym (find-assign id j (counted_down c).0 t ∙ rw other refl) ∙ there in
      let (c0, known, h) = tracks j d old in (c0, known, rw other h)
]

-- Every entry waits for exactly one result, as `async_callback` leaves it.
abbrev pub AllWaiting : Map ℕ Callback → Type 0
AllWaiting t = (id : ℕ) (c : Callback) → find id t ≡ some c → c.remaining ≡ pos 1

new_Tracked : (c : Callback) → c.remaining ≡ pos 1 → Tracked false c c
new_Tracked c h = record {
  function = refl;
  out = refl;
  low = rw h (omega arith);
  done = λ e. absurd (cc);
  waiting = λ e. h;
}

same_call :
    {seen : Bool} (word : ℕ) (c0 c : Callback)
    → Tracked seen c0 c
    → called c.function (return_val word) c.out ≡ called c0.function (return_val word) c0.out
same_call word c0 c h = rw (h.function, h.out) refl

module _ (v : Verbs) (n : NetworkOrder) where
  open n use {ntohl}

  abbrev pub words : List Wc → List ℕ
  words [] = []
  words (wc ∷ wcs) = ntohl wc.imm_data ∷ words wcs

  answer-found :
      (word : ℕ) (s : Client v n) {s' : Client v n}
      → answer v n word s ≡ some s'
      → (c : Callback) × (find (finished_invoc_id word) s.callbacks ≡ some c)
  unfolding answer
  answer-found word s done =
      let (c, found, result) = bind_inv (find (finished_invoc_id word) s.callbacks) done in
      (c, found)

  answer-over :
      (word : ℕ) (s : Client v n) {s' : Client v n} (c : Callback)
      → find (finished_invoc_id word) s.callbacks ≡ some c
      → (counted_down c).1 ≡ false
      → answer v n word s ≡ some s'
      → (s'.callbacks ≡ assign (finished_invoc_id word) (counted_down c).0 s.callbacks)
        × (s'.calls ≡ s.calls)
  unfolding answer
  answer-over word s {s'} c here over done =
      let (d, found, result) = bind_inv (find (finished_invoc_id word) s.callbacks) done in
      let same : d ≡ c = some_inj (sym found ∙ here) in
      let next = some_inj result in
      (
        ap (λ x. x.callbacks) (sym next)
            ∙ ap (λ x. assign (finished_invoc_id word) (counted_down x).0 s.callbacks) same,
        ap (λ x. x.calls) (sym next)
            ∙ ap
                (λ x.
                  if (counted_down x).1
                  then s.calls ++ called x.function (return_val word) x.out ∷ []
                  else s.calls)
                same
            ∙ rw over refl,
      )

  answer-last :
      (word : ℕ) (s : Client v n) {s' : Client v n} (c : Callback)
      → find (finished_invoc_id word) s.callbacks ≡ some c
      → (counted_down c).1 ≡ true
      → answer v n word s ≡ some s'
      → (s'.callbacks ≡ assign (finished_invoc_id word) (counted_down c).0 s.callbacks)
        × (s'.calls ≡ s.calls ++ called c.function (return_val word) c.out ∷ [])
  unfolding answer
  answer-last word s {s'} c here last done =
      let (d, found, result) = bind_inv (find (finished_invoc_id word) s.callbacks) done in
      let same : d ≡ c = some_inj (sym found ∙ here) in
      let next = some_inj result in
      (
        ap (λ x. x.callbacks) (sym next)
            ∙ ap (λ x. assign (finished_invoc_id word) (counted_down x).0 s.callbacks) same,
        ap (λ x. x.calls) (sym next)
            ∙ ap
                (λ x.
                  if (counted_down x).1
                  then s.calls ++ called x.function (return_val word) x.out ∷ []
                  else s.calls)
                same
            ∙ rw last refl,
      )

  answers-calls :
      (t0 : Map ℕ Callback) (seen : List ℕ) (wcs : List Wc) (s s' : Client v n)
      → Tracks t0 seen s.callbacks
      → answers v n wcs s ≡ some s'
      → s'.calls ≡ s.calls ++ first_calls t0 seen (words wcs)
  unfolding answers
  answers-calls t0 seen [] s s' tracks done =
      ap (λ x. x.calls) (sym (some_inj done)) ∙ sym (append_nil s.calls)
  answers-calls t0 seen (wc ∷ wcs) s s' tracks done =
      let word = ntohl wc.imm_data in
      let id = finished_invoc_id word in
      let (s1, first, rest) = bind_inv (answer v n word s) done in
      let (c, here) = answer-found word s first in
      let (c0, known, h) = tracks id c here in
      let next = Tracks-next t0 s.callbacks seen id c tracks here in
      elim (Bool-cases (is_in id seen)) [
        | inl old ↦
            let (table, calls) = answer-over word s c here (counted_over c (h.done old)) first in
            answers-calls t0 (id ∷ seen) wcs s1 s' (subst (Tracks t0 (id ∷ seen)) (sym table) next)
              rest
            ∙ rw (old, calls) refl
        | inr new ↦
            let (table, calls) = answer-last word s c here (counted_last c (h.waiting new)) first in
            answers-calls t0 (id ∷ seen) wcs s1 s' (subst (Tracks t0 (id ∷ seen)) (sym table) next)
              rest
            ∙ rw (new, known, calls)
                (append_assoc s.calls (called c.function (return_val word) c.out ∷ [])
                    (first_calls t0 (id ∷ seen) (words wcs))
                  ∙ ap (λ x. s.calls ++ x ∷ first_calls t0 (id ∷ seen) (words wcs))
                      (same_call word c0 c h))
      ]

  -- As long as every entry waits for one result, the results that are handled without undefined
  -- behaviour call each callback once, for the first result of its invocation and with the value of
  -- that result, in the order in which they come; further results of an invocation call nothing.
  pub callbacks_called_once :
      (wcs : List Wc) (s s' : Client v n)
      → AllWaiting s.callbacks
      → answers v n wcs s ≡ some s'
      → s'.calls ≡ s.calls ++ first_calls s.callbacks [] (words wcs)
  callbacks_called_once wcs s s' waiting done =
      answers-calls s.callbacks [] wcs s s'
        (λ id c here. (c, here, new_Tracked c (waiting id c here))) done
