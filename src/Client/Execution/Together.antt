-- ===== src/Client/Execution/Together.antt =====
-- `execute` on all workers: rfaas/include/rfaas/executor.hpp. The answers of all connections are polled
-- through the first one, and the counts are corrected afterwards.
use r_faa_s.Common.{
  ℕ, suc, ◌+◌, ◌≤◌, ◌≡◌, refl, sym, ap, ◌∙◌, subst, Bool, true, false, ◌&&◌, inl, inr, Option, some,
  List, [], ◌∷◌, ◌++◌, Bytes, map, arith, length, total, ◌==◌, ◌>>=◌, Bool-cases,
}
use r_faa_s.Common.Int.{ℤ, pos, negsuc, ◌-ℤ◌, ◌+ℤ◌, eqb_ℤ, int_laws}
use r_faa_s.Rdmalib.Queue.{Wc, completions, RecvQueue, Verbs, poll, update_requests}
use r_faa_s.Client.Submission.{next_invoc_id, blocking_submission_id, return_val, func_index}
use r_faa_s.Client.Invocation.{NetworkOrder}
use r_faa_s.Client.Callbacks.{Buffer, Worker, refilled}
use r_faa_s.Client.Execution.{
  Caller, sent, send_all, with_queue, all_right, collect, wait_sends, await_all, execute_all,
}

abbrev pub joined : List (List Wc) → List Wc
joined [] = []
joined (batch ∷ batches) = batch ++ joined batches

pub pos-add_minus : (a b : ℕ) → pos (a + b) -ℤ pos a ≡ pos b
unfolding ◌-ℤ◌
pos-add_minus a b = ground arith

pub minus_twice : (r : ℤ) (a b : ℕ) → (r -ℤ pos a) -ℤ pos b ≡ r -ℤ pos (a + b)
minus_twice r a b = omega int_laws

-- Taken off the count of requests.
unfoldable pub lowered : ℕ → RecvQueue → RecvQueue
lowered k q = record q { requests = q.requests -ℤ pos k }

wait_sends-all :
    (sends : List (List Wc)) → wait_sends (map completions sends) (pos (total length sends)) ≡ true
unfolding wait_sends
wait_sends-all [] = refl
wait_sends-all (batch ∷ sends) =
    elim (Bool-cases (eqb_ℤ (pos (total length (batch ∷ sends))) (pos 0))) [
      | inl e ↦ rw e refl
      | inr e ↦ rw e (
          ap (wait_sends (map completions sends))
            (pos-add_minus (length batch) (total length sends))
          ∙ wait_sends-all sends)
    ]

nothing_joined : (answers : List (List Wc)) → total length answers ≡ 0 → joined answers ≡ []
nothing_joined [] h = refl
nothing_joined ([] ∷ answers) h = nothing_joined answers (omega (arith, h))
nothing_joined ((wc ∷ batch) ∷ answers) h = absurd (omega (arith, h))

-- Two counts are corrected to the same.
own_answer :
    (q : RecvQueue) (k : ℕ)
    → update_requests (pos (suc k) -ℤ pos 1) (lowered (suc k) q) ≡ lowered 1 q
unfolding update_requests lowered
own_answer q k =
    let e : (q.requests -ℤ pos (suc k)) +ℤ (pos (suc k) -ℤ pos 1) ≡ q.requests -ℤ pos 1 =
      omega int_laws in
    ap (λ r. record q { requests = r }) e

other_answer : (q : RecvQueue) → update_requests (negsuc 0) q ≡ lowered 1 q
unfolding update_requests lowered
other_answer q =
    let e : q.requests +ℤ negsuc 0 ≡ q.requests -ℤ pos 1 = omega int_laws in
    ap (λ r. record q { requests = r }) e

module _ (v : Verbs) (n : NetworkOrder) where
  open n use {ntohl}

  abbrev pub all_zero : List Wc → Bool
  all_zero [] = true
  all_zero (wc ∷ wcs) = (return_val (ntohl wc.imm_data) == 0) && all_zero wcs

  and_assoc : (a b c : Bool) → ((a && b) && c) ≡ (a && (b && c))
  and_assoc a b c = ground arith

  all_right-zero : (wcs : List Wc) (c : Bool) → all_right v n wcs c ≡ (c && all_zero wcs)
  unfolding all_right
  all_right-zero [] c = ground arith
  all_right-zero (wc ∷ wcs) c =
      let z = return_val (ntohl wc.imm_data) == 0 in
      all_right-zero wcs (c && z) ∙ and_assoc c z (all_zero wcs)

  all_zero-append : (xs ys : List Wc) → all_zero (xs ++ ys) ≡ (all_zero xs && all_zero ys)
  all_zero-append [] ys = refl
  all_zero-append (wc ∷ xs) ys =
      let z = return_val (ntohl wc.imm_data) == 0 in
      ap (λ b. z && b) (all_zero-append xs ys) ∙ sym (and_assoc z (all_zero xs) (all_zero ys))

  collect-next :
      (batch : List Wc) (answers : List (List Wc)) (correct : Bool) (q : RecvQueue)
      → collect v n
          (map completions answers)
          (pos (total length answers))
          (all_right v n batch correct)
          (lowered (length batch) q)
        ≡ some (
          all_right v n batch correct && all_zero (joined answers),
          lowered (total length answers) (lowered (length batch) q),
        )
      → collect v n
          (map completions answers)
          (pos (length batch + total length answers) -ℤ pos (length batch))
          (all_right v n batch correct)
          (poll (completions batch) q).0
        ≡ some (
          correct && all_zero (batch ++ joined answers),
          lowered (length batch + total length answers) q,
        )
  unfolding poll lowered
  collect-next batch answers correct q e =
      let k = length batch in
      let m = total length answers in
      ap (λ z. collect v n (map completions answers) z (all_right v n batch correct) (lowered k q))
        (pos-add_minus k m)
      ∙ e
      ∙ ap (λ b. some (b && all_zero (joined answers), lowered m (lowered k q)))
          (all_right-zero batch correct)
      ∙ ap (λ b. some (b, lowered m (lowered k q)))
          (and_assoc correct (all_zero batch) (all_zero (joined answers))
            ∙ ap (λ b. correct && b) (sym (all_zero-append batch (joined answers))))
      ∙ ap (λ r. some (correct && all_zero (batch ++ joined answers), record q { requests = r }))
          (minus_twice q.requests k m)

  nothing_left :
      (answers : List (List Wc)) (correct : Bool) (q : RecvQueue)
      → total length answers ≡ 0
      → ◌≡◌ {A = Option (Bool × RecvQueue)}
          (some (correct, q))
          (some (correct && all_zero (joined answers), lowered (total length answers) q))
  unfolding lowered
  nothing_left answers correct q none_of =
      let same : q.requests ≡ q.requests -ℤ pos (total length answers) =
        omega (int_laws, none_of) in
      let right : correct ≡ (correct && true) = ground arith in
      ap (λ b. some (b, q))
        (right ∙ ap (λ wcs. correct && all_zero wcs) (sym (nothing_joined answers none_of)))
      ∙ ap (λ r. some (correct && all_zero (joined answers), record q { requests = r })) same

  -- The loop takes the answers of polls that bring as many as it waits for.
  collect-all :
      (answers : List (List Wc)) (correct : Bool) (q : RecvQueue)
      → collect v n (map completions answers) (pos (total length answers)) correct q
        ≡ some (correct && all_zero (joined answers), lowered (total length answers) q)
  unfolding collect lowered
  collect-all [] correct q = nothing_left [] correct q refl
  collect-all (batch ∷ answers) correct q =
      elim (Bool-cases (eqb_ℤ (pos (total length (batch ∷ answers))) (pos 0))) [
        | inl e ↦ rw e (nothing_left (batch ∷ answers) correct q (ground (arith, e)))
        | inr e ↦ rw e (
            collect-next batch answers correct q
              (collect-all answers (all_right v n batch correct) (lowered (length batch) q)))
      ]

  abbrev one_less : Worker v n → Worker v n
  one_less = with_queue v n (lowered 1)

  await_all-eq :
      (sends answers : List (List Wc)) (w : Worker v n) (ws : List (Worker v n))
      → total length sends ≡ length (w ∷ ws)
      → total length answers ≡ length (w ∷ ws)
      → await_all v n (map completions sends) (map completions answers) (w ∷ ws)
        ≡ some (all_zero (joined answers), map one_less (w ∷ ws))
  unfolding await_all with_queue lowered
  await_all-eq sends answers w ws sent_all came_all =
      let k = length ws in
      let q = w.link.queue in
      let goes : wait_sends (map completions sends) (pos (suc k)) ≡ true =
        subst (λ m. wait_sends (map completions sends) (pos m) ≡ true) sent_all
          (wait_sends-all sends) in
      let comes : collect v n (map completions answers) (pos (suc k)) true q
          ≡ some (all_zero (joined answers), lowered (suc k) q) =
        subst
          (λ m.
            collect v n (map completions answers) (pos m) true q
            ≡ some (all_zero (joined answers), lowered m q))
          came_all (collect-all answers true q) in
      let others : update_requests (negsuc 0) ≡ lowered 1 = λ i q. other_answer q i in
      rw goes (
        ap
          (λ o. o >>= λ r. some (
            r.0,
            with_queue v n (λ q. update_requests (pos (suc k) -ℤ pos 1) r.1) w
                ∷ map (with_queue v n (update_requests (negsuc 0))) ws,
          ))
          comes
        ∙ ap
            (λ q'. some (
              all_zero (joined answers),
              record w { link = record w.link { queue = q' } }
                  ∷ map (with_queue v n (update_requests (negsuc 0))) ws,
            ))
            (own_answer q k)
        ∙ ap (λ f. some (all_zero (joined answers), one_less w ∷ map (with_queue v n f) ws)) others)

  -- The workers after each was written to and refilled.
  abbrev pub posted_all : ℤ → ℕ → List Buffer → List Buffer → List (Worker v n) → List (Worker v n)
  posted_all max_inline_data word inputs outs [] = []
  posted_all max_inline_data word [] outs (w ∷ ws) = []
  posted_all max_inline_data word (input ∷ inputs) [] (w ∷ ws) = []
  posted_all max_inline_data word (input ∷ inputs) (out ∷ outs) (w ∷ ws) =
      refilled v n (sent v n max_inline_data word input out w)
      ∷ posted_all max_inline_data word inputs outs ws

  pub send_all-posted :
      (max_inline_data : ℤ) (word : ℕ) (inputs outs : List Buffer) (ws : List (Worker v n))
      → length ws ≤ length inputs
      → length ws ≤ length outs
      → (ws' : List (Worker v n)) × (send_all v n max_inline_data word inputs outs ws ≡ some ws')
        × (map (refilled v n) ws' ≡ posted_all max_inline_data word inputs outs ws)
        × (length (posted_all max_inline_data word inputs outs ws) ≡ length ws)
  unfolding send_all
  send_all-posted m word inputs outs [] lo hi = ([], refl, refl, refl)
  send_all-posted m word [] outs (w ∷ ws) lo hi = absurd (omega (arith, lo))
  send_all-posted m word (input ∷ inputs) [] (w ∷ ws) lo hi = absurd (omega (arith, hi))
  send_all-posted m word (input ∷ inputs) (out ∷ outs) (w ∷ ws) lo hi =
      let (ws', done, same, len) =
        send_all-posted m word inputs outs ws (omega (arith, lo)) (omega (arith, hi)) in
      (
        sent v n m word input out w ∷ ws',
        ap (λ o. o >>= λ ws. some (sent v n m word input out w ∷ ws)) done,
        ap (λ l. refilled v n (sent v n m word input out w) ∷ l) same,
        ap suc len,
      )

  await_all-served :
      (sends answers : List (List Wc)) (ws : List (Worker v n))
      → 1 ≤ length ws
      → total length sends ≡ length ws
      → total length answers ≡ length ws
      → await_all v n (map completions sends) (map completions answers) ws
        ≡ some (all_zero (joined answers), map one_less ws)
  await_all-served sends answers [] some_of sent_all came_all = absurd (omega (arith, some_of))
  await_all-served sends answers (w ∷ ws) some_of sent_all came_all =
      await_all-eq sends answers w ws sent_all came_all

  -- A call on all workers, of which there is at least one, with an input and an output for each and
  -- of a known function, ends where its polls bring as many completed writes and as many answers as
  -- there are workers, however they are spread over the polls. It reports whether all
  -- answers carry the value 0. Each worker was then written to once and refilled, and its count of
  -- requests is one less, as if each connection had received one answer of its own, although all were
  -- polled through the first one; the invocations that others wait for are untouched.
  pub all_workers_served :
      (fname : Bytes) (f : ℕ) (inputs outs : List Buffer) (sends answers : List (List Wc))
      (s : Caller v n)
      → func_index fname s.func_names ≡ some f
      → 1 ≤ length s.workers
      → length s.workers ≤ length inputs
      → length s.workers ≤ length outs
      → total length sends ≡ length s.workers
      → total length answers ≡ length s.workers
      → execute_all v n fname inputs outs (map completions sends) (map completions answers) s
        ≡ some (
          all_zero (joined answers),
          record s {
            invoc_id = next_invoc_id s.invoc_id;
            workers = map (with_queue v n (lowered 1)) (
                posted_all s.max_inline_data
                  (blocking_submission_id (next_invoc_id s.invoc_id) f)
                  inputs
                  outs
                  s.workers);
            active_polling = false;
          },
        )
  unfolding execute_all
  all_workers_served fname f inputs outs sends answers s known some_of ins_of outs_of sent_all
        came_all =
      let id = next_invoc_id s.invoc_id in
      let word = blocking_submission_id id f in
      let posted = posted_all s.max_inline_data word inputs outs s.workers in
      let (ws', done, same, len) =
        send_all-posted s.max_inline_data word inputs outs s.workers ins_of outs_of in
      let waited =
        await_all-served sends answers posted (omega (arith, len, some_of)) (sent_all ∙ sym len)
          (came_all ∙ sym len) in
      let ended = λ (r : Bool × List (Worker v n)).
        some (r.0, record s { invoc_id = id; workers = r.1; active_polling = false }) in
      rw (known, execute_all)
        (ap
            (λ o. o >>= λ ws.
              await_all v n (map completions sends) (map completions answers)
                (map (refilled v n) ws)
              >>= ended)
            done
          ∙ ap (λ ws. await_all v n (map completions sends) (map completions answers) ws >>= ended)
              same
          ∙ ap (λ o. o >>= ended) waited)
