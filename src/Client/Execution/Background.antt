-- ===== src/Client/Execution/Background.antt =====
-- `async` on all workers and the background thread: rfaas/include/rfaas/executor.hpp and
-- rfaas/lib/executor.cpp, `poll_queue`.
use r_faa_s.Common.{
  ℕ, zero, suc, ◌≤◌, ◌≡◌, refl, sym, ap, ◌∙◌, Bool, true, false, Option, none, some, List, [], ◌∷◌,
  Bytes, map, nat_eq, find, arith, length, total, ◌>>=◌, if◌then◌else◌, inl, inr, Option-cases,
  bind_inv, some_inj, find-assign_self,
}
use r_faa_s.Common.Int.{pos, negsuc, ◌-ℤ◌, ◌+ℤ◌, eqb_ℤ, int_laws}
use r_faa_s.Rdmalib.Queue.{Wc, completions, RecvQueue, Verbs, poll, update_requests}
use r_faa_s.Client.Submission.{next_invoc_id, submission_id, finished_invoc_id, func_index}
use r_faa_s.Client.Invocation.{NetworkOrder}
use r_faa_s.Client.Futures.{Futures, submit, complete, complete_all}
use r_faa_s.Client.Futures.Counting.{count, last_value, after, missing, future-eq}
use r_faa_s.Client.Futures.Completion.{AllKnown, promise_kept}
use r_faa_s.Client.Callbacks.{Buffer, Worker, refilled}
use r_faa_s.Client.Callbacks.Calls.{words}
use r_faa_s.Client.Execution.{
  Caller, with_queue, taken_back, balanced, async_all, background_answer, background_answers,
  background_turn, background_round,
}
use r_faa_s.Client.Execution.Together.{joined, lowered, posted_all, send_all-posted}
use r_faa_s.Client.Execution.Alone.{complete_all-parts, lowered-twice, words-append}

taken_back-eq : (k : ℕ) (q : RecvQueue) → taken_back k q ≡ lowered k q
unfolding taken_back update_requests lowered
taken_back-eq zero q =
    let e : q.requests ≡ q.requests -ℤ pos 0 = omega int_laws in
    ap (λ r. record q { requests = r }) e
taken_back-eq (suc k) q =
    let e : (q.requests +ℤ negsuc 0) -ℤ pos k ≡ q.requests -ℤ pos (suc k) = omega int_laws in
    taken_back-eq k (update_requests (negsuc 0) q) ∙ ap (λ r. record q { requests = r }) e

-- What a kept promise adds to the first count is taken off it at once.
taken_back-added : (k : ℕ) (q : RecvQueue) → taken_back k (update_requests (pos k) q) ≡ q
unfolding update_requests lowered
taken_back-added k q =
    let e : (q.requests +ℤ pos k) -ℤ pos k ≡ q.requests = omega int_laws in
    taken_back-eq k (update_requests (pos k) q) ∙ ap (λ r. record q { requests = r }) e

if_same {ℓ} : {A : Type ℓ} (b : Bool) (x : A) → (if b then x else x) ≡ x
if_same true x = refl
if_same false x = refl

after-all :
    (id n : ℕ) (results : List ℕ)
    → count id results ≡ n
    → after n id results ≡ missing 0 (last_value id results)
after-all id n results came = future-eq (omega (arith, came)) (ground (arith, came))

complete-unknown :
    (word : ℕ) (futures : Futures)
    → find (finished_invoc_id word) futures ≡ none
    → complete word futures ≡ none
unfolding complete
complete-unknown word futures e = rw (e, complete) refl

module _ (v : Verbs) (n : NetworkOrder) where
  open n use {ntohl}

  balanced-same : (ws : List (Worker v n)) → balanced v n ws ≡ ws
  unfolding balanced with_queue
  balanced-same [] = refl
  balanced-same (w ∷ ws) =
      ap (λ q. record w { link = record w.link { queue = q } } ∷ ws)
        (taken_back-added (length ws) w.link.queue)

  background_answer-eq :
      (word : ℕ) (s : Caller v n) (futures' : Futures)
      → complete word s.futures ≡ some futures'
      → background_answer v n word s ≡ some (record s { futures = futures' })
  unfolding background_answer
  background_answer-eq word s futures' done =
      elim (Option-cases (find (finished_invoc_id word) s.futures)) [
        | inl e ↦ let unknown = complete-unknown word s.futures e in absurd (cc)
        | inr (f, e) ↦
            let last = eqb_ℤ (f.remaining -ℤ pos 1) (pos 0) in
            ap
              (λ o. o >>= λ f. complete word s.futures >>= λ fs. some (record s {
                futures = fs;
                workers =
                    if eqb_ℤ (f.remaining -ℤ pos 1) (pos 0)
                    then balanced v n s.workers
                    else s.workers;
              }))
              e
            ∙ ap
                (λ o. o >>= λ fs. some (record s {
                  futures = fs;
                  workers = if last then balanced v n s.workers else s.workers;
                }))
                done
            ∙ ap
                (λ ws.
                  some (record s { futures = futures'; workers = if last then ws else s.workers }))
                (balanced-same s.workers)
            ∙ ap (λ ws. some (record s { futures = futures'; workers = ws }))
                (if_same last s.workers)
      ]

  background_answers-eq :
      (wcs : List Wc) (s : Caller v n) (futures' : Futures)
      → complete_all (words v n wcs) s.futures ≡ some futures'
      → background_answers v n wcs s ≡ some (record s { futures = futures' })
  unfolding background_answers complete_all
  background_answers-eq [] s futures' done =
      ap (λ o. o >>= λ fs. some (record s { futures = fs })) done
  background_answers-eq (wc ∷ wcs) s futures' done =
      let (between, first, rest) = bind_inv (complete (ntohl wc.imm_data) s.futures) done in
      ap (λ o. o >>= background_answers v n wcs)
        (background_answer-eq (ntohl wc.imm_data) s between first)
      ∙ background_answers-eq wcs (record s { futures = between }) futures' rest

  -- Taken off the count of the first connection.
  abbrev pub first_lowered : ℕ → List (Worker v n) → List (Worker v n)
  first_lowered k [] = []
  first_lowered k (w ∷ ws) = with_queue v n (lowered k) w ∷ ws

  -- The turns of the background thread.
  abbrev pub background_rounds : List (List Wc) → Caller v n → Option (Caller v n)
  background_rounds [] s = some s
  background_rounds (batch ∷ batches) s =
      background_round v n (completions batch) s >>= background_rounds batches

  background_round-eq :
      (batch : List Wc) (s : Caller v n) (w : Worker v n) (ws : List (Worker v n))
      (futures' : Futures)
      → s.end_requested ≡ false
      → s.workers ≡ w ∷ ws
      → complete_all (words v n batch) s.futures ≡ some futures'
      → background_round v n (completions batch) s
        ≡ some (record s {
          futures = futures';
          workers = with_queue v n (lowered (length batch)) w ∷ ws;
        })
  unfolding background_round background_turn poll lowered with_queue
  background_round-eq batch s w ws futures' going first done =
      ap (λ b. if b then some s else background_turn v n (completions batch) s) going
      ∙ rw (first, background_turn)
          (background_answers-eq batch
            (record s { workers = with_queue v n (lowered (length batch)) w ∷ ws }) futures' done)

  background_rounds-eq :
      (batches : List (List Wc)) (s : Caller v n) (w : Worker v n) (ws : List (Worker v n))
      (futures' : Futures)
      → s.end_requested ≡ false
      → s.workers ≡ w ∷ ws
      → complete_all (words v n (joined batches)) s.futures ≡ some futures'
      → background_rounds batches s
        ≡ some (record s {
          futures = futures';
          workers = first_lowered (total length batches) (w ∷ ws);
        })
  unfolding complete_all taken_back with_queue
  background_rounds-eq [] s w ws futures' going first done =
      ap (λ fs. some (record s { futures = fs })) (some_inj done)
      ∙ ap (λ l. some (record s { futures = futures'; workers = l })) first
      ∙ ap
          (λ q. some (record s {
            futures = futures';
            workers = record w { link = record w.link { queue = q } } ∷ ws;
          }))
          (taken_back-eq 0 w.link.queue)
  background_rounds-eq (batch ∷ batches) s w ws futures' going first done =
      let w1 = with_queue v n (lowered (length batch)) w in
      let (between, taken, then_) =
        complete_all-parts (words v n batch) (words v n (joined batches)) s.futures (
          ap (λ l. complete_all l s.futures) (sym (words-append v n batch (joined batches)))
          ∙ done) in
      ap (λ o. o >>= background_rounds batches)
        (background_round-eq batch s w ws between going first taken)
      ∙ background_rounds-eq batches (record s { futures = between; workers = w1 ∷ ws }) w1 ws
          futures' going refl then_
      ∙ ap
          (λ q. some (record s {
            futures = futures';
            workers = record w { link = record w.link { queue = q } } ∷ ws;
          }))
          (lowered-twice (length batch) (total length batches) w.link.queue)

  -- What a call of `async` leaves to the background thread.
  pub async_all-posted :
      (fname : Bytes) (f : ℕ) (inputs outs : List Buffer) (s : Caller v n)
      → func_index fname s.func_names ≡ some f
      → length s.workers ≤ length inputs
      → length s.workers ≤ length outs
      → let id = next_invoc_id s.invoc_id in
        async_all v n fname inputs outs s
        ≡ some (
          some id,
          record s {
            invoc_id = id;
            futures = submit id (length s.workers) s.futures;
            workers = posted_all v n s.max_inline_data (submission_id id f) inputs outs s.workers;
          },
        )
  unfolding async_all
  async_all-posted fname f inputs outs s known ins_of outs_of =
      let id = next_invoc_id s.invoc_id in
      let (ws', done, same, len) =
        send_all-posted v n s.max_inline_data (submission_id id f) inputs outs s.workers ins_of
          outs_of in
      let ended = λ (ws : List (Worker v n)). some (
        some id,
        record s { invoc_id = id; futures = submit id (length s.workers) s.futures; workers = ws },
      ) in
      rw (known, async_all)
        (ap (λ o. o >>= λ ws. ended (map (refilled v n) ws)) done ∙ ap ended same)

  pub first_of :
      (ws : List (Worker v n))
      → 1 ≤ length ws
      → (w : Worker v n) × (rest : List (Worker v n)) × (ws ≡ w ∷ rest)
  first_of [] h = absurd (omega (arith, h))
  first_of (w ∷ ws) h = (w, ws, refl)

  -- `async` on all workers, of which there is at least one, with an input and an output for each and of
  -- a known function, gives the future of its invocation. Once the background thread has polled as many
  -- results of it as there are workers, in any turns and among results of others that are waited for,
  -- the promise is kept with the value of the last of them. All results were then taken off the count of
  -- the first connection alone: the counts of the others stay as after the refill, although each of
  -- them has used up a request.
  pub async_all_kept :
      (fname : Bytes) (f : ℕ) (inputs outs : List Buffer) (batches : List (List Wc))
      (s : Caller v n)
      → func_index fname s.func_names ≡ some f
      → 1 ≤ length s.workers
      → length s.workers ≤ length inputs
      → length s.workers ≤ length outs
      → s.end_requested ≡ false
      → AllKnown
          (words v n (joined batches))
          (submit (next_invoc_id s.invoc_id) (length s.workers) s.futures)
      → count (next_invoc_id s.invoc_id) (words v n (joined batches)) ≡ length s.workers
      → let id = next_invoc_id s.invoc_id in
        let posted = posted_all v n s.max_inline_data (submission_id id f) inputs outs s.workers in
        (s1 : Caller v n) × (s2 : Caller v n) × (async_all v n fname inputs outs s
          ≡ some (some id, s1))
        × (s1.workers ≡ posted)
        × (background_rounds batches s1 ≡ some s2)
        × (find id s2.futures
            ≡ some
                (record { remaining = pos 0; value = last_value id (words v n (joined batches)) }))
        × (s2.workers ≡ first_lowered (total length batches) posted)
  unfolding submit
  async_all_kept fname f inputs outs batches s known some_of ins_of outs_of going waited came =
      let id = next_invoc_id s.invoc_id in
      let cores = length s.workers in
      let results = words v n (joined batches) in
      let posted = posted_all v n s.max_inline_data (submission_id id f) inputs outs s.workers in
      let (ws', sent_to, same, len) =
        send_all-posted v n s.max_inline_data (submission_id id f) inputs outs s.workers ins_of
          outs_of in
      let (w, ws, first) = first_of posted (omega (arith, len, some_of)) in
      let s1 : Caller v n = record s {
        invoc_id = id;
        futures = submit id cores s.futures;
        workers = posted;
      } in
      let waits = find-assign_self id (missing cores none) s.futures in
      let (futures', done, found) =
        promise_kept results s1.futures id cores waited waits some_of (omega (arith, came)) in
      (
        s1,
        record s1 { futures = futures'; workers = first_lowered (total length batches) (w ∷ ws) },
        async_all-posted fname f inputs outs s known ins_of outs_of,
        refl,
        background_rounds-eq batches s1 w ws futures' going first done,
        found ∙ ap some (after-all id cores results came),
        ap (first_lowered (total length batches)) (sym first),
      )
