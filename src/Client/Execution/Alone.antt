-- ===== src/Client/Execution/Alone.antt =====
-- `execute` on one worker: rfaas/include/rfaas/executor.hpp. Results of other invocations that are polled
-- meanwhile complete their futures.
use r_faa_s.Common.{
  ℕ, ◌+◌, ◌≡◌, refl, sym, ap, ◌∙◌, true, false, inl, inr, some, List, [], ◌∷◌, ◌++◌, Bytes, map,
  arith, length, total, ◌==◌, ==_iff, ◌>>=◌, if◌then◌else◌, Option-cases, bind_inv, append_assoc,
  length-append,
}
use r_faa_s.Rdmalib.Queue.{Wc, Polled, completions, RecvQueue, Verbs, poll}
use r_faa_s.Client.Submission.{
  next_invoc_id, blocking_submission_id, return_val, finished_invoc_id, func_index,
}
use r_faa_s.Client.Invocation.{NetworkOrder}
use r_faa_s.Client.Futures.{Futures, complete, complete_all}
use r_faa_s.Client.Futures.Counting.{count}
use r_faa_s.Client.Futures.Completion.{AllKnown, complete_all-known}
use r_faa_s.Client.Callbacks.{Buffer, Worker, refilled}
use r_faa_s.Client.Callbacks.Calls.{words}
use r_faa_s.Client.Execution.{
  Outcome, Caller, sent, with_queue, execute_answers, complete_wcs, last_poll, execute_loop,
  execute,
}
use r_faa_s.Client.Execution.Together.{joined, lowered, minus_twice}

count-append : (id : ℕ) (xs ys : List ℕ) → count id (xs ++ ys) ≡ count id xs + count id ys
count-append id [] ys = omega arith
count-append id (word ∷ xs) ys = ground (arith, count-append id xs ys)

pub complete_all-append :
    (xs ys : List ℕ) (futures : Futures)
    → complete_all (xs ++ ys) futures ≡ (complete_all xs futures >>= complete_all ys)
unfolding complete_all
complete_all-append [] ys futures = refl
complete_all-append (word ∷ xs) ys futures = elim (Option-cases (complete word futures)) [
  | inl e ↦ rw e refl
  | inr (futures', e) ↦ rw e (complete_all-append xs ys futures')
]

-- What two parts of the results do one after the other.
pub complete_all-parts :
    (xs ys : List ℕ) (futures : Futures) {futures' : Futures}
    → complete_all (xs ++ ys) futures ≡ some futures'
    → (between : Futures) × (complete_all xs futures ≡ some between)
      × (complete_all ys between ≡ some futures')
complete_all-parts xs ys futures done =
    bind_inv (complete_all xs futures) (sym (complete_all-append xs ys futures) ∙ done)

pub lowered-twice : (a b : ℕ) (q : RecvQueue) → lowered b (lowered a q) ≡ lowered (a + b) q
unfolding lowered
lowered-twice a b q = ap (λ r. record q { requests = r }) (minus_twice q.requests a b)

module _ (v : Verbs) (n : NetworkOrder) where
  open n use {ntohl}

  pub words-append : (xs ys : List Wc) → words v n (xs ++ ys) ≡ words v n xs ++ words v n ys
  words-append [] ys = refl
  words-append (wc ∷ xs) ys = ap (λ l. ntohl wc.imm_data ∷ l) (words-append xs ys)

  complete_wcs-words :
      (wcs : List Wc) (futures : Futures)
      → complete_wcs v n wcs futures ≡ complete_all (words v n wcs) futures
  unfolding complete_wcs complete_all
  complete_wcs-words [] futures = refl
  complete_wcs-words (wc ∷ wcs) futures =
      elim (Option-cases (complete (ntohl wc.imm_data) futures)) [
        | inl e ↦ rw e refl
        | inr (futures', e) ↦ rw e (complete_wcs-words wcs futures')
      ]

  -- Results of others complete their futures.
  execute_answers-others :
      (id : ℕ) (wcs : List Wc) (x : Outcome) (futures' : Futures)
      → count id (words v n wcs) ≡ 0
      → complete_all (words v n wcs) x.futures ≡ some futures'
      → execute_answers v n id wcs x ≡ some (record x { futures = futures' })
  unfolding execute_answers complete_all
  execute_answers-others id [] x futures' none_of done =
      ap (λ o. o >>= λ fs. some (record x { futures = fs })) done
  execute_answers-others id (wc ∷ wcs) x futures' none_of done =
      let word = ntohl wc.imm_data in
      let (between, first, rest) = bind_inv (complete word x.futures) done in
      let other : (finished_invoc_id word == id) ≡ false = ground (arith, none_of) in
      rw other (
        ap (λ o. o >>= λ fs. execute_answers v n id wcs (record x { futures = fs })) first
        ∙ execute_answers-others id wcs (record x { futures = between }) futures'
            (ground (arith, none_of)) rest)

  -- The outcome once the own result has come.
  abbrev outcome : Wc → Futures → Outcome
  outcome own futures = record {
    found_result = true;
    return_value = return_val (ntohl own.imm_data);
    out_size = own.byte_len;
    futures = futures;
  }

  execute_answers-own :
      (id : ℕ) (pre post : List Wc) (own : Wc) (x : Outcome) (futures' : Futures)
      → finished_invoc_id (ntohl own.imm_data) ≡ id
      → count id (words v n pre) ≡ 0
      → count id (words v n post) ≡ 0
      → complete_all (words v n pre ++ words v n post) x.futures ≡ some futures'
      → execute_answers v n id (pre ++ own ∷ post) x ≡ some (outcome own futures')
  unfolding execute_answers complete_all
  execute_answers-own id [] post own x futures' mine none_pre none_post done =
      rw ((==_iff (finished_invoc_id (ntohl own.imm_data)) id).1 mine) (
        execute_answers-others id post
          (record x {
            found_result = true;
            return_value = return_val (ntohl own.imm_data);
            out_size = own.byte_len;
          })
          futures' none_post done)
  execute_answers-own id (wc ∷ pre) post own x futures' mine none_pre none_post done =
      let word = ntohl wc.imm_data in
      let (between, first, rest) = bind_inv (complete word x.futures) done in
      let other : (finished_invoc_id word == id) ≡ false = ground (arith, none_pre) in
      rw other (
        ap (λ o. o >>= λ fs. execute_answers v n id (pre ++ own ∷ post) (record x { futures = fs }))
          first
        ∙ execute_answers-own id pre post own (record x { futures = between }) futures' mine
            (ground (arith, none_pre)) none_post rest)

  -- The results of others, in the order in which they are polled.
  abbrev pub others : List (List Wc) → List Wc → List Wc → List ℕ
  others earlier pre post = words v n (joined earlier) ++ (words v n pre ++ words v n post)

  -- What the loop polls: `earlier` without the own result, the poll with it, the last one, and what is
  -- left.
  abbrev pub polls_of :
      List (List Wc) → List Wc → Wc → List Wc → List Wc → List Polled → List Polled
  polls_of earlier pre own post late rest =
      map completions earlier ++ completions (pre ++ own ∷ post) ∷ completions late ∷ rest

  abbrev pub polled : List (List Wc) → List Wc → List Wc → List Wc → ℕ
  polled earlier pre post late = total length earlier + (length pre + 1 + length post) + length late

  loop-more :
      (id : ℕ) (batch : List Wc) (ps : List Polled) (x x1 : Outcome) (q : RecvQueue)
      → execute_answers v n id batch x ≡ some x1
      → x1.found_result ≡ false
      → execute_loop v n id (completions batch ∷ ps) x q
        ≡ execute_loop v n id ps x1 (lowered (length batch) q)
  unfolding execute_loop poll lowered
  loop-more id batch ps x x1 q done looking =
      ap
        (λ o. o >>= λ x'.
          if x'.found_result
          then last_poll v n ps x' (lowered (length batch) q)
          else execute_loop v n id ps x' (lowered (length batch) q))
        done
      ∙ ap
          (λ b.
            if b
            then last_poll v n ps x1 (lowered (length batch) q)
            else execute_loop v n id ps x1 (lowered (length batch) q))
          looking

  loop-found :
      (id : ℕ) (batch late : List Wc) (ps : List Polled) (x : Outcome) (own : Wc) (q : RecvQueue)
      (between futures' : Futures)
      → execute_answers v n id batch x ≡ some (outcome own between)
      → complete_all (words v n late) between ≡ some futures'
      → execute_loop v n id (completions batch ∷ completions late ∷ ps) x q
        ≡ some (outcome own futures', lowered (length batch + length late) q)
  unfolding execute_loop last_poll poll lowered
  loop-found id batch late ps x own q between futures' done last =
      let q1 = lowered (length batch) q in
      ap
        (λ o. o >>= λ x'.
          if x'.found_result
          then last_poll v n (completions late ∷ ps) x' q1
          else execute_loop v n id (completions late ∷ ps) x' q1)
        done
      ∙ ap (λ o. o >>= λ fs. some (outcome own fs, lowered (length late) q1))
          (complete_wcs-words late between ∙ last)
      ∙ ap (λ q'. some (outcome own futures', q')) (lowered-twice (length batch) (length late) q)

  words_joined :
      (batch : List Wc) (earlier : List (List Wc)) (pre post : List Wc)
      → others (batch ∷ earlier) pre post ≡ words v n batch ++ others earlier pre post
  words_joined batch earlier pre post =
      ap (λ l. l ++ (words v n pre ++ words v n post)) (words-append batch (joined earlier))
      ∙ append_assoc (words v n batch) (words v n (joined earlier))
          (words v n pre ++ words v n post)

  none_of_either :
      (id : ℕ) (xs ys : List Wc)
      → count id (words v n (xs ++ ys)) ≡ 0
      → (count id (words v n xs) ≡ 0) × (count id (words v n ys) ≡ 0)
  none_of_either id xs ys h =
      let sum =
        ap (count id) (words-append xs ys) ∙ count-append id (words v n xs) (words v n ys) in
      (omega (arith, h, sum), omega (arith, h, sum))

  execute_loop-ends :
      (id : ℕ) (earlier : List (List Wc)) (pre post late : List Wc) (own : Wc) (rest : List Polled)
      (x : Outcome) (q : RecvQueue) (between futures' : Futures)
      → x.found_result ≡ false
      → finished_invoc_id (ntohl own.imm_data) ≡ id
      → count id (words v n (joined earlier)) ≡ 0
      → count id (words v n pre) ≡ 0
      → count id (words v n post) ≡ 0
      → complete_all (others earlier pre post) x.futures ≡ some between
      → complete_all (words v n late) between ≡ some futures'
      → execute_loop v n id (polls_of earlier pre own post late rest) x q
        ≡ some (outcome own futures', lowered (polled earlier pre post late) q)
  execute_loop-ends id [] pre post late own rest x q between futures' looking mine none_earlier
        none_pre none_post done last =
      loop-found id (pre ++ own ∷ post) late rest x own q between futures'
        (execute_answers-own id pre post own x between mine none_pre none_post done) last
      ∙ ap (λ k. some (outcome own futures', lowered k q))
          (omega (arith, length-append pre (own ∷ post)))
  execute_loop-ends id (batch ∷ earlier) pre post late own rest x q between futures' looking mine
        none_earlier none_pre none_post done last =
      let none_of = none_of_either id batch (joined earlier) none_earlier in
      let (first, taken, then_) =
        complete_all-parts (words v n batch) (others earlier pre post) x.futures
          (ap (λ l. complete_all l x.futures) (sym (words_joined batch earlier pre post)) ∙ done) in
      let x1 : Outcome = record x { futures = first } in
      loop-more id batch (polls_of earlier pre own post late rest) x x1 q
        (execute_answers-others id batch x first none_of.0 taken) looking
      ∙ execute_loop-ends id earlier pre post late own rest x1 (lowered (length batch) q) between
          futures' looking mine none_of.1 none_pre none_post then_ last
      ∙ ap (λ q'. some (outcome own futures', q'))
          (lowered-twice (length batch) (polled earlier pre post late) q
            ∙ ap (λ k. lowered k q) (omega arith))

  -- A call of a known function on the first worker ends with the poll that brings its own result, the
  -- first time that it comes, and one more poll, if all other results that are polled meanwhile are of
  -- invocations that are waited for. It reports the success and the size of its own result, whatever the
  -- others say; the others complete their futures in the order in which they were polled; and every
  -- result is taken off the count of requests of the first worker.
  pub own_result_reported :
      (fname : Bytes) (f : ℕ) (input out : Buffer) (earlier : List (List Wc))
      (pre post late : List Wc) (own : Wc) (rest : List Polled) (w : Worker v n)
      (ws : List (Worker v n)) (s : Caller v n)
      → func_index fname s.func_names ≡ some f
      → s.workers ≡ w ∷ ws
      → finished_invoc_id (ntohl own.imm_data) ≡ next_invoc_id s.invoc_id
      → count (next_invoc_id s.invoc_id) (words v n (joined earlier)) ≡ 0
      → count (next_invoc_id s.invoc_id) (words v n pre) ≡ 0
      → count (next_invoc_id s.invoc_id) (words v n post) ≡ 0
      → AllKnown (others earlier pre post ++ words v n late) s.futures
      → let word = blocking_submission_id (next_invoc_id s.invoc_id) f in
        let w' = refilled v n (sent v n s.max_inline_data word input out w) in
        (futures' : Futures) × (complete_all (others earlier pre post ++ words v n late) s.futures
          ≡ some futures')
        × (execute v n fname input out (polls_of earlier pre own post late rest) s
            ≡ some (
              if return_val (ntohl own.imm_data) == 0 then (true, own.byte_len) else (false, 0),
              record s {
                invoc_id = next_invoc_id s.invoc_id;
                workers = with_queue v n (lowered (polled earlier pre post late)) w' ∷ ws;
                futures = futures';
                active_polling = false;
              },
            ))
  unfolding execute with_queue
  own_result_reported fname f input out earlier pre post late own rest w ws s known first mine
        none_earlier none_pre none_post waited =
      let id = next_invoc_id s.invoc_id in
      let word = blocking_submission_id id f in
      let w' = refilled v n (sent v n s.max_inline_data word input out w) in
      let start : Outcome = record {
        found_result = false;
        return_value = 0;
        out_size = 0;
        futures = s.futures;
      } in
      let (futures', done) = complete_all-known _ s.futures waited in
      let (between, taken, then_) =
        complete_all-parts (others earlier pre post) (words v n late) s.futures done in
      (
        futures',
        done,
        rw (known, first, execute)
            (ap
              (λ o. o >>= λ r. some (
                if r.0.return_value == 0 then (true, r.0.out_size) else (false, 0),
                record s {
                  invoc_id = id;
                  workers = with_queue v n (λ q. r.1) w' ∷ ws;
                  futures = r.0.futures;
                  active_polling = false;
                },
              ))
              (execute_loop-ends id earlier pre post late own rest start w'.link.queue between
                futures' refl mine none_earlier none_pre none_post taken then_)),
      )
