-- ===== src/Client/Callbacks/RoundTrip.antt =====
-- An asynchronous call, the worker's answer to it, and the callback: rfaas/include/rfaas/executor.hpp,
-- rfaas/lib/executor.cpp and server/executor/fast_executor.cpp.
use r_faa_s.Common.{
  ℕ, ◌^◌, ◌<◌, ◌≤◌, ◌≡◌, refl, ap, ◌∙◌, Bool, false, some, List, [], ◌∷◌, ◌++◌, Bytes, nat_eq, find,
  assign, get_elem?, set, arith, ◌>>=◌, if◌then◌else◌, find-assign_self, get_elem?-set_self,
  get_elem?-lt,
}
use r_faa_s.Common.Int.{ℤ, pos, ◌-ℤ◌}
use r_faa_s.Rdmalib.Queue.{Wc, Polled, completions, Verbs, poll}
use r_faa_s.Client.Submission.{
  next_invoc_id, submission_id, return_val, finished_invoc_id, func_index,
}
use r_faa_s.Client.Invocation.{NetworkOrder, answered, invocation_round_trip}
use r_faa_s.Client.Callbacks.{
  Callback, called, Buffer, Worker, Client, counted_down, write_of, post_write, refilled,
  refill_connection, async_callback, answer, answers, poll_connection, poll_queue_once,
}

if_false {ℓ} : {A : Type ℓ} {b : Bool} (x y : A) → b ≡ false → (if b then x else y) ≡ y
if_false x y h = rw h refl

id_fits : (id : ℕ) → id ≤ 65535 → next_invoc_id id < 2 ^ 16
unfolding next_invoc_id
id_fits id h = ground arith

module _ (v : Verbs) (n : NetworkOrder) where
  open n use {ntohl}

  abbrev C : Type 0
  C = Client v n

  written : Buffer → Buffer → ℤ → ℕ → C → Worker v n → Worker v n
  written input out size word s w = record w {
    writes = w.writes ++ write_of v n input out size s.max_inline_data word w ∷ [];
  }

  post_write-some :
      (input out : Buffer) (size : ℤ) (word : ℕ) (s : C) (w : Worker v n)
      → get_elem? s.connections 0 ≡ some w
      → post_write v n input out size word 0 s
        ≡ some (record s { connections = set s.connections 0 (written input out size word s w) })
  unfolding post_write written
  post_write-some input out size word s w here = rw (here, post_write) refl

  refill-some :
      (s : C) (w : Worker v n)
      → get_elem? s.connections 0 ≡ some w
      → refill_connection v n 0 s
        ≡ some (record s { connections = set s.connections 0 (refilled v n w) })
  unfolding refill_connection
  refill-some s w here = rw (here, refill_connection) refl

  first_set :
      (ws : List (Worker v n)) (w w' : Worker v n)
      → get_elem? ws 0 ≡ some w
      → get_elem? (set ws 0 w') 0 ≡ some w'
  first_set ws w w' here = get_elem?-set_self ws 0 w' (get_elem?-lt ws 0 here)

  abbrev entry_of : ℕ → Buffer → Callback
  entry_of function out = record {
    remaining = pos 1;
    function = function;
    out = out.address;
    para = 0;
  }

  -- What a call of a known function leaves behind.
  record Submitted (input out : Buffer) (size : ℤ) (function f : ℕ) (s : C) (w : Worker v n)
      (s1 : C) : Type 0 where
    entry : s1.callbacks ≡ assign (next_invoc_id s.invoc_id) (entry_of function out) s.callbacks
    calls : s1.calls ≡ s.calls
    going : s1.end_requested ≡ s.end_requested
    worker : Worker v n
    first : get_elem? s1.connections 0 ≡ some worker
    writes :
        worker.writes
        ≡ w.writes
          ++ write_of v n input out size s.max_inline_data
              (submission_id (next_invoc_id s.invoc_id) f)
              w
            ∷ []

  async-Submitted :
      (fname : Bytes) (input out : Buffer) (function f : ℕ) (size : ℤ) (s : C) (w : Worker v n)
      → func_index fname s.func_names ≡ some f
      → get_elem? s.connections 0 ≡ some w
      → (s1 : C) × (async_callback v n fname input out function size s ≡ some s1)
        × Submitted input out size function f s w s1
  unfolding async_callback refilled written
  async-Submitted fname input out function f size s w known here =
      let id = next_invoc_id s.invoc_id in
      let word = submission_id id f in
      let s0 : C = record s {
        invoc_id = id;
        callbacks = assign id (entry_of function out) s.callbacks;
      } in
      let w1 = written input out size word s w in
      let conns = set s.connections 0 w1 in
      let s1 : C = record s0 { connections = conns } in
      let there = first_set s.connections w w1 here in
      (
        record s1 { connections = set conns 0 (refilled v n w1) },
        rw (known, async_callback)
            (ap (λ o. o >>= refill_connection v n 0) (post_write-some input out size word s0 w here)
              ∙ refill-some s1 w1 there),
        record {
          entry = refl;
          calls = refl;
          going = refl;
          worker = refilled v n w1;
          first = first_set conns w1 (refilled v n w1) there;
          writes = refl;
        },
      )

  answer-called :
      (word : ℕ) (s : C) (c : Callback)
      → find (finished_invoc_id word) s.callbacks ≡ some c
      → c.remaining ≡ pos 1
      → answer v n word s
        ≡ some (record s {
          callbacks = assign (finished_invoc_id word) (counted_down c).0 s.callbacks;
          calls = s.calls ++ called c.function (return_val word) c.out ∷ [];
        })
  unfolding answer counted_down ◌-ℤ◌
  answer-called word s c here h = rw (here, answer, h) refl

  poll-some :
      (p : Polled) (s : C) (w : Worker v n)
      → get_elem? s.connections 0 ≡ some w
      → poll_connection v n p 0 s
        ≡ some (record s {
          connections =
              set s.connections 0
                (record w { link = record w.link { queue = (poll p w.link.queue).0 } });
        })
  unfolding poll_connection
  poll-some p s w here = rw (here, poll_connection) refl

  -- The poll of one result that the last answer of an invocation gives.
  poll-called :
      (wc : Wc) (s : C) (w : Worker v n) (c : Callback)
      → s.end_requested ≡ false
      → get_elem? s.connections 0 ≡ some w
      → find (finished_invoc_id (ntohl wc.imm_data)) s.callbacks ≡ some c
      → c.remaining ≡ pos 1
      → (s' : C) × (poll_queue_once v n (completions (wc ∷ [])) 0 s ≡ some s')
        × (s'.calls ≡ s.calls ++ called c.function (return_val (ntohl wc.imm_data)) c.out ∷ [])
  unfolding poll_queue_once answers
  poll-called wc s w c going here waits last =
      let p = completions (wc ∷ []) in
      let w1 : Worker v n = record w { link = record w.link { queue = (poll p w.link.queue).0 } } in
      let s1 : C = record s { connections = set s.connections 0 w1 } in
      let word = ntohl wc.imm_data in
      let s2 : C = record s1 {
        callbacks = assign (finished_invoc_id word) (counted_down c).0 s.callbacks;
        calls = s.calls ++ called c.function (return_val word) c.out ∷ [];
      } in
      let there = first_set s.connections w w1 here in
      (
        record s2 { connections = set s2.connections 0 (refilled v n w1) },
        if_false (some s) _ going
            ∙ ap (λ o. (o >>= answers v n (wc ∷ [])) >>= refill_connection v n 0)
                (poll-some p s w here)
            ∙ ap (λ o. (o >>= λ t. some t) >>= refill_connection v n 0)
                (answer-called word s1 c waits last)
            ∙ refill-some s2 w1 there,
        refl,
      )

  -- A call of a known function stores its callback and writes to the first worker, once; when the
  -- worker's answer to the word that was written is polled, the callback is called, with the return
  -- value 0 and the buffer of the call.
  pub callback_round_trip :
      (fname : Bytes) (input out : Buffer) (function f : ℕ) (size : ℤ) (wc : Wc) (s : C)
      (w : Worker v n)
      → func_index fname s.func_names ≡ some f
      → f < 2 ^ 15
      → s.invoc_id ≤ 65535
      → get_elem? s.connections 0 ≡ some w
      → s.end_requested ≡ false
      → ntohl wc.imm_data ≡ answered n (submission_id (next_invoc_id s.invoc_id) f)
      → let word = submission_id (next_invoc_id s.invoc_id) f in
        (s1 : C) × (s2 : C) × (w1 : Worker v n) × (async_callback v n fname input out function size
            s
          ≡ some s1)
        × (get_elem? s1.connections 0 ≡ some w1)
        × (w1.writes ≡ w.writes ++ write_of v n input out size s.max_inline_data word w ∷ [])
        × (s1.calls ≡ s.calls)
        × (poll_queue_once v n (completions (wc ∷ [])) 0 s1 ≡ some s2)
        × (s2.calls ≡ s.calls ++ called function 0 out.address ∷ [])
  callback_round_trip fname input out function f size wc s w known small low here going answers =
      let id = next_invoc_id s.invoc_id in
      let (s1, done, sub) = async-Submitted fname input out function f size s w known here in
      let trip = (invocation_round_trip n id f (id_fits s.invoc_id low) small).0 in
      let named : finished_invoc_id (ntohl wc.imm_data) ≡ id =
        ap finished_invoc_id answers ∙ trip.2 in
      let value : return_val (ntohl wc.imm_data) ≡ 0 = ap return_val answers ∙ trip.3 in
      let waits : find (finished_invoc_id (ntohl wc.imm_data)) s1.callbacks
          ≡ some (entry_of function out) =
        ap (λ i. find i s1.callbacks) named
        ∙ ap (find id) sub.entry
        ∙ find-assign_self id (entry_of function out) s.callbacks in
      let (s2, polled, calls) =
        poll-called wc s1 sub.worker (entry_of function out) (sub.going ∙ going) sub.first waits
          refl in
      (
        s1,
        s2,
        sub.worker,
        done,
        sub.first,
        sub.writes,
        sub.calls,
        polled,
        calls
            ∙ ap (λ x. x ++ called function (return_val (ntohl wc.imm_data)) out.address ∷ [])
                sub.calls
            ∙ ap (λ x. s.calls ++ called function x out.address ∷ []) value,
      )
