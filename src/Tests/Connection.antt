-- ===== src/Tests/Connection.antt =====
-- A queue pair with room for two sends, whose answers to polls are given.
use r_faa_s.Common.{
  ℕ, ◌+◌, ◌≤◌, ◌≡◌, ◌≢◌, refl, inl, inr, true, false, none, some, List, [], ◌∷◌, ◌++◌, map, length,
  leb, arith, if◌then◌else◌, total, Bool-cases,
}
use r_faa_s.Common.Int.{negsuc}
use r_faa_s.Rdmalib.Queue.{Polled, completions}
use r_faa_s.Rdmalib.Connection.{
  RemoteBuffer, SendRequest, QpVerbs, create_connection, CmId, close, initialize, moved_connection,
  inline_flags,
}
use r_faa_s.Rdmalib.Connection.Posting.{
  Post, writes, adds, sends, Numbered, accepted, run_posts, posts-Numbered,
}
use r_faa_s.Rdmalib.Connection.Lifetime.{
  Program, creates, initializes, moves, closes, step, object, Run, begin, after, Balanced, ends,
  given_times, identifiers_accounted,
}
use r_faa_s.Tests.Listener.{from_some}

record Two : Type 0 where
  queue : List SendRequest
  answers : List Polled

-- The sends that are accepted.
abbrev accept_two : SendRequest → Two → ℕ × Two
accept_two wr d =
    if leb 2 (length d.queue) then (12, d) else (0, record d { queue = d.queue ++ wr ∷ [] })

abbrev next_answer : Two → Polled × Two
next_answer d = elim d.answers [
  | [] ↦ (completions [], d)
  | p ∷ ps ↦ (p, record d { answers = ps })
]

accept_two-accepted :
    (wr : SendRequest) (d : Two)
    → (accept_two wr d).0 ≡ 0
    → (accept_two wr d).1.queue ≡ d.queue ++ wr ∷ []
accept_two-accepted wr d h = elim (Bool-cases (leb 2 (length d.queue))) [
  | inl full ↦ absurd (ground (arith, h, full))
  | inr room ↦ rw room refl
]

accept_two-refused :
    (wr : SendRequest) (d : Two) → (accept_two wr d).0 ≢ 0 → (accept_two wr d).1.queue ≡ d.queue
accept_two-refused wr d h = elim (Bool-cases (leb 2 (length d.queue))) [
  | inl full ↦ rw full refl
  | inr room ↦ absurd (h (rw room refl))
]

abbrev two : QpVerbs
two = record {
  Device = Two;
  post_send_verb = accept_two;
  post_recv_verb = λ wr d. (0, d);
  poll_cq = λ type count d. next_answer d;
  htonl = λ n. n;
  posted = λ d. d.queue;
  posted-accepted = accept_two-accepted;
  posted-refused = accept_two-refused;
}

abbrev idle : Two
idle = record {
  queue = [];
  answers =
      completions []
      ∷ completions (record { status = 0; wr_id = 3; qp_num = 7; imm_data = 0; byte_len = 0 } ∷ [])
      ∷ [];
}

abbrev remote : RemoteBuffer
remote = record { addr = 8192; rkey = 5 }

-- An empty write, an atomic addition, and a send that the full queue refuses.
abbrev three_posts : List Post
three_posts =
    writes (record { addr = 4096; length = 0; lkey = 1 } ∷ []) remote (some 3) true true
    ∷ adds [] remote 1
    ∷ sends [] (negsuc 0) false none
    ∷ []

posts-Numbered_example :
    ((run_posts two three_posts (create_connection false) idle).1.req_count
      ≡ (create_connection false).req_count + 3)
    × Numbered
        (create_connection false).req_count
        (run_posts two three_posts (create_connection false) idle).0
    × (map (λ w. w.wr_id) (two.posted (run_posts two three_posts (create_connection false) idle).2)
        ≡ map (λ w. w.wr_id) (two.posted idle)
          ++ accepted (run_posts two three_posts (create_connection false) idle).0)
posts-Numbered_example =
    posts-Numbered two three_posts (create_connection false) idle (refl, (refl, (refl, tt)))

abbrev nothing : Program
nothing = record { objects = []; given = []; calls = [] }

abbrev pub cm_id : CmId
cm_id = record { address = 64; qp = 7; recv_cq_channel = none; cq_channel = some 9 }

abbrev created : Program
created = from_some nothing (step (creates true) nothing)

abbrev initialized : Program
initialized = from_some nothing (step (initializes 0 cm_id) created)

abbrev moved : Program
moved = from_some nothing (step (moves 0) initialized)

abbrev closed : Program
closed = from_some nothing (step (closes 1) moved)

closed-Run : Run true 64 0 closed
unfolding step create_connection initialize moved_connection close object inline_flags
closed-Run =
    after (closes 1) 0 moved closed
      (after (moves 0) 0 initialized moved
        (after (initializes 0 cm_id) 0 created initialized
          (after (creates true) 0 nothing created begin refl) refl)
        refl)
      refl

identifiers_accounted_example :
    Balanced true 64 0 closed
    × (total (ends true 64) closed.calls ≤ given_times true 64 closed.given)
identifiers_accounted_example = identifiers_accounted true 64 0 closed closed-Run
