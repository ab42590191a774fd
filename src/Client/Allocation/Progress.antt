-- ===== src/Client/Allocation/Progress.antt =====
-- When the loop over the connections ends, and with what: rfaas/lib/executor.cpp, `executor::allocate`.
use r_faa_s.Common.{
  ℕ, zero, suc, ◌+◌, ◌≤◌, ◌<◌, ◌≡◌, refl, sym, ap, ◌∙◌, ◌⊎◌, inl, inr, true, false, List, [], ◌∷◌,
  ◌++◌, append_nil, append_assoc, leb, arith, le_or_lt, map, none, length, length-append,
}
use r_faa_s.Rdmalib.Listener.{ConnectionStatus, unknown, requested, established, disconnected}
use r_faa_s.Client.Allocation.{Worker, Loop, start, on_event, ended, waits, accept_loop}

abbrev pub count_established : List (ConnectionStatus × ℕ) → ℕ
count_established [] = 0
count_established ((established, conn) ∷ evs) = suc (count_established evs)
count_established ((_, conn) ∷ evs) = count_established evs

-- The connections that were requested, in order.
abbrev pub requests_of : List (ConnectionStatus × ℕ) → List ℕ
requests_of [] = []
requests_of ((requested, conn) ∷ evs) = conn ∷ requests_of evs
requests_of ((_, conn) ∷ evs) = requests_of evs

-- The first numbers.
abbrev pub numbers : ℕ → ℕ → List ℕ
numbers i zero = []
numbers i (suc k) = i ∷ numbers (suc i) k

-- The loop has looked at some first part of the events.
pub record Consumed (s : Loop) (evs : List (ConnectionStatus × ℕ)) (numcores : ℕ) (t : Loop)
    (rest : List (ConnectionStatus × ℕ)) : Type 0 where
  pub seen : List (ConnectionStatus × ℕ)
  pub splits : evs ≡ seen ++ rest
  pub enough : t.established ≡ numcores
  pub counted : t.established ≡ s.established + count_established seen
  pub connected : t.accepted ≡ s.accepted ++ requests_of seen

numbers-snoc : (i k : ℕ) → numbers i (suc k) ≡ numbers i k ++ (i + k) ∷ []
numbers-snoc i zero = ap (λ x. x ∷ []) (omega arith)
numbers-snoc i (suc k) =
    ap (λ l. i ∷ l) (numbers-snoc (suc i) k ∙ ap (λ x. numbers (suc i) k ++ x ∷ []) (omega arith))

numbers-next : (k : ℕ) → numbers 0 k ++ k ∷ [] ≡ numbers 0 (k + 1)
numbers-next k =
    let same : 0 + k ≡ k = omega arith in
    let next : suc k ≡ k + 1 = omega arith in
    ap (λ x. numbers 0 k ++ x ∷ []) (sym same) ∙ sym (numbers-snoc 0 k) ∙ ap (numbers 0) next

-- Every connection was accepted, and has a receive posted under its number.
pub record Posted (s : Loop) : Type 0 where
  pub posted : s.posted ≡ numbers 0 s.requests
  pub known : map (λ w. w.conn) s.connections ≡ s.accepted
  pub numbered : s.requests ≡ length s.accepted

map-snoc :
    (ws : List Worker) (w : Worker)
    → map (λ x. x.conn) (ws ++ w ∷ []) ≡ map (λ x. x.conn) ws ++ w.conn ∷ []
map-snoc [] w = refl
map-snoc (x ∷ ws) w = ap (λ l. x.conn ∷ l) (map-snoc ws w)

on_event-Posted :
    (status : ConnectionStatus) (conn : ℕ) (s : Loop) → Posted s → Posted (on_event status conn s)
unfolding on_event
on_event-Posted requested conn s p = record {
  posted = ap (λ l. l ++ s.requests ∷ []) p.posted ∙ numbers-next s.requests;
  known =
      map-snoc s.connections (record { conn = conn; remote_input = none })
      ∙ ap (λ l. l ++ conn ∷ []) p.known;
  numbered = omega (arith, p.numbered, length-append s.accepted (conn ∷ []));
}
on_event-Posted established conn s p = record {
  posted = p.posted;
  known = p.known;
  numbered = p.numbered;
}
on_event-Posted disconnected conn s p = p
on_event-Posted unknown conn s p = p

start-Posted : Posted start
unfolding start
start-Posted = record { posted = refl; known = refl; numbered = refl }

-- One event more was seen.
seen_more :
    (status : ConnectionStatus) (conn : ℕ) (evs : List (ConnectionStatus × ℕ)) (numcores : ℕ)
    (s t : Loop) (rest : List (ConnectionStatus × ℕ))
    → Consumed (on_event status conn s) evs numcores t rest
    → Consumed s ((status, conn) ∷ evs) numcores t rest
unfolding on_event
seen_more requested conn evs numcores s t rest c = record {
  seen = (requested, conn) ∷ c.seen;
  splits = ap (λ l. (requested, conn) ∷ l) c.splits;
  enough = c.enough;
  counted = c.counted;
  connected = c.connected ∙ append_assoc s.accepted (conn ∷ []) (requests_of c.seen);
}
seen_more established conn evs numcores s t rest c = record {
  seen = (established, conn) ∷ c.seen;
  splits = ap (λ l. (established, conn) ∷ l) c.splits;
  enough = c.enough;
  counted = c.counted ∙ omega arith;
  connected = c.connected;
}
seen_more disconnected conn evs numcores s t rest c = record {
  seen = (disconnected, conn) ∷ c.seen;
  splits = ap (λ l. (disconnected, conn) ∷ l) c.splits;
  enough = c.enough;
  counted = c.counted;
  connected = c.connected;
}
seen_more unknown conn evs numcores s t rest c = record {
  seen = (unknown, conn) ∷ c.seen;
  splits = ap (λ l. (unknown, conn) ∷ l) c.splits;
  enough = c.enough;
  counted = c.counted;
  connected = c.connected;
}

established_after :
    (status : ConnectionStatus) (conn : ℕ) (evs : List (ConnectionStatus × ℕ)) (s : Loop)
    → (on_event status conn s).established + count_established evs
      ≡ s.established + count_established ((status, conn) ∷ evs)
unfolding on_event
established_after requested conn evs s = refl
established_after established conn evs s = omega arith
established_after disconnected conn evs s = refl
established_after unknown conn evs s = refl

established_next :
    (status : ConnectionStatus) (conn : ℕ) (s : Loop)
    → (on_event status conn s).established ≤ suc s.established
unfolding on_event
established_next requested conn s = omega arith
established_next established conn s = omega arith
established_next disconnected conn s = omega arith
established_next unknown conn s = omega arith

abbrev Ends : ℕ → List (ConnectionStatus × ℕ) → Loop → Type 0
Ends numcores evs s =
    (t : Loop) × (rest : List (ConnectionStatus × ℕ)) × (accept_loop numcores evs s ≡ ended rest t)
    × Consumed s evs numcores t rest
    × Posted t

Ends-here :
    (numcores : ℕ) (evs : List (ConnectionStatus × ℕ)) (s : Loop)
    → numcores ≤ s.established
    → s.established ≤ numcores
    → Posted s
    → Ends numcores evs s
unfolding accept_loop
Ends-here numcores [] s lo hi p =
    let full : leb numcores s.established ≡ true = ground arith in
    (
      s,
      [],
      rw (full, accept_loop) refl,
      record {
        seen = [];
        splits = refl;
        enough = omega arith;
        counted = omega arith;
        connected = sym (append_nil s.accepted);
      },
      p,
    )
Ends-here numcores ((status, conn) ∷ evs) s lo hi p =
    let full : leb numcores s.established ≡ true = ground arith in
    (
      s,
      (status, conn) ∷ evs,
      rw (full, accept_loop) refl,
      record {
        seen = [];
        splits = refl;
        enough = omega arith;
        counted = omega arith;
        connected = sym (append_nil s.accepted);
      },
      p,
    )

goes_on :
    (numcores : ℕ) (status : ConnectionStatus) (conn : ℕ) (evs : List (ConnectionStatus × ℕ))
    (s : Loop)
    → s.established < numcores
    → accept_loop numcores ((status, conn) ∷ evs) s
      ≡ accept_loop numcores evs (on_event status conn s)
unfolding accept_loop
goes_on numcores status conn evs s lt =
    let more : leb numcores s.established ≡ false = ground arith in rw (more, accept_loop) refl

accept-Ends :
    (numcores : ℕ) (evs : List (ConnectionStatus × ℕ)) (s : Loop)
    → s.established ≤ numcores
    → numcores ≤ s.established + count_established evs
    → Posted s
    → Ends numcores evs s
accept-Ends numcores [] s hi enough p = Ends-here numcores [] s (omega arith) hi p
accept-Ends numcores ((status, conn) ∷ evs) s hi enough p = elim (le_or_lt numcores s.established) [
  | inl full ↦ Ends-here numcores ((status, conn) ∷ evs) s full hi p
  | inr lt ↦
      let s' = on_event status conn s in
      let (t, rest, done, c, q) =
        accept-Ends numcores evs s' (omega (arith, established_next status conn s))
          (omega (arith, established_after status conn evs s)) (on_event-Posted status conn s p) in
      (
        t,
        rest,
        goes_on numcores status conn evs s lt ∙ done,
        seen_more status conn evs numcores s t rest c,
        q,
      )
]

accept_waits :
    (numcores : ℕ) (evs : List (ConnectionStatus × ℕ)) (s : Loop)
    → s.established + count_established evs < numcores
    → (t : Loop) × (accept_loop numcores evs s ≡ waits t)
unfolding accept_loop
accept_waits numcores [] s few =
    let more : leb numcores s.established ≡ false = ground arith in (s, rw (more, accept_loop) refl)
accept_waits numcores ((status, conn) ∷ evs) s few =
    let (t, e) =
      accept_waits numcores evs (on_event status conn s)
        (omega (arith, established_after status conn evs s)) in
    (t, goes_on numcores status conn evs s (omega arith) ∙ e)

-- The loop ends as soon as the events bring as many established connections as there are cores, and only
-- then. When it ends, it has accepted exactly the connections that were requested in the events that it
-- has seen, in order, and keeps these; it has counted them and posted one receive for each, under its
-- number.
pub allocation_ends :
    (numcores : ℕ) (evs : List (ConnectionStatus × ℕ))
    → ((numcores ≤ count_established evs)
        × (t : Loop) × (rest : List (ConnectionStatus × ℕ)) × (seen : List (ConnectionStatus × ℕ))
        × (accept_loop numcores evs start ≡ ended rest t)
        × (evs ≡ seen ++ rest)
        × (count_established seen ≡ numcores)
        × (t.accepted ≡ requests_of seen)
        × (map (λ w. w.conn) t.connections ≡ requests_of seen)
        × (t.requests ≡ length (requests_of seen))
        × (t.posted ≡ numbers 0 (length (requests_of seen))))
      ⊎ ((count_established evs < numcores)
          × (t : Loop) × (accept_loop numcores evs start ≡ waits t))
unfolding start
allocation_ends numcores evs = elim (le_or_lt numcores (count_established evs)) [
  | inl enough ↦
      let (t, rest, done, c, p) =
        accept-Ends numcores evs start (omega arith) (omega arith) start-Posted in
      inl (
        enough,
        t,
        rest,
        c.seen,
        done,
        c.splits,
        omega (arith, c.counted, c.enough),
        c.connected,
        p.known ∙ c.connected,
        p.numbered ∙ ap length c.connected,
        p.posted ∙ ap (numbers 0) (p.numbered ∙ ap length c.connected),
      )
  | inr few ↦ let (t, e) = accept_waits numcores evs start (omega arith) in inr (few, t, e)
]
