-- ===== src/Rdmalib/Connection/Posting.antt =====
-- How posted requests are numbered, and what the posting functions return: rdmalib/lib/connection.cpp.
use r_faa_s.Common.{
  ℕ, suc, ◌+◌, ◌≡◌, ◌⊎◌, inl, inr, refl, sym, ap, ◌∙◌, Bool, Option, List, [], ◌∷◌, map, length,
  arith, Bool-cases, ◌==◌, ◌++◌, append_nil, append_assoc, ==_iff, subst,
}
use r_faa_s.Common.Int.{ℤ, pos, negsuc, ◌-ℤ◌, int_laws}
use r_faa_s.Rdmalib.Connection.{
  Sge, RemoteBuffer, SendRequest, QpVerbs, Connection, automatic, numbered, post_request,
  send_request, post_send, write_request, post_write, atomic_request, post_cas, post_atomic_fadd,
}

-- A call of one of the posting functions.
pub data Post : Type 0 where
  sends : List Sge → ℤ → Bool → Option ℕ → Post
  writes : List Sge → RemoteBuffer → Option ℕ → Bool → Bool → Post
  compares : List Sge → RemoteBuffer → ℕ → ℕ → Post
  adds : List Sge → RemoteBuffer → ℕ → Post

-- The identifier that a call asks for; -1 asks for a number.
abbrev pub asked : Post → ℤ
asked (sends elems id inlined immediate) = id
asked _ = automatic

abbrev pub AllAutomatic : List Post → Type 0
AllAutomatic [] = Unit {0}
AllAutomatic (p ∷ ps) = (asked p ≡ automatic) × AllAutomatic ps

-- Every result is -1 or its call's own number, the first of which is `n`.
abbrev pub Numbered : ℕ → List ℤ → Type 0
Numbered n [] = Unit {0}
Numbered n (r ∷ rs) = ((r ≡ pos n) ⊎ (r ≡ negsuc 0)) × Numbered (suc n) rs

-- The results that are not -1.
abbrev pub accepted : List ℤ → List ℤ
accepted [] = []
accepted (pos n ∷ rs) = pos n ∷ accepted rs
accepted (negsuc n ∷ rs) = accepted rs

accepted-cons : (r : ℤ) (rs : List ℤ) → accepted (r ∷ []) ++ accepted rs ≡ accepted (r ∷ rs)
accepted-cons (pos n) rs = refl
accepted-cons (negsuc n) rs = refl

map-append {ℓ κ} :
    {A : Type ℓ} {B : Type κ} (f : A → B) (xs ys : List A) → map f (xs ++ ys) ≡ map f xs ++ map f ys
map-append f [] ys = refl
map-append f (x ∷ xs) ys = ap (λ l. f x ∷ l) (map-append f xs ys)

last_number : (n m : ℕ) → m ≡ suc n → pos m -ℤ pos 1 ≡ pos n
last_number n m e = omega (int_laws, e)

module _ (v : QpVerbs) where
  open v use {Device, post_send_verb, posted, posted-accepted, posted-refused}

  unfoldable pub post : Post → Connection → Device → ℤ × Connection × Device
  post (sends elems id inlined immediate) c d = post_send v elems id inlined immediate c d
  post (writes elems rbuf immediate inlined solicited) c d =
      post_write v elems rbuf immediate inlined solicited c d
  post (compares elems rbuf compare swap) c d = post_cas v elems rbuf compare swap c d
  post (adds elems rbuf add) c d = post_atomic_fadd v elems rbuf add c d

  unfoldable pub run_posts : List Post → Connection → Device → List ℤ × Connection × Device
  unfolding post
  run_posts [] c d = ([], c, d)
  run_posts (p ∷ ps) c d =
      let (r, c', d') = post p c d in let (rs, c'', d'') = run_posts ps c' d' in (r ∷ rs, c'', d'')

  -- One call: its request gets the next number, and is in the queue if the result says so.
  record Counted (c : Connection) (d : Device) (r : ℤ) (c' : Connection) (d' : Device)
      : Type 0 where
    pub count : c'.req_count ≡ suc c.req_count
    pub number : (r ≡ pos c.req_count) ⊎ (r ≡ negsuc 0)
    pub queue : map (λ w. w.wr_id) (posted d') ≡ map (λ w. w.wr_id) (posted d) ++ accepted (r ∷ [])

  request-Counted :
      (wr : SendRequest) (c c' : Connection) (d : Device)
      → wr.wr_id ≡ pos c.req_count
      → c'.req_count ≡ suc c.req_count
      → let r = post_request v wr c' d in Counted c d r.0 r.1 r.2
  unfolding post_request
  request-Counted wr c c' d own next = elim (Bool-cases ((post_send_verb wr d).0 == 0)) [
    | inl ok ↦
        let zero_ret = (==_iff (post_send_verb wr d).0 0).0 ok in
        let last : pos c'.req_count -ℤ pos 1 ≡ pos c.req_count =
          last_number c.req_count c'.req_count next in
        record {
          count = next;
          number = inl (rw ok last);
          queue =
              ap (map (λ w. w.wr_id)) (posted-accepted wr d zero_ret)
              ∙ map-append (λ w. w.wr_id) (posted d) (wr ∷ [])
              ∙ ap (λ i. map (λ w. w.wr_id) (posted d) ++ i ∷ []) own
              ∙ rw (ok, last) refl;
        }
    | inr bad ↦
        let refused = posted-refused wr d (λ e. absurd (ground (arith, e, bad))) in
        record {
          count = next;
          number = inr (rw bad refl);
          queue =
              ap (map (λ w. w.wr_id)) refused
              ∙ sym (append_nil (map (λ w. w.wr_id) (posted d)))
              ∙ rw bad refl;
        }
  ]

  post-Counted :
      (p : Post) (c : Connection) (d : Device)
      → asked p ≡ automatic
      → let r = post p c d in Counted c d r.0 r.1 r.2
  unfolding post post_send post_write post_cas post_atomic_fadd numbered
  post-Counted (sends elems id inlined immediate) c d h = rw h (
      request-Counted _ c (record c { req_count = c.req_count + 1 }) d (unfold send_request in refl)
        (omega arith))
  post-Counted (writes elems rbuf immediate inlined solicited) c d h =
      request-Counted _ c (record c { req_count = c.req_count + 1 }) d
        (unfold write_request in refl) (omega arith)
  post-Counted (compares elems rbuf compare swap) c d h =
      request-Counted _ c (record c { req_count = c.req_count + 1 }) d
        (unfold atomic_request in refl) (omega arith)
  post-Counted (adds elems rbuf add) c d h =
      request-Counted _ c (record c { req_count = c.req_count + 1 }) d
        (unfold atomic_request in refl) (omega arith)

  -- Calls that ask for a number get consecutive ones, whether the device accepts their requests or not;
  -- each returns its own number or -1; and the send queue has got just those requests whose call did
  -- not return -1, in the order of the calls and under the numbers that they returned.
  pub posts-Numbered :
      (ps : List Post) (c : Connection) (d : Device)
      → AllAutomatic ps
      → let r = run_posts ps c d in
        (r.1.req_count ≡ c.req_count + length ps)
        × Numbered c.req_count r.0
        × (map (λ w. w.wr_id) (posted r.2) ≡ map (λ w. w.wr_id) (posted d) ++ accepted r.0)
  unfolding run_posts
  posts-Numbered [] c d h = (omega arith, tt, sym (append_nil _))
  posts-Numbered (p ∷ ps) c d h =
      let r = post p c d in
      let step = post-Counted p c d h.0 in
      let (count, numbers, queue) = posts-Numbered ps r.1 r.2 h.1 in
      (
        omega (arith, count, step.count),
        (step.number, subst (λ n. Numbered n (run_posts ps r.1 r.2).0) step.count numbers),
        queue
            ∙ ap (λ q. q ++ accepted (run_posts ps r.1 r.2).0) step.queue
            ∙ append_assoc (map (λ w. w.wr_id) (posted d)) (accepted (r.0 ∷ []))
                (accepted (run_posts ps r.1 r.2).0)
            ∙ ap (λ q. map (λ w. w.wr_id) (posted d) ++ q)
                (accepted-cons r.0 (run_posts ps r.1 r.2).0),
      )
