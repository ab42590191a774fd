-- ===== src/Client/Callbacks.antt =====
-- rfaas/include/rfaas/executor.hpp and rfaas/lib/executor.cpp: invocations whose results are given to a
-- callback. `none` stands for the use of an iterator at the end or of a connection that is not there. What
-- a callback does is not modelled, only that it is called; the polls of the send queue are left out.
pub mod Calls
pub mod RoundTrip
use r_faa_s.Common.{
  ℕ, zero, suc, ◌+◌, Bool, true, false, not, Option, none, some, List, [], ◌∷◌, ◌++◌, Bytes, Map,
  nat_eq, find, assign, get_elem?, set, map, ◌==◌, ◌>>=◌, if◌then◌else◌,
}
use r_faa_s.Common.Int.{ℤ, pos, negsuc, ◌-ℤ◌, eqb_ℤ, ltb_ℤ}
use r_faa_s.Rdmalib.Queue.{Wc, Polled, wcs_of, Verbs, Link, poll, refilled_link}
use r_faa_s.Client.Submission.{
  next_invoc_id, submission_id, return_val, finished_invoc_id, func_index,
}
use r_faa_s.Client.Invocation.{NetworkOrder}

-- An entry of `_callbacks` or `_callbacks2`. A callback and a buffer are named by their addresses.
pub record Callback : Type 0 where
  pub remaining : ℤ
  pub function : ℕ
  pub out : ℕ
  pub para : ℕ

-- A call of a callback: of the first kind with a result and a buffer, of the second with the identifier
-- of the invocation, the context and the parameter.
pub data Called : Type 0 where
  called : ℕ → ℕ → ℕ → Called
  called2 : ℕ → ℕ → ℕ → ℕ → Called

-- A registered buffer.
pub record Buffer : Type 0 where
  pub address : ℕ
  pub rkey : ℕ
  pub bytes : ℕ

-- A write with an immediate value: the header at the start of the input, how much is written from it,
-- and to where.
pub record Write : Type 0 where
  pub input : ℕ
  pub header_address : ℕ
  pub header_rkey : ℕ
  pub size : ℤ
  pub target : ℕ
  pub immediate : ℕ
  pub inlined : Bool

-- One step of an entry: the last answer that is missing calls the callback.
unfoldable pub counted_down : Callback → Callback × Bool
counted_down c =
    let remaining = c.remaining -ℤ pos 1 in
    (record c { remaining = remaining }, eqb_ℤ remaining (pos 0))

module _ (v : Verbs) (n : NetworkOrder) where
  open n use {htonl, ntohl}

  -- `executor_state`: the remote input and the receive side of the connection.
  pub record Worker : Type 0 where
    pub remote_input : ℕ
    pub link : Link v
    pub writes : List Write

  -- `executor`, as far as the callbacks go.
  pub record Client : Type 0 where
    pub func_names : List Bytes
    pub invoc_id : ℕ
    pub max_inline_data : ℤ
    pub connections : List Worker
    pub callbacks : Map ℕ Callback
    pub callbacks2 : Map ℕ Callback
    pub calls : List Called
    pub context : ℕ
    pub end_requested : Bool

  -- `post_write` of the input to the connection; without a size all of it is written.
  unfoldable pub write_of : Buffer → Buffer → ℤ → ℤ → ℕ → Worker → Write
  write_of input out size max_inline_data word w =
      let bytes = if eqb_ℤ size (negsuc 0) then pos input.bytes else size in
      record {
        input = input.address;
        header_address = out.address;
        header_rkey = out.rkey;
        size = bytes;
        target = w.remote_input;
        immediate = htonl word;
        inlined = not (ltb_ℤ max_inline_data bytes);
      }

  unfoldable pub post_write : Buffer → Buffer → ℤ → ℕ → ℕ → Client → Option Client
  unfolding write_of
  post_write input out size word cid s = do
    w ← get_elem? s.connections cid
    let w' = record w {
      writes = w.writes ++ write_of input out size s.max_inline_data word w ∷ [];
    } in
        some (record s { connections = set s.connections cid w' })

  -- `receive_wcs().refill()` on a connection.
  unfoldable pub refilled : Worker → Worker
  refilled w = record w { link = refilled_link v w.link }

  unfoldable pub refill_connection : ℕ → Client → Option Client
  unfolding refilled
  refill_connection cid s = do
    w ← get_elem? s.connections cid
    some (record s { connections = set s.connections cid (refilled w) })

  -- `async_callback` for the first worker.
  unfoldable pub async_callback : Bytes → Buffer → Buffer → ℕ → ℤ → Client → Option Client
  unfolding post_write refill_connection
  async_callback fname input out function size s = elim (func_index fname s.func_names) [
    | none ↦ some s
    | some func_idx ↦ do
      let invoc_id = next_invoc_id s.invoc_id in
          let entry : Callback = record {
            remaining = pos 1;
            function = function;
            out = out.address;
            para = 0;
          } in
          let s' : Client = record s {
            invoc_id = invoc_id;
            callbacks = assign invoc_id entry s.callbacks;
          } in
          (post_write input out size (submission_id invoc_id func_idx) 0 s' >>= refill_connection 0)
  ]

  -- `async_callback` with a parameter, which is the number of the connection; all connections are
  -- refilled.
  unfoldable pub async_callback2 : Bytes → Buffer → Buffer → ℕ → ℕ → ℤ → Client → Option Client
  unfolding post_write refilled
  async_callback2 fname input out para function size s = elim (func_index fname s.func_names) [
    | none ↦ some s
    | some func_idx ↦ do
      let invoc_id = next_invoc_id s.invoc_id in
          let entry : Callback = record {
            remaining = pos 1;
            function = function;
            out = out.address;
            para = para;
          } in
          let s' : Client = record s {
            invoc_id = invoc_id;
            callbacks2 = assign invoc_id entry s.callbacks2;
          } in
          (post_write input out size (submission_id invoc_id func_idx) para s' >>= λ s''.
          some (record s'' { connections = map refilled s''.connections }))
  ]

  -- One result in `poll_queue_once`, and one in `poll_queue_once2`.
  unfoldable pub answer : ℕ → Client → Option Client
  unfolding counted_down
  answer word s = do
    c ← find (finished_invoc_id word) s.callbacks
    some (record s {
      callbacks = assign (finished_invoc_id word) (counted_down c).0 s.callbacks;
      calls =
          if (counted_down c).1
          then s.calls ++ called c.function (return_val word) c.out ∷ []
          else s.calls;
    })

  unfoldable pub answer2 : ℕ → Client → Option Client
  unfolding counted_down
  answer2 word s = do
    c ← find (finished_invoc_id word) s.callbacks2
    some (record s {
      callbacks2 = assign (finished_invoc_id word) (counted_down c).0 s.callbacks2;
      calls =
          if (counted_down c).1
          then s.calls ++ called2 c.function (finished_invoc_id word) s.context c.para ∷ []
          else s.calls;
    })

  -- The loops over the results; the status of a completion is not looked at.
  unfoldable pub answers : List Wc → Client → Option Client
  unfolding answer
  answers [] s = some s
  answers (wc ∷ wcs) s = do s' ← answer (ntohl wc.imm_data) s; answers wcs s'

  unfoldable pub answers2 : List Wc → Client → Option Client
  unfolding answer2
  answers2 [] s = some s
  answers2 (wc ∷ wcs) s = do s' ← answer2 (ntohl wc.imm_data) s; answers2 wcs s'

  -- `receive_wcs().poll(false)` on a connection, which gives what was polled.
  unfoldable pub poll_connection : Polled → ℕ → Client → Option Client
  poll_connection polled cid s = do
    w ← get_elem? s.connections cid
    some (record s {
      connections =
          set s.connections cid
            (record w { link = record w.link { queue = (poll polled w.link.queue).0 } });
    })

  -- `poll_queue_once` polls the first connection, `poll_queue_once2` the given one.
  unfoldable pub poll_queue_once : Polled → ℕ → Client → Option Client
  unfolding poll_connection answers refill_connection
  poll_queue_once polled cid s =
      let polled_all =
        (poll_connection polled 0 s >>= answers (wcs_of polled)) >>= refill_connection cid in
      if s.end_requested then some s else polled_all

  unfoldable pub poll_queue_once2 : Polled → ℕ → Client → Option Client
  unfolding poll_connection answers2 refill_connection
  poll_queue_once2 polled cid s =
      let polled_all =
        (poll_connection polled cid s >>= answers2 (wcs_of polled)) >>= refill_connection cid in
      if s.end_requested then some s else polled_all
