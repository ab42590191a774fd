-- ===== src/Rdmalib/Connection.antt =====
-- rdmalib/lib/connection.cpp, `Connection`: requests that are posted to a queue pair, and the life of
-- the communication identifier behind it. The verbs are a parameter; pointers are numbers.
pub mod Posting
pub mod Waiting
pub mod Lifetime
use r_faa_s.Common.{
  ℕ, zero, suc, ◌+◌, ◌≡◌, ◌≢◌, Bool, true, false, ◌||◌, ◌&&◌, Option, none, some, List, [], ◌∷◌,
  ◌++◌, length, ◌==◌, if◌then◌else◌,
}
use r_faa_s.Common.Int.{ℤ, pos, negsuc, ◌-ℤ◌, eqb_ℤ}
use r_faa_s.Rdmalib.Queue.{Wc, Polled, failed, completions}
use r_faa_s.Rdmalib.Listener.{ConnectionStatus, unknown, disconnected}

-- `ibv_sge`
pub record Sge : Type 0 where
  pub addr : ℕ
  pub length : ℕ
  pub lkey : ℕ

pub data Opcode : Type 0 where
  op_send op_send_with_imm op_rdma_write op_rdma_write_with_imm : Opcode
  op_cmp_and_swp op_fetch_and_add : Opcode

pub record Flags : Type 0 where
  pub signaled : Bool
  pub inlined : Bool
  pub solicited : Bool

-- `RemoteBuffer`
pub record RemoteBuffer : Type 0 where
  pub addr : ℕ
  pub rkey : ℕ

-- `ibv_send_wr`. What its opcode does not use is left out or 0.
pub record SendRequest : Type 0 where
  pub wr_id : ℤ
  pub opcode : Opcode
  pub sges : List Sge
  pub imm_data : Option ℕ
  pub remote : Option RemoteBuffer
  pub flags : Flags
  pub compare_add : ℕ
  pub swap : ℕ

-- `ibv_recv_wr`
pub record RecvRequest : Type 0 where
  pub wr_id : ℤ
  pub sges : List Sge

pub data QueueType : Type 0 where
  send_queue recv_queue : QueueType

-- `ibv_post_send`, `ibv_post_recv` and `ibv_poll_cq` on the connection's queue pair, and `htonl`. The
-- send queue of the pair, `posted`, gets a request at its end if `ibv_post_send` returns 0.
pub record QpVerbs : Type 1 where
  pub Device : Type 0
  pub post_send_verb : SendRequest → Device → ℕ × Device
  pub post_recv_verb : RecvRequest → Device → ℕ × Device
  pub poll_cq : QueueType → ℕ → Device → Polled × Device
  pub htonl : ℕ → ℕ
  pub posted : Device → List SendRequest
  pub posted-accepted :
      (wr : SendRequest) (d : Device)
      → (post_send_verb wr d).0 ≡ 0
      → posted (post_send_verb wr d).1 ≡ posted d ++ wr ∷ []
  pub posted-refused :
      (wr : SendRequest) (d : Device)
      → (post_send_verb wr d).0 ≢ 0
      → posted (post_send_verb wr d).1 ≡ posted d

pub record Connection : Type 0 where
  pub id : Option ℕ
  pub qp : Option ℕ
  pub channel : Option ℕ
  pub req_count : ℕ
  pub private_data : ℕ
  pub passive : Bool
  pub status : ConnectionStatus
  pub send_flags : Flags

-- The flags of `inlining`.
unfoldable pub inline_flags : Bool → Flags
inline_flags enable = record { signaled = true; inlined = enable; solicited = false }

unfoldable pub inlining : Bool → Connection → Connection
unfolding inline_flags
inlining enable c = record c { send_flags = inline_flags enable }

unfoldable pub create_connection : Bool → Connection
unfolding inlining inline_flags
create_connection passive = record {
  id = none;
  qp = none;
  channel = none;
  req_count = 0;
  private_data = 0;
  passive = passive;
  status = unknown;
  send_flags = inline_flags false;
}

-- `rdma_cm_id`: its queue pair, its own channel for receives, and that of the completion queue.
pub record CmId : Type 0 where
  pub address : ℕ
  pub qp : ℕ
  pub recv_cq_channel : Option ℕ
  pub cq_channel : Option ℕ

unfoldable pub initialize : CmId → Connection → Connection
initialize id c = record c {
  id = some id.address;
  qp = some id.qp;
  channel = elim id.recv_cq_channel [ none ↦ id.cq_channel | some ch ↦ some ch ];
}

-- `Connection(Connection&&)`: the new object has all fields, and this is left of the other one.
unfoldable pub moved_connection : Connection → Connection
moved_connection obj = record obj { id = none; qp = none; req_count = 0 }

-- What `close` calls: the queue pair goes first, and the identifier goes the way it came.
pub data CmCall : Type 0 where
  destroy_qp destroy_ep destroy_id : ℕ → CmCall

unfoldable pub close : Connection → Connection × List CmCall
close c = elim c.id [
  | none ↦ (c, [])
  | some id ↦ (
    record c { id = none; status = disconnected },
    destroy_qp id ∷ (if c.passive then destroy_id id else destroy_ep id) ∷ [],
  )
]

-- `id == -1 ? _req_count++ : id`
abbrev pub automatic : ℤ
automatic = negsuc 0

unfoldable pub numbered : ℤ → Connection → ℤ × Connection
numbered id c =
    if eqb_ℤ id automatic
    then (pos c.req_count, record c { req_count = c.req_count + 1 })
    else (id, c)

-- The flags of a request.
unfoldable pub flags_of : Bool → Bool → Connection → Flags
unfolding inline_flags
flags_of force_inline force_solicited c =
    let flags = if force_inline then inline_flags true else c.send_flags in
    if force_solicited then record flags { solicited = true } else flags

-- The only element of a write is dropped if it is empty.
abbrev pub written : List Sge → List Sge
written (e ∷ []) = if e.length == 0 then [] else e ∷ []
written elems = elems

module _ (v : QpVerbs) where
  open v use {Device, post_send_verb, post_recv_verb, poll_cq, htonl}

  -- What the posting functions return: -1, or the last number that was given out.
  unfoldable pub post_request : SendRequest → Connection → Device → ℤ × Connection × Device
  post_request wr c d =
      let (ret, d') = post_send_verb wr d in
      (if ret == 0 then pos c.req_count -ℤ pos 1 else negsuc 0, c, d')

  unfoldable pub send_request : List Sge → ℤ → Bool → Option ℕ → Connection → SendRequest
  unfolding flags_of
  send_request elems wr_id force_inline immediate c = record {
    wr_id = wr_id;
    opcode = elim immediate [ none ↦ op_send | some i ↦ op_send_with_imm ];
    sges = elems;
    imm_data = elim immediate [ none ↦ none | some i ↦ some (htonl i) ];
    remote = none;
    flags = flags_of force_inline false c;
    compare_add = 0;
    swap = 0;
  }

  unfoldable pub post_send :
      List Sge → ℤ → Bool → Option ℕ → Connection → Device → ℤ × Connection × Device
  unfolding numbered send_request post_request
  post_send elems id force_inline immediate c d =
      let (wr_id, c') = numbered id c in
      post_request (send_request elems wr_id force_inline immediate c') c' d

  -- `_post_write` on what both overloads of `post_write` fill in.
  unfoldable pub write_request :
      List Sge → RemoteBuffer → Option ℕ → Bool → Bool → ℤ → Connection → SendRequest
  unfolding flags_of
  write_request elems rbuf immediate force_inline force_solicited wr_id c = record {
    wr_id = wr_id;
    opcode = elim immediate [ none ↦ op_rdma_write | some i ↦ op_rdma_write_with_imm ];
    sges = written elems;
    imm_data = elim immediate [ none ↦ none | some i ↦ some (htonl i) ];
    remote = some rbuf;
    flags = flags_of force_inline force_solicited c;
    compare_add = 0;
    swap = 0;
  }

  unfoldable pub post_write :
      List Sge
      → RemoteBuffer
      → Option ℕ
      → Bool
      → Bool
      → Connection
      → Device
      → ℤ × Connection × Device
  unfolding numbered write_request post_request
  post_write elems rbuf immediate force_inline force_solicited c d =
      let (wr_id, c') = numbered automatic c in
      post_request (write_request elems rbuf immediate force_inline force_solicited wr_id c') c' d

  -- The two atomic operations.
  unfoldable pub atomic_request : Opcode → List Sge → RemoteBuffer → ℕ → ℕ → ℤ → SendRequest
  unfolding inline_flags
  atomic_request opcode elems rbuf compare_add swap wr_id = record {
    wr_id = wr_id;
    opcode = opcode;
    sges = elems;
    imm_data = none;
    remote = some rbuf;
    flags = inline_flags false;
    compare_add = compare_add;
    swap = swap;
  }

  unfoldable pub post_cas :
      List Sge → RemoteBuffer → ℕ → ℕ → Connection → Device → ℤ × Connection × Device
  unfolding numbered atomic_request post_request
  post_cas elems rbuf compare swap c d =
      let (wr_id, c') = numbered automatic c in
      post_request (atomic_request op_cmp_and_swp elems rbuf compare swap wr_id) c' d

  unfoldable pub post_atomic_fadd :
      List Sge → RemoteBuffer → ℕ → Connection → Device → ℤ × Connection × Device
  unfolding numbered atomic_request post_request
  post_atomic_fadd elems rbuf add c d =
      let (wr_id, c') = numbered automatic c in
      post_request (atomic_request op_fetch_and_add elems rbuf add 0 wr_id) c' d

  -- The loop of `post_recv`, which ends at the first request that is refused.
  unfoldable pub post_recvs : ℕ → ℕ → RecvRequest → Device → ℕ × Device
  post_recvs zero ret wr d = (ret, d)
  post_recvs (suc count) ret wr d =
      let (ret', d') = post_recv_verb wr d in
      let rest = post_recvs count ret' wr d' in if ret' == 0 then rest else (ret', d')

  -- `post_recv`; with a count of 0 it reads a variable that was never set, which is an argument.
  unfoldable pub post_recv : ℕ → List Sge → ℤ → ℕ → Connection → Device → ℤ × Connection × Device
  unfolding numbered post_recvs
  post_recv indeterminate elem id count c d =
      let (wr_id, c') = numbered id c in
      let (ret, d') = post_recvs count indeterminate (record { wr_id = wr_id; sges = elem }) d in
      (if ret == 0 then wr_id else negsuc 0, c', d')

  abbrev pub is_empty : Polled → Bool
  is_empty failed = false
  is_empty (completions []) = true
  is_empty (completions (wc ∷ wcs)) = false

  -- The loop of `poll_wc`, on fuel; `none` is a loop that has not ended. A count of -1 stands for the
  -- size of the array.
  unfoldable pub poll_wc : ℕ → QueueType → Bool → ℕ → Device → Option (Polled × Device)
  poll_wc zero type blocking count d = none
  poll_wc (suc fuel) type blocking count d =
      let (p, d') = poll_cq type count d in
      let again = poll_wc fuel type blocking count d' in
      if blocking && is_empty p then again else some (p, d')
