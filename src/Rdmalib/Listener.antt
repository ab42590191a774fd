-- ===== src/Rdmalib/Listener.antt =====
-- rdmalib/lib/rdmalib.cpp, `RDMAPassive`: the connections that a listening side learns of from the
-- events of the connection manager, and the completion queues that they share. The connection manager
-- and the device, which create the queues, are a parameter.
pub mod Laws
pub mod Sharing
pub mod Contexts
use r_faa_s.Common.{
  ℕ, ◌≡◌, Bool, true, false, not, Option, none, some, List, [], ◌∷◌, ◌++◌, Map, nat_eq, find,
  assign, if◌then◌else◌, get_elem?, length, ◌==◌, ◌>>=◌,
}
use r_faa_s.Rdmalib.PrivateData.{key}

-- A queue pair, with the completion queues of its two sides.
pub record QueuePair : Type 0 where
  pub qp_num : ℕ
  pub send_cq : ℕ
  pub recv_cq : ℕ

-- `rdma_create_qp`, given the queues to use or none, and `ibv_create_cq`; both may fail. A queue that
-- is asked for is the queue of the pair.
pub record ConnectionManager : Type 1 where
  pub Device : Type 0
  pub create_qp : Option ℕ → Option ℕ → Device → Option QueuePair × Device
  pub create_cq : Device → Option ℕ × Device
  pub create_qp-send_cq :
      (s : ℕ) (r : Option ℕ) (d : Device) {q : QueuePair}
      → (create_qp (some s) r d).0 ≡ some q
      → q.send_cq ≡ s
  pub create_qp-recv_cq :
      (s : Option ℕ) (r : ℕ) (d : Device) {q : QueuePair}
      → (create_qp s (some r) d).0 ≡ some q
      → q.recv_cq ≡ r

pub data ConnectionStatus : Type 0 where
  unknown requested established disconnected : ConnectionStatus

-- `rdma_cm_event`, with the identifier that it is about; `unexpected` are all that are ignored.
pub data CmEvent : Type 0 where
  connect_request : ℕ → Option ℕ → CmEvent
  has_established has_disconnected : ℕ → CmEvent
  unexpected device_removal : CmEvent

-- `Connection`, as far as the listener fills it in.
pub record Connection : Type 0 where
  pub private_data : ℕ
  pub qp : QueuePair

-- An entry of `_shared_recv_completions`, without the channel; `none` is the null pointer.
pub record Shared : Type 0 where
  pub recv_cq : Option ℕ
  pub send_cq : Option ℕ

-- The queues for a key: its own entry, or the one of the reserved key 0.
unfoldable pub shared_queue : ℕ → Map ℕ Shared → Option Shared
shared_queue k shared = find k shared

unfoldable pub queue_key : ℕ → Map ℕ Shared → Option ℕ
unfolding shared_queue
queue_key k shared = elim (shared_queue k shared) [
  | some s ↦ some k
  | none ↦ elim (shared_queue 0 shared) [ some s ↦ some 0 | none ↦ none ]
]

abbrev pub attr_of : Option Shared → Shared
attr_of none = record { recv_cq = none; send_cq = none }
attr_of (some s) = s

-- An entry without a queue takes the one of the first pair that was created for it.
abbrev pub filled : QueuePair → Shared → Shared
filled q s = elim s.recv_cq [ none ↦ record s { recv_cq = some q.recv_cq } | some c ↦ s ]

-- Without private data the word is 0.
abbrev pub word_of : Option ℕ → ℕ
word_of none = 0
word_of (some w) = w

-- `_active_connections.erase`
abbrev pub without : ℕ → List ℕ → List ℕ
without c [] = []
without c (a ∷ l) = if a == c then without c l else a ∷ without c l

module _ (cm : ConnectionManager) where
  -- `connections` are the objects that were allocated; a pointer to one is its place among them.
  -- `contexts` are the contexts of the identifiers, `attr` the two queues of `_cfg.attr`.
  pub record Passive : Type 0 where
    pub device : cm.Device
    pub connections : List Connection
    pub contexts : Map ℕ ℕ
    pub active : List ℕ
    pub shared : Map ℕ Shared
    pub attr : Shared

  unfoldable pub register_shared_queue : ℕ → Bool → Passive → Passive
  register_shared_queue k share_send_queue p =
      let (cq, d) = cm.create_cq p.device in
      let (send, d') = cm.create_cq d in
      if share_send_queue
      then record p {
        device = d';
        shared = assign k (record { recv_cq = cq; send_cq = send }) p.shared;
      }
      else record p {
        device = d;
        shared = assign k (record { recv_cq = cq; send_cq = none }) p.shared;
      }

  -- The queue pair is there: the new connection is complete, and is what the event is about.
  unfoldable pub connected : ℕ → ℕ → Option ℕ → QueuePair → Passive → ℕ × Passive
  connected id word entry q p =
      let c = length p.connections in
      (
        c,
        record p {
          connections = p.connections ++ record { private_data = word; qp = q } ∷ [];
          contexts = assign id c p.contexts;
          active = c ∷ p.active;
          shared = elim entry [
            | none ↦ p.shared
            | some k ↦ elim (find k p.shared) [
              | none ↦ p.shared
              | some s ↦ assign k (filled q s) p.shared
            ]
          ];
        },
      )

  -- `_cfg.attr` is set, and then the queue pair is created.
  unfoldable pub create_connection : ℕ → ℕ → Option ℕ → Passive → Option (ℕ × Passive)
  unfolding connected
  create_connection id word entry p =
      let attr = attr_of (entry >>= λ j. find j p.shared) in
      let (created, d) = cm.create_qp attr.send_cq attr.recv_cq p.device in
      elim created [
        | none ↦ none
        | some q ↦ some (connected id word entry q (record p { device = d; attr = attr }))
      ]

  -- The case of a request: the queues are chosen by the key of the private data. `none` is the end of the program on a pair that cannot be created.
  unfoldable pub request : ℕ → Option ℕ → Passive → Option (ℕ × Passive)
  unfolding create_connection queue_key
  request id private_data p = do
    k ← key 8 8 16 (word_of private_data)
    create_connection id (word_of private_data) (queue_key k p.shared) p

  -- `poll_events` on an event: the connection, or the null pointer, and its status. `none` is an
  -- exception.
  unfoldable pub poll_events : CmEvent → Passive → Option (Option ℕ × ConnectionStatus × Passive)
  unfolding request
  poll_events (connect_request id private_data) p = do
    r ← request id private_data p
    some (some r.0, requested, r.1)
  poll_events (has_established id) p = some (find id p.contexts, established, p)
  poll_events (has_disconnected id) p = elim (find id p.contexts) [
    | none ↦ some (none, disconnected, p)
    | some c ↦ some (some c, disconnected, record p { active = without c p.active })
  ]
  poll_events unexpected p = some (none, unknown, p)
  poll_events device_removal p = none
