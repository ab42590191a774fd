-- ===== src/Tests/Listener.antt =====
-- A listening side with a connection manager that numbers what it creates.
use r_faa_s.Common.{
  ap, sym, some_inj, ℕ, suc, ◌≡◌, refl, Option, none, some, List, [], ◌∷◌, find, assign, arith,
}
use r_faa_s.Rdmalib.PrivateData.{key}
use r_faa_s.Rdmalib.Listener.{
  ConnectionManager, Connection, CmEvent, connect_request, has_established, has_disconnected,
  unexpected, Passive, poll_events, request, create_connection, connected, queue_key, shared_queue,
}
use r_faa_s.Rdmalib.Listener.Laws.{poll_all}
use r_faa_s.Rdmalib.Listener.Sharing.{key_shares_queue}

abbrev given : Option ℕ → ℕ → ℕ
given none d = d
given (some q) d = q

abbrev pub numbering : ConnectionManager
numbering = record {
  Device = ℕ;
  create_qp =
      λ s r d. (some (record { qp_num = d; send_cq = given s d; recv_cq = given r d }), suc d);
  create_cq = λ d. (some d, suc d);
  create_qp-send_cq = λ s r d e. ap (λ q. q.send_cq) (sym (some_inj e));
  create_qp-recv_cq = λ s r d e. ap (λ q. q.recv_cq) (sym (some_inj e));
}

-- The key of the executors with the secret 1234.
abbrev pub executor_word : ℕ
executor_word = 16778450

abbrev pub passive : Passive numbering
passive = record {
  device = 20;
  connections = [];
  contexts = [];
  active = [];
  shared = (1, record { recv_cq = some 11; send_cq = none }) ∷ [];
  attr = record { recv_cq = none; send_cq = none };
}

abbrev pub from_some {ℓ} : {A : Type ℓ} → A → Option A → A
from_some a none = a
from_some a (some b) = b

abbrev two_requests : List CmEvent
two_requests =
    connect_request 100 (some executor_word)
    ∷ has_established 100
    ∷ connect_request 101 none
    ∷ connect_request 102 (some executor_word)
    ∷ []

abbrev third : Connection
third = record {
  private_data = executor_word;
  qp = record { qp_num = 22; send_cq = 22; recv_cq = 11 };
}

key_shares_queue_example : third.qp.recv_cq ≡ 11
unfolding poll_all poll_events request create_connection connected queue_key shared_queue key find
    assign
key_shares_queue_example =
    key_shares_queue numbering 1 11 (record { recv_cq = some 11; send_cq = none }) two_requests
      passive (from_some passive (poll_all numbering two_requests passive)) 2 third refl refl refl
      (omega arith) refl refl

abbrev others : List CmEvent
others = connect_request 101 none ∷ has_disconnected 101 ∷ unexpected ∷ []

abbrev asked : Passive numbering
asked = (from_some (0, passive) (request numbering 100 (some executor_word) passive)).1

abbrev later : Passive numbering
later = from_some passive (poll_all numbering others asked)
