-- ===== src/Tests/System.antt =====
-- The threads of a resource manager that one executor node and one client connect to.
use r_faa_s.Common.{◌≡◌, refl, none, some, [], ◌∷◌, ◌>>=◌, find, assign, nat_eq}
use r_faa_s.Common.Int.{pos, negsuc}
use r_faa_s.Rdmalib.PrivateData.{key, secret}
use r_faa_s.Rdmalib.Listener.{
  connect_request, poll_events, request, create_connection, connected, queue_key, shared_queue,
}
use r_faa_s.ResourceManager.Executors.{empty, connect_executor, make_shared}
use r_faa_s.ResourceManager.Executors.Laws.{IsValid}
use r_faa_s.ResourceManager.Db.{empty as empty_db}
use r_faa_s.ResourceManager.Manager.{admit, handle_executor_connection}
use r_faa_s.ResourceManager.System.{
  System, Event, listens, takes_executor, here, next, step, listen, on_event, on_status,
  on_requested, admitted, take_executor_entry, handle_executor_entry, poll_sends,
}
use r_faa_s.ResourceManager.System.Rounds.{handle_requests}
use r_faa_s.ResourceManager.System.Admitting.{Admitted}
use r_faa_s.ResourceManager.System.Safety.{Reach-Admitted}
use r_faa_s.ResourceManager.System.Dangling.{departed_client_dangles}
use r_faa_s.Tests.Rdmalib.{counting}
use r_faa_s.Tests.Listener.{numbering, executor_word, passive, from_some}
use r_faa_s.Tests.Manager.{manager, from_client, client}

abbrev S : Type 0
S = System counting numbering 0 32

abbrev start : S
start = record {
  passive = passive;
  manager = record manager { db = empty_db empty; clients = []; links = [] };
  executor_queue = [];
  client_queue = [];
  executor_count = pos 0;
  client_count = pos 0;
  accepted = [];
  rejected = [];
  closed = [];
  secret = 1234;
}

abbrev request_event : Event counting numbering 0 32
request_event = listens (connect_request 100 (some executor_word))

abbrev one : S
one = from_some start (step counting numbering 0 32 request_event start)

abbrev two : S
two = from_some start (step counting numbering 0 32 takes_executor one)

Reach-Admitted_example : IsValid two.manager.db.executors × Admitted two.passive.connections 1234 20
unfolding empty connect_executor make_shared handle_executor_connection step listen poll_events
    request create_connection connected queue_key shared_queue key secret find assign on_event
    on_status on_requested admitted admit take_executor_entry handle_executor_entry empty_db
Reach-Admitted_example =
    Reach-Admitted counting numbering 0 32 start two 20 refl refl
      (next takes_executor (next request_event here refl) refl) (0, refl)

departed_client_dangles_example :
    (handle_requests counting numbering 0 32
        ((some 1, from_client) ∷ (none, record from_client { wr_id = 1 }) ∷ [])
        manager
      >>= poll_sends counting numbering 0 32)
    ≡ none
departed_client_dangles_example =
    departed_client_dangles counting numbering 0 32 (some 1) none from_client
      (record from_client { wr_id = 1 }) client (record { cores = pos 2; memory = pos 10 })
      (record { cores = negsuc 2; memory = pos 0 }) manager refl refl refl (unfold find in refl)
      refl refl refl refl
