-- ===== src/Tests/Callbacks.antt =====
-- A client with one worker and two functions that waits for two callbacks.
use r_faa_s.Common.{
  ℕ, ◌≡◌, refl, false, some, List, [], ◌∷◌, ◌++◌, Map, nat_eq, find, assign, arith, get_elem?,
}
use r_faa_s.Common.Int.{pos, negsuc}
use r_faa_s.Rdmalib.Queue.{Wc, completions}
use r_faa_s.Client.Submission.{
  submission_id, next_invoc_id, finished_invoc_id, return_val, func_index,
}
use r_faa_s.Client.Invocation.{answered}
use r_faa_s.Client.Callbacks.{
  Callback, called, Buffer, Client, Worker, write_of, counted_down, async_callback, answer, answers,
  poll_queue_once,
}
use r_faa_s.Client.Callbacks.Calls.{AllWaiting, first_calls, words, callbacks_called_once}
use r_faa_s.Client.Callbacks.RoundTrip.{callback_round_trip}
use r_faa_s.Tests.Rdmalib.{counting}
use r_faa_s.Tests.Client.{same_order}
use r_faa_s.Tests.Manager.{link}
use r_faa_s.Tests.Listener.{from_some}

abbrev entry : Callback
entry = record { remaining = pos 1; function = 500; out = 4096; para = 0 }

abbrev table : Map ℕ Callback
table = (3, entry) ∷ (4, record entry { function = 600 }) ∷ []

abbrev waiting_client : Client counting same_order
waiting_client = record {
  func_names = (97 ∷ []) ∷ (98 ∷ []) ∷ [];
  invoc_id = 4;
  max_inline_data = pos 128;
  connections = record { remote_input = 8192; link = link; writes = [] } ∷ [];
  callbacks = table;
  callbacks2 = [];
  calls = [];
  context = 0;
  end_requested = false;
}

table-AllWaiting : AllWaiting table
unfolding find
table-AllWaiting id c h = ground (arith, h)

-- The results of invocation 4, of 3, and of 4 again.
abbrev result : ℕ → Wc
result word = record { status = 0; wr_id = 0; qp_num = 7; imm_data = word; byte_len = 0 }

abbrev polled : List Wc
polled = result 0x40000 ∷ result 0x30002 ∷ result 0x40001 ∷ []

abbrev answered_client : Client counting same_order
answered_client = from_some waiting_client (answers counting same_order polled waiting_client)

callbacks_called_once_example :
    answered_client.calls ≡ [] ++ first_calls table [] (words counting same_order polled)
unfolding answers answer counted_down finished_invoc_id return_val find assign
callbacks_called_once_example =
    callbacks_called_once counting same_order polled waiting_client answered_client table-AllWaiting
      refl

abbrev input : Buffer
input = record { address = 100; rkey = 1; bytes = 64 }

abbrev output : Buffer
output = record { address = 200; rkey = 2; bytes = 64 }

callback_round_trip_example :
    (s1 : Client counting same_order) × (s2 : Client counting same_order) × (w1 : Worker counting
      same_order)
    × (async_callback counting same_order (98 ∷ []) input output 700 (negsuc 0) waiting_client
        ≡ some s1)
    × (get_elem? s1.connections 0 ≡ some w1)
    × (w1.writes
        ≡ []
          ++ write_of counting same_order input output
              (negsuc 0)
              (pos 128)
              (submission_id (next_invoc_id 4) 1)
              (record { remote_input = 8192; link = link; writes = [] })
            ∷ [])
    × (s1.calls ≡ [])
    × (poll_queue_once counting same_order
          (completions (result (answered same_order (submission_id 5 1)) ∷ []))
          0
          s1
        ≡ some s2)
    × (s2.calls ≡ [] ++ called 700 0 200 ∷ [])
callback_round_trip_example =
    callback_round_trip counting same_order (98 ∷ []) input output 700 1 (negsuc 0)
      (result (answered same_order (submission_id 5 1))) waiting_client
      (record { remote_input = 8192; link = link; writes = [] }) (unfold func_index in refl)
      (omega arith) (omega arith) refl refl (unfold next_invoc_id in refl)
