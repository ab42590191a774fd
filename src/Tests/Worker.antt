-- ===== src/Tests/Worker.antt =====
-- A worker whose clock ticks once per reading and whose functions return a byte. Only the first addition
-- that it posts is taken.
use r_faa_s.Common.{◌==◌, ℕ, ◌≡◌, refl, true, none, List, [], ◌∷◌, ◌++◌, map, arith}
use r_faa_s.Rdmalib.Queue.{Wc, create}
use r_faa_s.Worker.Accounting.{
  Accounting, Counters, Event, executed, polled, report_execution, report_polling, account_all,
}
use r_faa_s.Worker.Accounting.Conservation.{Conserved, billing-Conserved}
use r_faa_s.Worker.Thread.{Platform, Thread, hot, reply_of, hot_batch, warm_batch}
use r_faa_s.Worker.Thread.Batches.{warm_batch_replies, hot_batch_diverges}
use r_faa_s.Tests.Rdmalib.{counting}
use r_faa_s.Tests.Client.{same_order}

abbrev no_time : Counters
no_time = record { hot_polling_time = 0; execution_time = 0 }

abbrev busy : Accounting
busy = record {
  total_hot_polling_time = 20;
  total_execution_time = 30;
  total_request = 1;
  hot_polling_time = 15;
  execution_time = 25;
  accepts = λ k. k == 0;
  posts = 0;
  lost_hot_polling_time = 0;
  lost_execution_time = 0;
}

abbrev told : Counters
told = record { hot_polling_time = 5; execution_time = 5 }

busy-Conserved : Conserved (busy ∷ []) told
busy-Conserved = record { execution = refl; polling = refl }

abbrev interleaving : List (ℕ × Event)
interleaving =
    (0, executed 7)
    ∷ (1, polled 3)
    ∷ (1, executed 9)
    ∷ (0, report_execution true)
    ∷ (1, report_polling true)
    ∷ []

billing-Conserved_example :
    Conserved
      (account_all interleaving (busy ∷ []) told).0
      (account_all interleaving (busy ∷ []) told).1
billing-Conserved_example = billing-Conserved interleaving (busy ∷ []) told busy-Conserved

abbrev platform : Platform
platform = record {
  verbs = counting;
  order = same_order;
  clock = λ k. k;
  run = λ func size. 1;
  max_inline_data = 128;
}

abbrev thread : Thread platform
thread = record {
  repetitions = 4;
  accounting = busy;
  counters = told;
  polling_state = hot;
  readings = 0;
  replies = [];
  receive = create 64;
  device = 0;
}

abbrev good : Wc
good = record { status = 0; wr_id = 1; qp_num = 7; imm_data = 0x20003; byte_len = 20 }

abbrev broken : Wc
broken = record good { status = 5 }

warm_batch_replies_example :
    ((warm_batch platform (good ∷ broken ∷ good ∷ []) thread).replies
      ≡ [] ++ map (reply_of platform) (good ∷ good ∷ []))
    × ((warm_batch platform (good ∷ broken ∷ good ∷ []) thread).repetitions ≡ 6)
warm_batch_replies_example = warm_batch_replies platform (good ∷ broken ∷ good ∷ []) thread

hot_batch_diverges_example : hot_batch platform 1000 (good ∷ broken ∷ good ∷ []) 0 0 thread ≡ none
hot_batch_diverges_example =
    hot_batch_diverges platform 1000 (good ∷ broken ∷ good ∷ []) 0 2 good 0 thread refl refl
      (omega arith) (omega arith)
