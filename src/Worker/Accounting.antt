-- ===== src/Worker/Accounting.antt =====
-- server/executor/fast_executor.hpp, `Accounting`: the times that a worker thread measures, and
-- their transfer by remote addition to the counters of server/executor_manager/accounting.hpp.
-- A time is a `uint64_t` of nanoseconds, a number below 2 ^ 64. `accepts k` says whether the connection to
-- the manager takes the `k`-th addition that the thread posts; the source does not look. Beside the fields
-- of the source the record counts these posts and sums the times of those that were refused. Where a post
-- is followed by a wait for its completion, a run has the wait end.
pub mod Conservation
use r_faa_s.Common.{
  ℕ, zero, suc, ◌+◌, ◌%◌, ◌^◌, Bool, true, false, ◌||◌, List, [], ◌∷◌, ltb, ◌==◌, if◌then◌else◌,
}

pub record Accounting : Type 0 where
  pub total_hot_polling_time : ℕ
  pub total_execution_time : ℕ
  pub total_request : ℕ
  pub hot_polling_time : ℕ
  pub execution_time : ℕ
  pub accepts : ℕ → Bool
  pub posts : ℕ
  pub lost_hot_polling_time : ℕ
  pub lost_execution_time : ℕ

-- The manager's counters for one client, at offsets 0 and 8 of the buffer that workers write to.
pub record Counters : Type 0 where
  pub hot_polling_time : ℕ
  pub execution_time : ℕ

abbrev pub add64 : ℕ → ℕ → ℕ
add64 a b = (a + b) % 2 ^ 64

abbrev pub billing_granularity : ℕ
billing_granularity = 1_000_000_000

pub fresh : Accounting
fresh = record {
  total_hot_polling_time = 0;
  total_execution_time = 0;
  total_request = 0;
  hot_polling_time = 0;
  execution_time = 0;
  accepts = λ k. true;
  posts = 0;
  lost_hot_polling_time = 0;
  lost_execution_time = 0;
}

-- `post_atomic_fadd` at an offset of the manager's buffer.
unfoldable pub fetch_add : ℕ → ℕ → Counters → Counters
fetch_add offset value c =
    if offset == 0
    then record c { hot_polling_time = add64 c.hot_polling_time value }
    else if offset == 8
    then record c { execution_time = add64 c.execution_time value }
    else c

unfoldable pub update_execution_time : ℕ → Accounting → Accounting
update_execution_time diff a = record a {
  execution_time = add64 a.execution_time diff;
  total_execution_time = add64 a.total_execution_time diff;
  total_request = add64 a.total_request 1;
}

unfoldable pub send_updated_execution : Bool → Accounting → Counters → Accounting × Counters
unfolding fetch_add
send_updated_execution force a c =
    if force || ltb billing_granularity a.execution_time
    then (if a.accepts a.posts
        then (record a { execution_time = 0; posts = a.posts + 1 }, fetch_add 8 a.execution_time c)
        else (
          record a {
            execution_time = 0;
            posts = a.posts + 1;
            lost_execution_time = add64 a.lost_execution_time a.execution_time;
          },
          c,
        ))
    else (a, c)

-- The time that passed is cut to a `uint32_t`; it is returned as well.
unfoldable pub update_polling_time : ℕ → Accounting → Accounting × ℕ
update_polling_time diff a = (
  record a {
    hot_polling_time = add64 a.hot_polling_time (diff % 2 ^ 32);
    total_hot_polling_time = add64 a.total_hot_polling_time (diff % 2 ^ 32);
  },
  diff % 2 ^ 32,
)

unfoldable pub send_updated_polling : Bool → Accounting → Counters → Accounting × Counters
unfolding fetch_add
send_updated_polling force a c =
    if force || ltb billing_granularity a.hot_polling_time
    then (if a.hot_polling_time == 0
        then (a, c)
        else (if a.accepts a.posts
            then (
              record a { hot_polling_time = 0; posts = a.posts + 1 },
              fetch_add 0 a.hot_polling_time c,
            )
            else (
              record a {
                hot_polling_time = 0;
                posts = a.posts + 1;
                lost_hot_polling_time = add64 a.lost_hot_polling_time a.hot_polling_time;
              },
              c,
            )))
    else (a, c)

-- What a worker thread does with its accounting, in the order in which it happens.
pub data Event : Type 0 where
  executed : ℕ → Event
  polled : ℕ → Event
  report_execution : Bool → Event
  report_polling : Bool → Event

unfoldable pub account : Event → Accounting → Counters → Accounting × Counters
unfolding update_execution_time update_polling_time send_updated_execution send_updated_polling
account (executed diff) a c = (update_execution_time diff a, c)
account (polled diff) a c = ((update_polling_time diff a).0, c)
account (report_execution force) a c = send_updated_execution force a c
account (report_polling force) a c = send_updated_polling force a c

-- The threads of one client share the counters. Thread `i` does the event; no other one moves.
unfoldable pub account_at : ℕ → Event → List Accounting → Counters → List Accounting × Counters
unfolding account
account_at i e [] c = ([], c)
account_at zero e (a ∷ as') c = let (a', c') = account e a c in (a' ∷ as', c')
account_at (suc i) e (a ∷ as') c = let (rest, c') = account_at i e as' c in (a ∷ rest, c')

-- Any interleaving of the threads.
unfoldable pub account_all :
    List (ℕ × Event) → List Accounting → Counters → List Accounting × Counters
account_all [] threads c = (threads, c)
account_all ((i, e) ∷ rest) threads c =
    let (threads', c') = account_at i e threads c in account_all rest threads' c'

-- The reports of a thread that stops: both forced, the execution time first.
unfoldable pub final_reports : Accounting → Counters → Accounting × Counters
unfolding account
final_reports a c =
    let (a', c') = account (report_execution true) a c in account (report_polling true) a' c'
