-- ===== src/Worker/Accounting/Conservation.antt =====
-- No measured time is billed twice, and none is lost but that of refused additions, whatever the
-- interleaving of the worker threads.
use r_faa_s.Common.{ℕ, zero, suc, ◌+◌, ◌%◌, ◌^◌, ◌≤◌, ◌≡◌, false, List, [], ◌∷◌, arith}
use r_faa_s.Worker.Accounting.{
  Accounting, Counters, Event, executed, polled, report_execution, report_polling, account,
  account_at, account_all, final_reports, billing_granularity,
}

abbrev pub total : (Accounting → ℕ) → List Accounting → ℕ
total f [] = 0
total f (a ∷ as') = f a + total f as'

-- The time that a thread still holds back, and that of its additions that were refused.
abbrev pub execution_due : Accounting → ℕ
execution_due a = a.execution_time + a.lost_execution_time

abbrev pub polling_due : Accounting → ℕ
polling_due a = a.hot_polling_time + a.lost_hot_polling_time

-- What the manager has, what the threads hold back and what was refused make up what was measured.
pub record Conserved (threads : List Accounting) (c : Counters) : Type 0 where
  pub execution :
      (c.execution_time + total execution_due threads) % 2 ^ 64
      ≡ total (λ a. a.total_execution_time) threads % 2 ^ 64
  pub polling :
      (c.hot_polling_time + total polling_due threads) % 2 ^ 64
      ≡ total (λ a. a.total_hot_polling_time) threads % 2 ^ 64

-- One thread's event keeps both sums, with what the others hold added on either side.
account-execution :
    (e : Event) (a : Accounting) (c : Counters) (held measured : ℕ)
    → (c.execution_time + (execution_due a + held)) % 2 ^ 64
      ≡ (a.total_execution_time + measured) % 2 ^ 64
    → let (a', c') = account e a c in
      (c'.execution_time + (execution_due a' + held)) % 2 ^ 64
      ≡ (a'.total_execution_time + measured) % 2 ^ 64
unfolding account
account-execution (executed d) a c held measured h = omega arith
account-execution (polled d) a c held measured h = omega arith
account-execution (report_execution force) a c held measured h = ground arith
account-execution (report_polling force) a c held measured h = ground arith

account-polling :
    (e : Event) (a : Accounting) (c : Counters) (held measured : ℕ)
    → (c.hot_polling_time + (polling_due a + held)) % 2 ^ 64
      ≡ (a.total_hot_polling_time + measured) % 2 ^ 64
    → let (a', c') = account e a c in
      (c'.hot_polling_time + (polling_due a' + held)) % 2 ^ 64
      ≡ (a'.total_hot_polling_time + measured) % 2 ^ 64
unfolding account
account-polling (executed d) a c held measured h = omega arith
account-polling (polled d) a c held measured h = omega arith
account-polling (report_execution force) a c held measured h = ground arith
account-polling (report_polling force) a c held measured h = ground arith

account_at-execution :
    (i : ℕ) (e : Event) (threads : List Accounting) (c : Counters) (held measured : ℕ)
    → (c.execution_time + (total execution_due threads + held)) % 2 ^ 64
      ≡ (total (λ a. a.total_execution_time) threads + measured) % 2 ^ 64
    → let (threads', c') = account_at i e threads c in
      (c'.execution_time + (total execution_due threads' + held)) % 2 ^ 64
      ≡ (total (λ a. a.total_execution_time) threads' + measured) % 2 ^ 64
unfolding account_at
account_at-execution i e [] c held measured h = h
account_at-execution zero e (a ∷ as') c held measured h =
    let others = total execution_due as' + held in
    let told = total (λ x. x.total_execution_time) as' + measured in
    omega (arith, account-execution e a c others told (omega arith))
account_at-execution (suc i) e (a ∷ as') c held measured h = omega (
  arith,
  account_at-execution i e as' c (execution_due a + held) (a.total_execution_time + measured)
      (omega arith),
)

account_at-polling :
    (i : ℕ) (e : Event) (threads : List Accounting) (c : Counters) (held measured : ℕ)
    → (c.hot_polling_time + (total polling_due threads + held)) % 2 ^ 64
      ≡ (total (λ a. a.total_hot_polling_time) threads + measured) % 2 ^ 64
    → let (threads', c') = account_at i e threads c in
      (c'.hot_polling_time + (total polling_due threads' + held)) % 2 ^ 64
      ≡ (total (λ a. a.total_hot_polling_time) threads' + measured) % 2 ^ 64
unfolding account_at
account_at-polling i e [] c held measured h = h
account_at-polling zero e (a ∷ as') c held measured h =
    let others = total polling_due as' + held in
    let told = total (λ x. x.total_hot_polling_time) as' + measured in
    omega (arith, account-polling e a c others told (omega arith))
account_at-polling (suc i) e (a ∷ as') c held measured h = omega (
  arith,
  account_at-polling i e as' c (polling_due a + held) (a.total_hot_polling_time + measured)
      (omega arith),
)

pub account_at-Conserved :
    (i : ℕ) (e : Event) (threads : List Accounting) (c : Counters)
    → Conserved threads c
    → Conserved (account_at i e threads c).0 (account_at i e threads c).1
account_at-Conserved i e threads c v = record {
  execution = omega (arith, account_at-execution i e threads c 0 0 (omega arith));
  polling = omega (arith, account_at-polling i e threads c 0 0 (omega arith));
}

-- If the manager's counters, the times that the threads still hold back and the times of the additions
-- that their connections refused add up to the totals that the threads measured, modulo 2 ^ 64, they do so
-- after any interleaving of the threads' events, whichever additions are refused.
pub billing-Conserved :
    (events : List (ℕ × Event)) (threads : List Accounting) (c : Counters)
    → Conserved threads c
    → Conserved (account_all events threads c).0 (account_all events threads c).1
unfolding account_all
billing-Conserved [] threads c v = v
billing-Conserved ((i, e) ∷ rest) threads c v =
    billing-Conserved rest (account_at i e threads c).0 (account_at i e threads c).1
      (account_at-Conserved i e threads c v)

-- A thread that is alone with its counters and stops has nothing left to report, and the manager's
-- counters and what was refused then are the totals that it measured, modulo 2 ^ 64.
pub final_reports_complete :
    (a : Accounting) (c : Counters)
    → Conserved (a ∷ []) c
    → let (a', c') = final_reports a c in
      (a'.execution_time ≡ 0)
      × (a'.hot_polling_time ≡ 0)
      × ((c'.execution_time + a'.lost_execution_time) % 2 ^ 64 ≡ a.total_execution_time % 2 ^ 64)
      × ((c'.hot_polling_time + a'.lost_hot_polling_time) % 2 ^ 64
          ≡ a.total_hot_polling_time % 2 ^ 64)
unfolding final_reports
final_reports_complete a c v = ground (arith, v.execution, v.polling)

-- After a report that is not forced a thread holds back at most the billing granularity.
pub held_back_bounded :
    (a : Accounting) (c : Counters)
    → ((account (report_execution false) a c).0.execution_time ≤ billing_granularity)
      × ((account (report_polling false) a c).0.hot_polling_time ≤ billing_granularity)
unfolding account
held_back_bounded a c = ground arith
