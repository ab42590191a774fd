-- ===== src/Rdmalib/Connection/Waiting.antt =====
-- How the polling loop of `poll_wc` ends: rdmalib/lib/connection.cpp.
use r_faa_s.Common.{
  ℕ, zero, suc, ◌<◌, ◌≤◌, ◌≡◌, refl, true, false, none, some, arith, ◌⊎◌, inl, inr,
}
use r_faa_s.Rdmalib.Queue.{Polled}
use r_faa_s.Rdmalib.Connection.{QueueType, QpVerbs, is_empty, poll_wc}

module _ (v : QpVerbs) where
  open v use {Device, poll_cq}

  -- The device after some polls, and what the next one gives.
  abbrev pub polled_after : QueueType → ℕ → ℕ → Device → Device
  polled_after type count zero d = d
  polled_after type count (suc k) d = polled_after type count k (poll_cq type count d).1

  abbrev pub answer_at : QueueType → ℕ → ℕ → Device → Polled
  answer_at type count k d = (poll_cq type count (polled_after type count k d)).0

  -- If some answer is not empty, an error included, then a poll that blocks ends exactly on fuel that
  -- exceeds the number of empty answers before the first such answer, and it ends with that answer.
  pub poll_wc_waits :
      (type : QueueType) (count fuel k : ℕ) (d : Device)
      → ((i : ℕ) → i < k → is_empty v (answer_at type count i d) ≡ true)
      → is_empty v (answer_at type count k d) ≡ false
      → ((k < fuel)
          × (poll_wc v fuel type true count d
              ≡ some (answer_at type count k d, polled_after type count (suc k) d)))
        ⊎ ((fuel ≤ k) × (poll_wc v fuel type true count d ≡ none))
  unfolding poll_wc
  poll_wc_waits type count zero k d empties full = inr (omega arith, refl)
  poll_wc_waits type count (suc fuel) zero d empties full = inl (omega arith, rw full refl)
  poll_wc_waits type count (suc fuel) (suc k) d empties full =
      let first = empties 0 (omega arith) in
      elim (poll_wc_waits type count fuel k (poll_cq type count d).1
        (λ i h. empties (suc i) (omega arith)) full) [
          | inl (enough, e) ↦ inl (omega arith, rw first e)
          | inr (little, e) ↦ inr (omega arith, rw first e)
        ]
