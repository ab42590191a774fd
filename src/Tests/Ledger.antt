-- ===== src/Tests/Ledger.antt =====
-- Two nodes of 4 cores and 100 units of memory, of which one grants a lease.
use r_faa_s.Common.{ℕ, zero, suc, ◌≡◌, sym, ap, refl, some, [], ◌∷◌, arith, some_inj}
use r_faa_s.Common.Int.{ℤ, pos, ◌+ℤ◌, ◌-ℤ◌}
use r_faa_s.ResourceManager.Executor.{Executor, is_initialized, lease, is_fully_leased}
use r_faa_s.ResourceManager.Executors.{deref, lock, is_alive, store}
use r_faa_s.ResourceManager.Db.{open_lease, search}
use r_faa_s.ResourceManager.Db.Ledger.{held, LedgerStep, State, opened, here}
use r_faa_s.ResourceManager.Db.Ledger.Refinement.{Fresh, db_implements_ledger}
use r_faa_s.Tests.ResourceManager.{ready, two_nodes, response, database, takes_second}

abbrev four : ℕ → ℤ
four q = pos 4

abbrev hundred : ℕ → ℤ
hundred q = pos 100

abbrev idle : State
idle = record { db = database; holds = [] }

abbrev granted : State
granted = record {
  db = (open_lease (pos 2) (pos 10) (some 1) response database).2;
  holds = record { id = 5; ref = 1; cores = pos 2; memory = pos 10 } ∷ [];
}

all_free :
    (q : ℕ) (e : Executor)
    → deref two_nodes q ≡ some e
    → (e.free_cores ≡ pos 4) × (e.free_memory ≡ pos 100)
unfolding deref
all_free zero e h =
    (ap (λ x. x.free_cores) (sym (some_inj h)), ap (λ x. x.free_memory) (sym (some_inj h)))
all_free (suc zero) e h =
    (ap (λ x. x.free_cores) (sym (some_inj h)), ap (λ x. x.free_memory) (sym (some_inj h)))
all_free (suc (suc q)) e h = absurd (cc)

idle-Fresh : Fresh four hundred idle
idle-Fresh = record {
  nothing = refl;
  unused = refl;
  cores = λ q e h. (all_free q e h).0;
  memory = λ q e h. (all_free q e h).1;
}

granted_node :
    deref granted.db.executors 1 ≡ some (record ready { free_cores = pos 2; free_memory = pos 90 })
unfolding open_lease search lock is_alive deref is_initialized lease store is_fully_leased ◌-ℤ◌
granted_node = refl

db_implements_ledger_example :
    LedgerStep four hundred [] granted.holds
    × (pos 2 +ℤ held (λ h. h.cores) 1 granted.holds ≡ pos 4)
    × (pos 90 +ℤ held (λ h. h.memory) 1 granted.holds ≡ pos 100)
db_implements_ledger_example =
    db_implements_ledger four hundred idle idle granted 1
      (record ready { free_cores = pos 2; free_memory = pos 90 }) idle-Fresh here
      (opened (pos 2) (pos 10) response 1 idle takes_second (omega arith)) granted_node
