-- ===== src/ExecutorManager/Leases.antt =====
-- server/executor_manager/manager.cpp, `Leases`. An identifier is the pattern of its 32 bits.
use r_faa_s.Common.{
  ℕ, ◌≡◌, Option, none, some, Map, nat_eq, find, emplace, erase, find-emplace_new, find-emplace_old,
}
use r_faa_s.Common.Int.{ℤ}

pub record Lease : Type 0 where
  pub id : ℕ
  pub cores : ℤ
  pub memory : ℤ

abbrev pub Leases : Type 0
Leases = Map ℕ Lease

-- `insert` and, under the lock, `insert_threadsafe`: an identifier that is there keeps its lease.
unfoldable pub insert : Lease → Leases → Leases
insert l leases = emplace l.id l leases

-- `get`, which takes the lease out.
unfoldable pub get : ℕ → Leases → Option Lease × Leases
get id leases = elim (find id leases) [ none ↦ (none, leases) | some l ↦ (some l, erase id leases) ]

-- `get_threadsafe`, which leaves it.
unfoldable pub get_threadsafe : ℕ → Leases → Option Lease
get_threadsafe id leases = find id leases

-- After an insertion the identifier has a lease: the one that it had, or else the one inserted.
pub get_threadsafe-insert :
    (l : Lease) (leases : Leases)
    → ((old : Lease)
        → find l.id leases ≡ some old
        → get_threadsafe l.id (insert l leases) ≡ some old)
      × (find l.id leases ≡ none → get_threadsafe l.id (insert l leases) ≡ some l)
unfolding get_threadsafe insert
get_threadsafe-insert l leases =
    (λ old e. find-emplace_old l.id l leases e, λ e. find-emplace_new l.id l leases e)
