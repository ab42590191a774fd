-- ===== src/ResourceManager/Db/Ledger.antt =====
-- What the lease database promises, apart from nodes, lists and identifiers: server/resource_manager/
-- db.cpp against a ledger of the leases that are held.
pub mod Balance
pub mod Steps
pub mod Refinement
use r_faa_s.Common.{
  ℕ, ◌+◌, ◌^◌, ◌<◌, ◌≡◌, Bool, true, none, some, List, [], ◌∷◌, ◌++◌, nat_eq, find, ◌==◌,
  if◌then◌else◌,
}
use r_faa_s.Common.Int.{ℤ, pos, ◌+ℤ◌, ◌≤ℤ◌}
use r_faa_s.ResourceManager.Messages.{LeaseDeallocation}
use r_faa_s.ResourceManager.Executors.{is_alive}
use r_faa_s.ResourceManager.Db.{Db, LeaseResponse, open_lease, close_lease}

-- A lease that is held: its identifier, the node, and what it takes of the node.
pub record Hold : Type 0 where
  pub id : ℕ
  pub ref : ℕ
  pub cores : ℤ
  pub memory : ℤ

-- What is held of a node.
abbrev pub held : (Hold → ℤ) → ℕ → List Hold → ℤ
held part r [] = pos 0
held part r (h ∷ hs) = if h.ref == r then part h +ℤ held part r hs else held part r hs

-- The specification: a lease is granted if the node then has no more leased than it has in total, and a
-- lease that is held may be given back.
pub data LedgerStep (total_cores total_memory : ℕ → ℤ) : List Hold → List Hold → Type 0 where
  grant :
      (h : Hold) {hs : List Hold}
      → held (λ x. x.cores) h.ref hs +ℤ h.cores ≤ℤ total_cores h.ref
      → held (λ x. x.memory) h.ref hs +ℤ h.memory ≤ℤ total_memory h.ref
      → LedgerStep total_cores total_memory hs (h ∷ hs)
  release :
      (front : List Hold) (h : Hold) (back : List Hold)
      → LedgerStep total_cores total_memory (front ++ h ∷ back) (front ++ back)
  stay : {hs : List Hold} → LedgerStep total_cores total_memory hs hs

-- The database together with the leases that are held, which the code does not keep.
pub record State : Type 0 where
  pub db : Db
  pub holds : List Hold

-- The operations on leases, as clients and nodes that behave call them: before the identifiers run out,
-- a lease is closed only while it is held and its node lives; other identifiers may come too. The read
-- of the entry that `open_lease` erases still gives the node.
pub data DbStep : State → State → Type 0 where
  opened :
      (cores memory : ℤ) (response : LeaseResponse) (r : ℕ) (s : State)
      → (open_lease cores memory (some r) response s.db).0 ≡ some r
      → s.db.lease_count + 1 < 2 ^ 32
      → DbStep s (record {
        db = (open_lease cores memory (some r) response s.db).2;
        holds = record { id = s.db.lease_count; ref = r; cores = cores; memory = memory } ∷ s.holds;
      })
  refused :
      (cores memory : ℤ) (response : LeaseResponse) (s : State)
      → (open_lease cores memory none response s.db).0 ≡ none
      → DbStep s (record s { db = (open_lease cores memory none response s.db).2 })
  closed :
      (msg : LeaseDeallocation) (front : List Hold) (h : Hold) (back : List Hold) (s : State)
      → s.holds ≡ front ++ h ∷ back
      → msg.lease_id ≡ h.id
      → is_alive s.db.executors h.ref ≡ true
      → DbStep s (record { db = close_lease msg s.db; holds = front ++ back })
  strayed :
      (msg : LeaseDeallocation) (s : State)
      → find msg.lease_id s.db.leases ≡ none
      → DbStep s (record s { db = close_lease msg s.db })

pub data DbReach (s : State) : State → Type 0 where
  here : DbReach s s
  next : {t u : State} → DbReach s t → DbStep t u → DbReach s u
