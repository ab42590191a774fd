-- ===== src/ResourceManager/Db.antt =====
-- server/resource_manager/db.hpp and db.cpp, `ExecutorDB`: the leases, and the list of the nodes
-- that may still have something to lease. Each operation runs under the writer lock, so it is one step.
pub mod FirstFit
pub mod Leasing
pub mod Closing
pub mod Granted
pub mod Conns
pub mod Ledger
use r_faa_s.Common.{
  ℕ, zero, suc, ◌+◌, ◌%◌, ◌^◌, Bool, true, false, Option, none, some, List, [], ◌∷◌, ◌++◌, Bytes,
  Map, nat_eq, find, emplace, if◌then◌else◌, ltb, length, ◌==◌, map,
}
use r_faa_s.Common.Int.{ℤ, pos, to_int16}
use r_faa_s.ResourceManager.Messages.{LeaseDeallocation, strncpy, node_name_length}
use r_faa_s.ResourceManager.Executor.{
  Executor, Lease, WeakPtr, is_initialized, lease, is_fully_leased, cancel_lease,
}
use r_faa_s.ResourceManager.Executors.{Executors, lock, deref, store, add_executor}

-- A lease identifier is the pattern of its 32 bits.
pub record Db : Type 0 where
  pub executors : Executors
  pub leases : Map ℕ Lease
  pub lease_count : ℕ
  pub free_nodes : List WeakPtr

pub data ResultCode : Type 0 where
  ok executor_exists executor_doesnt_exist malformed_data : ResultCode

unfoldable pub empty : Executors → Db
empty ex = record { executors = ex; leases = []; lease_count = 0; free_nodes = [] }

-- `add`: a name shorter than `NODE_NAME_LENGTH` is malformed. The `int` of cores is cut to 16 bits.
unfoldable pub add : Bytes → Bytes → ℤ → ℤ → ℤ → Db → ResultCode × Db
add node_name ip port cores memory db =
    if ltb (length node_name) node_name_length
    then (malformed_data, db)
    else let (ptr, success, ex) =
        add_executor node_name ip port (to_int16 cores) memory db.executors in
      if success
      then (ok, record db { executors = ex; free_nodes = db.free_nodes ++ ptr ∷ [] })
      else (executor_exists, record db { executors = ex })

-- What the search through the free nodes ends with: the nodes that stay in front of the one that
-- was taken, that node as it is in the list, its object after the lease, and the nodes behind it.
pub data Search : Type 0 where
  missing : List WeakPtr → Search
  found : List WeakPtr → WeakPtr → ℕ → Executor → List WeakPtr → Search

abbrev pub keep : WeakPtr → Search → Search
keep w (missing ws) = missing (w ∷ ws)
keep w (found front x r e back) = found (w ∷ front) x r e back

-- The loop of `open_lease`: pointers to dead nodes are erased on the way, nodes that are not ready
-- or have too little free are passed over.
unfoldable pub search : Executors → ℤ → ℤ → List WeakPtr → Search
search ex cores memory [] = missing []
search ex cores memory (w ∷ ws) =
    let rest = search ex cores memory ws in
    elim (lock ex w) [
      | none ↦ rest
      | some r ↦ elim (deref ex r) [
        | none ↦ rest
        | some e ↦
            if is_initialized e
            then (elim (lease cores memory e) [ none ↦ keep w rest | some e' ↦ found [] w r e' ws ])
            else keep w rest
      ]
    ]

abbrev pub address_length : ℕ
address_length = 16

-- The address is the content of its field of 16 bytes.
pub record LeaseResponse : Type 0 where
  pub lease_id : ℕ
  pub port : ℤ
  pub address : Bytes

-- `open_lease`. On success the identifier is the count of leases so far. Where the lease takes all
-- that is left of a node, the list entry is erased first and read afterwards: `dangling` is what that
-- read through a dangling reference gives.
unfoldable pub open_lease : ℤ → ℤ → WeakPtr → LeaseResponse → Db → Option ℕ × LeaseResponse × Db
open_lease cores memory dangling response db =
    elim (search db.executors cores memory db.free_nodes) [
      | missing ws ↦ (none, response, record db { free_nodes = ws })
      | found front w r e back ↦
          let total = is_fully_leased e in
          let new_lease : Lease = record {
            cores = cores;
            memory = memory;
            total = total;
            node = if total then dangling else w;
          } in
          (
            some r,
            record {
              lease_id = db.lease_count;
              port = e.port;
              address = strncpy address_length e.address;
            },
            record {
              executors = store r e db.executors;
              leases = emplace db.lease_count new_lease db.leases;
              lease_count = (db.lease_count + 1) % 2 ^ 32;
              free_nodes = if total then front ++ back else front ++ w ∷ back;
            },
          )
    ]

-- `close_lease`. The entry stays among the leases.
unfoldable pub close_lease : LeaseDeallocation → Db → Db
close_lease msg db = elim (find msg.lease_id db.leases) [
  | none ↦ db
  | some l ↦ elim (lock db.executors l.node) [
    | none ↦ db
    | some r ↦ elim (deref db.executors r) [
      | none ↦ db
      | some e ↦ record db {
        executors = store r (cancel_lease l e) db.executors;
        free_nodes = if l.total then db.free_nodes ++ l.node ∷ [] else db.free_nodes;
      }
    ]
  ]
]
