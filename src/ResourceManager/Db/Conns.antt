-- ===== src/ResourceManager/Db/Conns.antt =====
-- Leases do not touch the connections of the registry: server/resource_manager/db.cpp.
use r_faa_s.Common.{◌≡◌, refl, inl, inr, nat_eq, find, Bytes, ltb, length, Bool-cases, Option-cases}
use r_faa_s.Common.Int.{ℤ, to_int16}
use r_faa_s.ResourceManager.Messages.{LeaseDeallocation, node_name_length}
use r_faa_s.ResourceManager.Executor.{WeakPtr, cancel_lease}
use r_faa_s.ResourceManager.Executors.{lock, deref, add_executor}
use r_faa_s.ResourceManager.Executors.Conns.{Keeps, refl-Keeps, store-Keeps, add_executor-Keeps}
use r_faa_s.ResourceManager.Db.{
  Db, LeaseResponse, Search, missing, found, search, add, open_lease, close_lease,
}

pub open_lease-Keeps :
    (cores memory : ℤ) (dangling : WeakPtr) (response : LeaseResponse) (db : Db)
    → Keeps db.executors (open_lease cores memory dangling response db).2.executors
unfolding open_lease
open_lease-Keeps cores memory dangling response db =
    chosen (search db.executors cores memory db.free_nodes) refl
  where
    chosen :
        (s : Search)
        → search db.executors cores memory db.free_nodes ≡ s
        → Keeps db.executors (open_lease cores memory dangling response db).2.executors
    chosen (missing ws) e = rw (e, open_lease) (refl-Keeps db.executors)
    chosen (found front w r o back) e = rw (e, open_lease) (store-Keeps r o db.executors)

pub close_lease-Keeps :
    (msg : LeaseDeallocation) (db : Db) → Keeps db.executors (close_lease msg db).executors
unfolding close_lease
close_lease-Keeps msg db = elim (Option-cases (find msg.lease_id db.leases)) [
  | inl e ↦ rw (e, close_lease) (refl-Keeps db.executors)
  | inr (l, e) ↦ elim (Option-cases (lock db.executors l.node)) [
    | inl e' ↦ rw (e, e', close_lease) (refl-Keeps db.executors)
    | inr (r, e') ↦ elim (Option-cases (deref db.executors r)) [
      | inl e'' ↦ rw (e, e', e'', close_lease) (refl-Keeps db.executors)
      | inr (o, e'') ↦ rw (e, e', e'', close_lease) (store-Keeps r (cancel_lease l o) db.executors)
    ]
  ]
]

pub add-Keeps :
    (name ip : Bytes) (port cores memory : ℤ) (db : Db)
    → Keeps db.executors (add name ip port cores memory db).1.executors
unfolding add
add-Keeps name ip port cores memory db = elim (Bool-cases (ltb (length name) node_name_length)) [
  | inl short ↦ rw (short, add) (refl-Keeps db.executors)
  | inr long ↦
      let kept = add_executor-Keeps name ip port (to_int16 cores) memory db.executors in
      elim (Bool-cases (add_executor name ip port (to_int16 cores) memory db.executors).1) [
        | inl e ↦ rw (long, e, add) kept
        | inr e ↦ rw (long, e, add) kept
      ]
]
