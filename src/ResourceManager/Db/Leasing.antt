-- ===== src/ResourceManager/Db/Leasing.antt =====
-- What opening and closing a lease do to the resources of a node: server/resource_manager/db.cpp.
use r_faa_s.Common.{
  ℕ, suc, ◌+◌, ◌%◌, ◌^◌, ◌≡◌, refl, ap, ◌∙◌, Bool, true, inl, inr, none, some, List, ◌∷◌, ◌++◌,
  arith, if◌then◌else◌, Bool-cases, Option-cases, emplace, nat_eq,
}
use r_faa_s.Common.Int.{ℤ, pos, negsuc, ◌+ℤ◌, ◌-ℤ◌, ◌≤ℤ◌, sub-add_cancel, int_laws, -ℤ_parts}
use r_faa_s.ResourceManager.Executor.{
  Executor, WeakPtr, is_initialized, lease, is_fully_leased, cancel_lease,
}
use r_faa_s.ResourceManager.Executors.{Executors, is_alive, lock, deref, store}
use r_faa_s.ResourceManager.Db.{Db, LeaseResponse, open_lease}
use r_faa_s.ResourceManager.Db.FirstFit.{live, suits, search_first_fit}

-- A lease of what is free leaves the rest, and cancelling it gives the object back as it was.
pub cancel-lease :
    (cores memory : ℤ) (total : Bool) (ptr : WeakPtr) (e : Executor) {e' : Executor}
    → lease cores memory e ≡ some e'
    → cancel_lease (record { cores = cores; memory = memory; total = total; node = ptr }) e' ≡ e
unfolding lease cancel_lease
cancel-lease cores memory total ptr e h =
    ground (arith, sub-add_cancel e.free_cores cores, sub-add_cancel e.free_memory memory)

pub lock-inv :
    (ex : Executors) (w : WeakPtr) {r : ℕ}
    → lock ex w ≡ some r
    → (w ≡ some r) × (is_alive ex r ≡ true)
unfolding lock
lock-inv ex none h = cc
lock-inv ex (some s) h = ground arith

-- A node that suits is a living object that leases what is asked for.
pub record Suited (ex : Executors) (cores memory : ℤ) (w : WeakPtr) (r : ℕ) (e' : Executor)
    : Type 0 where
  pub object : Executor
  pub pointer : w ≡ some r
  pub alive : is_alive ex r ≡ true
  pub here : deref ex r ≡ some object
  pub ready : is_initialized object ≡ true
  pub leased : lease cores memory object ≡ some e'

pub suits-inv :
    (ex : Executors) (cores memory : ℤ) (w : WeakPtr) (r : ℕ) (e' : Executor)
    → suits ex cores memory w ≡ some (r, e')
    → Suited ex cores memory w r e'
suits-inv ex cores memory w r e' h = elim (Option-cases (lock ex w)) [
  | inl e ↦ absurd (cc (e, h))
  | inr (s, e) ↦ elim (Option-cases (deref ex s)) [
    | inl gone ↦ absurd (ground (arith, h))
    | inr (o, here) ↦ elim (Bool-cases (is_initialized o)) [
      | inl ready ↦ elim (Option-cases (lease cores memory o)) [
        | inl short ↦ absurd (ground arith)
        | inr (o', fits) ↦
            let same : s ≡ r = ground arith in
            record {
              object = o;
              pointer = (lock-inv ex w e).0 ∙ ap some same;
              alive = rw (← same) (lock-inv ex w e).1;
              here = rw (← same) here;
              ready = ready;
              leased = fits ∙ (ground arith);
            }
      ]
      | inr not_ready ↦ absurd (ground arith)
    ]
  ]
]

-- What a successful `open_lease` has done, in the terms of the node that it took.
pub record Opened (cores memory : ℤ) (dangling : WeakPtr) (db : Db) (r : ℕ) (db' : Db)
    : Type 0 where
  pub object : Executor
  pub after : Executor
  pub front : List WeakPtr
  pub back : List WeakPtr
  pub alive : is_alive db.executors r ≡ true
  pub here : deref db.executors r ≡ some object
  pub ready : is_initialized object ≡ true
  pub leased : lease cores memory object ≡ some after
  pub state : db' ≡ record {
    executors = store r after db.executors;
    leases =
        emplace db.lease_count
          (record {
            cores = cores;
            memory = memory;
            total = is_fully_leased after;
            node = if is_fully_leased after then dangling else some r;
          })
          db.leases;
    lease_count = (db.lease_count + 1) % 2 ^ 32;
    free_nodes = if is_fully_leased after then front ++ back else front ++ some r ∷ back;
  }

-- Whenever `open_lease` returns a node, it is a living, ready one that had what was asked for; the
-- identifier of the response is the count of leases before the call.
pub open_lease-Opened :
    (cores memory : ℤ) (dangling : WeakPtr) (response : LeaseResponse) (db : Db) (r : ℕ)
    → (open_lease cores memory dangling response db).0 ≡ some r
    → Opened cores memory dangling db r (open_lease cores memory dangling response db).2
      × ((open_lease cores memory dangling response db).1.lease_id ≡ db.lease_count)
unfolding open_lease
open_lease-Opened cores memory dangling response db r h =
    elim (search_first_fit db.executors cores memory db.free_nodes) [
      | inl (unfit, e) ↦ absurd (ground arith)
      | inr t ↦
          let s = suits-inv db.executors cores memory t.node t.ref t.object t.suited in
          let same : t.ref ≡ r = ground (arith, t.result) in
          rw (t.result, open_lease)
            (
              record {
                object = s.object;
                after = t.object;
                front = live db.executors cores memory t.before;
                back = t.back;
                alive = rw (← same) s.alive;
                here = rw (← same) s.here;
                ready = s.ready;
                leased = s.leased;
                state = rw (s.pointer, same);
              },
              refl,
            )
    ]

-- A node grants any request whose cores it has and whose memory is negative and not above what is
-- free, and then has more memory free than before.
pub lease_negative_memory :
    (e : Executor) (cores : ℤ) (m : ℕ)
    → cores ≤ℤ e.free_cores
    → pos 0 ≤ℤ e.free_memory
    → (e' : Executor) × (lease cores (negsuc m) e ≡ some e')
      × (e'.free_memory ≡ e.free_memory +ℤ pos (suc m))
      × (e'.free_cores ≡ e.free_cores -ℤ cores)
unfolding lease
lease_negative_memory e cores m h k = (
  record e { free_cores = e.free_cores -ℤ cores; free_memory = e.free_memory -ℤ negsuc m },
  ground arith,
  omega int_laws,
  refl,
)

-- A request of no negative amount that is granted leaves between zero and what was free.
pub lease_bounds :
    (cores memory : ℤ) (e : Executor) {e' : Executor}
    → pos 0 ≤ℤ cores
    → pos 0 ≤ℤ memory
    → lease cores memory e ≡ some e'
    → (pos 0 ≤ℤ e'.free_cores)
      × (e'.free_cores ≤ℤ e.free_cores)
      × (pos 0 ≤ℤ e'.free_memory)
      × (e'.free_memory ≤ℤ e.free_memory)
unfolding lease
lease_bounds cores memory e hc hm h =
    ground (arith, -ℤ_parts e.free_cores cores, -ℤ_parts e.free_memory memory)
