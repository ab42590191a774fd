-- ===== src/ResourceManager/Db/Closing.antt =====
-- Closing a lease, in order and out of order: server/resource_manager/db.cpp, `close_lease`.
use mathlib.Core.List.{Mem, mem-append_right, mem-cons_self}
use r_faa_s.Common.{
  ℕ, ◌+◌, ◌%◌, ◌^◌, ◌≡◌, refl, ap, ◌∙◌, Bool, true, inl, inr, none, some, [], ◌∷◌, ◌++◌, arith,
  if◌then◌else◌, Bool-cases, find, emplace, nat_eq, find-emplace_new, set-restore,
  get_elem?-set_self, get_elem?-lt,
}
use r_faa_s.Common.Int.{ℤ, ◌+ℤ◌}
use r_faa_s.ResourceManager.Messages.{LeaseDeallocation}
use r_faa_s.ResourceManager.Executor.{Executor, Lease, is_fully_leased, cancel_lease}
use r_faa_s.ResourceManager.Executors.{Executors, is_alive, lock, deref, store}
use r_faa_s.ResourceManager.Db.{Db, LeaseResponse, open_lease, close_lease}
use r_faa_s.ResourceManager.Db.Leasing.{Opened, open_lease-Opened, cancel-lease, lock-inv}

-- The deallocation of an identifier that no lease has changes nothing.
pub close_lease_unknown :
    (msg : LeaseDeallocation) (db : Db)
    → find msg.lease_id db.leases ≡ none
    → close_lease msg db ≡ db
unfolding close_lease
close_lease_unknown msg db h = rw (h, close_lease)

-- What `close_lease` does to a lease that it finds, on a node that lives.
pub close_lease_found :
    (msg : LeaseDeallocation) (db : Db) (l : Lease) (r : ℕ) (e : Executor)
    → find msg.lease_id db.leases ≡ some l
    → lock db.executors l.node ≡ some r
    → deref db.executors r ≡ some e
    → close_lease msg db ≡ record db {
      executors = store r (cancel_lease l e) db.executors;
      free_nodes = if l.total then db.free_nodes ++ l.node ∷ [] else db.free_nodes;
    }
unfolding close_lease
close_lease_found msg db l r e h locked here = rw (h, locked, here, close_lease) refl

pub deref-store :
    (ex : Executors) (r : ℕ) (e : Executor) {o : Executor}
    → deref ex r ≡ some o
    → deref (store r e ex) r ≡ some e
unfolding deref store
deref-store ex r e h = get_elem?-set_self ex.objects r e (get_elem?-lt ex.objects r h)

lock-store :
    (ex : Executors) (r : ℕ) (e : Executor)
    → is_alive ex r ≡ true
    → lock (store r e ex) (some r) ≡ some r
unfolding lock store
lock-store ex r e h = ground arith

store-restore :
    (ex : Executors) (r : ℕ) (e : Executor) {o : Executor}
    → deref ex r ≡ some o
    → store r o (store r e ex) ≡ ex
unfolding deref store
store-restore ex r e h =
    let same = set-restore ex.objects r e h in
    λ i. record { objects = same i; by_name = ex.by_name; by_conn = ex.by_conn }

close-Opened :
    (cores memory : ℤ) (db : Db) (r : ℕ) (db' : Db) (msg : LeaseDeallocation)
    → Opened cores memory (some r) db r db'
    → find db.lease_count db.leases ≡ none
    → msg.lease_id ≡ db.lease_count
    → ((close_lease msg db').executors ≡ db.executors)
      × Mem (some r) (close_lease msg db').free_nodes
close-Opened cores memory db r db' msg o fresh id = rw (o.state, closed) (restored, back_again)
  where
    total : Bool
    total = is_fully_leased o.after

    l : Lease
    l = record {
      cores = cores;
      memory = memory;
      total = total;
      node = if total then some r else some r;
    }

    opened : Db
    opened = record {
      executors = store r o.after db.executors;
      leases = emplace db.lease_count l db.leases;
      lease_count = (db.lease_count + 1) % 2 ^ 32;
      free_nodes = if total then o.front ++ o.back else o.front ++ some r ∷ o.back;
    }

    pointer : l.node ≡ some r
    pointer = elim (Bool-cases total) [ inl e ↦ rw e | inr e ↦ rw e ]

    back_again :
        Mem (some r) (if total then opened.free_nodes ++ l.node ∷ [] else opened.free_nodes)
    back_again = elim (Bool-cases total) [
      | inl e ↦ rw e (mem-append_right (o.front ++ o.back) mem-cons_self)
      | inr e ↦ rw e (mem-append_right o.front mem-cons_self)
    ]

    closed : close_lease msg opened ≡ record opened {
      executors = store r (cancel_lease l o.after) (store r o.after db.executors);
      free_nodes = if total then opened.free_nodes ++ l.node ∷ [] else opened.free_nodes;
    }
    closed =
        close_lease_found msg opened l r o.after
          (rw id (find-emplace_new db.lease_count l db.leases fresh))
          (ap (lock opened.executors) pointer ∙ lock-store db.executors r o.after o.alive)
          (deref-store db.executors r o.after o.here)

    restored : store r (cancel_lease l o.after) (store r o.after db.executors) ≡ db.executors
    restored =
        ap (λ e. store r e (store r o.after db.executors))
          (cancel-lease cores memory total l.node o.object o.leased)
        ∙ store-restore db.executors r o.after o.here

-- Closing a lease right after it was opened gives every executor back as it was, and its node is among
-- the free nodes again; provided that the identifier was free and that the read of the erased entry,
-- if the lease took all that was left, still gave the node.
pub close-open_lease :
    (cores memory : ℤ) (response : LeaseResponse) (db : Db) (r : ℕ) (msg : LeaseDeallocation)
    → (open_lease cores memory (some r) response db).0 ≡ some r
    → find db.lease_count db.leases ≡ none
    → msg.lease_id ≡ (open_lease cores memory (some r) response db).1.lease_id
    → let db' = close_lease msg (open_lease cores memory (some r) response db).2 in
      (db'.executors ≡ db.executors) × Mem (some r) db'.free_nodes
close-open_lease cores memory response db r msg h fresh id =
    let o = open_lease-Opened cores memory (some r) response db r h in
    close-Opened cores memory db r _ msg o.0 fresh (id ∙ o.1)

-- A lease that is found on a living node can be closed again and again: the entry stays.
close_lease_again :
    (msg : LeaseDeallocation) (db : Db) (l : Lease) (r : ℕ) (e : Executor)
    → find msg.lease_id db.leases ≡ some l
    → lock db.executors l.node ≡ some r
    → deref db.executors r ≡ some e
    → is_alive db.executors r ≡ true
    → let db' = close_lease msg db in
      (find msg.lease_id db'.leases ≡ some l)
      × (lock db'.executors l.node ≡ some r)
      × (deref db'.executors r ≡ some (cancel_lease l e))
unfolding cancel_lease
close_lease_again msg db l r e h locked here alive =
    rw (close_lease_found msg db l r e h locked here) (
      h,
      rw (lock-inv db.executors l.node locked).0
          (lock-store db.executors r (cancel_lease l e) alive),
      deref-store db.executors r (cancel_lease l e) here,
    )

-- Whenever a lease is open on a living node, two deallocations with its identifier give its cores and
-- its memory back twice.
pub close_lease_twice :
    (msg : LeaseDeallocation) (db : Db) (l : Lease) (r : ℕ) (e : Executor)
    → find msg.lease_id db.leases ≡ some l
    → lock db.executors l.node ≡ some r
    → deref db.executors r ≡ some e
    → (e' : Executor) × (deref (close_lease msg (close_lease msg db)).executors r ≡ some e')
      × (e'.free_cores ≡ e.free_cores +ℤ l.cores +ℤ l.cores)
      × (e'.free_memory ≡ e.free_memory +ℤ l.memory +ℤ l.memory)
unfolding cancel_lease
close_lease_twice msg db l r e h locked here =
    let alive = (lock-inv db.executors l.node locked).1 in
    let once = close_lease_again msg db l r e h locked here alive in
    let still = (lock-inv (close_lease msg db).executors l.node once.1).1 in
    let twice =
      close_lease_again msg (close_lease msg db) l r (cancel_lease l e) once.0 once.1 once.2
        still in
    (cancel_lease l (cancel_lease l e), twice.2, refl, refl)
