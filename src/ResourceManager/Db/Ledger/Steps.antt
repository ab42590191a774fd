-- ===== src/ResourceManager/Db/Ledger/Steps.antt =====
-- Every operation on leases keeps the books: server/resource_manager/db.cpp.
use r_faa_s.Common.{
  ℕ, ◌+◌, ◌%◌, ◌^◌, ◌≤◌, ◌<◌, ◌≡◌, refl, sym, ap, subst, ◌∙◌, inl, inr, true, false, none, some,
  List, [], ◌∷◌, ◌++◌, Map, nat_eq, find, emplace, ◌==◌, ==_iff, if◌then◌else◌, arith, Bool-cases,
  Option-cases, if_elim, find-assign, find-emplace_new,
}
use r_faa_s.Common.Int.{ℤ, ◌+ℤ◌, ◌-ℤ◌, ◌≤ℤ◌}
use r_faa_s.ResourceManager.Messages.{LeaseDeallocation}
use r_faa_s.ResourceManager.Executor.{Executor, Lease, lease, cancel_lease, is_fully_leased}
use r_faa_s.ResourceManager.Executors.{Executors, is_alive, lock, deref}
use r_faa_s.ResourceManager.Db.{
  Db, LeaseResponse, Search, missing, found, search, open_lease, close_lease,
}
use r_faa_s.ResourceManager.Db.Leasing.{Opened, open_lease-Opened}
use r_faa_s.ResourceManager.Db.Closing.{close_lease_unknown, close_lease_found}
use r_faa_s.ResourceManager.Db.Ledger.{
  Hold, State, DbStep, opened, refused, closed, strayed, DbReach, here, next,
}
use r_faa_s.ResourceManager.Db.Ledger.Balance.{
  Balances, grant-Balances, release-Balances, forget-Balances,
}

-- The lease that the database has under the identifier of a hold.
pub record Recorded (leases : Map ℕ Lease) (h : Hold) : Type 0 where
  pub entry : Lease
  pub found : find h.id leases ≡ some entry
  pub cores : entry.cores ≡ h.cores
  pub memory : entry.memory ≡ h.memory
  pub node : entry.node ≡ some h.ref

abbrev pub AllRecorded : Map ℕ Lease → List Hold → Type 0
AllRecorded leases [] = Unit {0}
AllRecorded leases (h ∷ hs) = Recorded leases h × AllRecorded leases hs

-- Both resources balance at every node, every hold is recorded, and no identifier from the count of
-- leases on is taken.
pub record Kept (total_cores total_memory : ℕ → ℤ) (s : State) : Type 0 where
  pub cores : Balances (λ e. e.free_cores) (λ h. h.cores) total_cores s.db.executors s.holds
  pub memory : Balances (λ e. e.free_memory) (λ h. h.memory) total_memory s.db.executors s.holds
  pub recorded : AllRecorded s.db.leases s.holds
  pub unused : (id : ℕ) → s.db.lease_count ≤ id → find id s.db.leases ≡ none

AllRecorded-split :
    (leases : Map ℕ Lease) (front : List Hold) (h : Hold) (back : List Hold)
    → AllRecorded leases (front ++ h ∷ back)
    → Recorded leases h × AllRecorded leases (front ++ back)
AllRecorded-split leases [] h back r = r
AllRecorded-split leases (x ∷ front) h back r =
    let (this, rest) = AllRecorded-split leases front h back r.1 in (this, (r.0, rest))

find-emplace_kept :
    (k j : ℕ) (l : Lease) (t : Map ℕ Lease) {w : Lease}
    → find k t ≡ none
    → find j t ≡ some w
    → find j (emplace k l t) ≡ some w
unfolding emplace
find-emplace_kept k j l t {w} free there = elim (Bool-cases (k == j)) [
  | inl same ↦
      let clash = sym free ∙ ap (λ i. find i t) ((==_iff k j).0 same) ∙ there in absurd (cc)
  | inr other ↦ rw (free, emplace) (find-assign k j l t ∙ rw other there)
]

find-emplace_unused :
    (k j : ℕ) (l : Lease) (t : Map ℕ Lease)
    → find k t ≡ none
    → (k == j) ≡ false
    → find j t ≡ none
    → find j (emplace k l t) ≡ none
unfolding emplace
find-emplace_unused k j l t free other there =
    rw (free, emplace) (find-assign k j l t ∙ rw other there)

AllRecorded-emplace :
    (k : ℕ) (l : Lease) (t : Map ℕ Lease) (hs : List Hold)
    → find k t ≡ none
    → AllRecorded t hs
    → AllRecorded (emplace k l t) hs
AllRecorded-emplace k l t [] free r = tt
AllRecorded-emplace k l t (h ∷ hs) free r = (
  record {
    entry = r.0.entry;
    found = find-emplace_kept k h.id l t free r.0.found;
    cores = r.0.cores;
    memory = r.0.memory;
    node = r.0.node;
  },
  AllRecorded-emplace k l t hs free r.1,
)

pub lease-inv :
    (cores memory : ℤ) (e : Executor) {e' : Executor}
    → lease cores memory e ≡ some e'
    → (e'.free_cores ≡ e.free_cores -ℤ cores)
      × (e'.free_memory ≡ e.free_memory -ℤ memory)
      × (cores ≤ℤ e.free_cores)
      × (memory ≤ℤ e.free_memory)
unfolding lease
lease-inv cores memory e h = ground arith

refused-same :
    (cores memory : ℤ) (response : LeaseResponse) (db : Db)
    → (open_lease cores memory none response db).0 ≡ none
    → let db' = (open_lease cores memory none response db).2 in
      (db'.executors ≡ db.executors) × (db'.leases ≡ db.leases) × (db'.lease_count ≡ db.lease_count)
unfolding open_lease
refused-same cores memory response db h =
    chosen (search db.executors cores memory db.free_nodes) refl
  where
    chosen :
        (s : Search)
        → search db.executors cores memory db.free_nodes ≡ s
        → let db' = (open_lease cores memory none response db).2 in
          (db'.executors ≡ db.executors)
          × (db'.leases ≡ db.leases)
          × (db'.lease_count ≡ db.lease_count)
    chosen (missing ws) e = rw (e, open_lease) (refl, refl, refl)
    chosen (found front w r o back) e = absurd (ground (arith, e, h))

behind : (c id : ℕ) → c + 1 < 2 ^ 32 → (c + 1) % 2 ^ 32 ≤ id → ((c == id) ≡ false) × (c ≤ id)
behind c id room later = let lt : c < id = omega arith in (ground arith, omega arith)

lock_alive : (ex : Executors) (r : ℕ) → is_alive ex r ≡ true → lock ex (some r) ≡ some r
unfolding lock
lock_alive ex r h = rw h refl

close_lease_gone :
    (msg : LeaseDeallocation) (db : Db) (l : Lease) (r : ℕ)
    → find msg.lease_id db.leases ≡ some l
    → lock db.executors l.node ≡ some r
    → deref db.executors r ≡ none
    → close_lease msg db ≡ db
unfolding close_lease
close_lease_gone msg db l r h locked gone = rw (h, locked, gone, close_lease) refl

module _ (total_cores total_memory : ℕ → ℤ) where
  same-Kept :
      (s : State) (db : Db)
      → Kept total_cores total_memory s
      → db.executors ≡ s.db.executors
      → db.leases ≡ s.db.leases
      → db.lease_count ≡ s.db.lease_count
      → Kept total_cores total_memory (record s { db = db })
  same-Kept s db k ex leases count = record {
    cores = rw ex k.cores;
    memory = rw ex k.memory;
    recorded = rw leases k.recorded;
    unused = λ id h. rw leases (k.unused id (subst (λ c. c ≤ id) count h));
  }

  Opened-Kept :
      (cores memory : ℤ) (r : ℕ) (s : State) (db' : Db)
      → Kept total_cores total_memory s
      → Opened cores memory (some r) s.db r db'
      → s.db.lease_count + 1 < 2 ^ 32
      → Kept total_cores total_memory (record {
        db = db';
        holds = record { id = s.db.lease_count; ref = r; cores = cores; memory = memory } ∷ s.holds;
      })
  Opened-Kept cores memory r s db' k o room =
      let h : Hold = record { id = s.db.lease_count; ref = r; cores = cores; memory = memory } in
      let taken = lease-inv cores memory o.object o.leased in
      let free = k.unused s.db.lease_count (omega arith) in
      let new : Lease = record {
        cores = cores;
        memory = memory;
        total = is_fully_leased o.after;
        node = if is_fully_leased o.after then some r else some r;
      } in
      rw o.state (record {
        cores =
            grant-Balances (λ e. e.free_cores) (λ x. x.cores) total_cores s.db.executors s.holds h
              o.after k.cores o.here taken.0;
        memory =
            grant-Balances (λ e. e.free_memory) (λ x. x.memory) total_memory s.db.executors s.holds
              h o.after k.memory o.here taken.1;
        recorded = (
          record {
            entry = new;
            found = find-emplace_new s.db.lease_count new s.db.leases free;
            cores = refl;
            memory = refl;
            node = if_elim (λ w. w ≡ some r) (is_fully_leased o.after) refl refl;
          },
          AllRecorded-emplace s.db.lease_count new s.db.leases s.holds free k.recorded,
        );
        unused = λ id later.
            find-emplace_unused s.db.lease_count id new s.db.leases free
              (behind s.db.lease_count id room later).0
              (k.unused id (behind s.db.lease_count id room later).1);
      })

  closed-Kept :
      (msg : LeaseDeallocation) (front : List Hold) (h : Hold) (back : List Hold) (s : State)
      → Kept total_cores total_memory s
      → s.holds ≡ front ++ h ∷ back
      → msg.lease_id ≡ h.id
      → is_alive s.db.executors h.ref ≡ true
      → Kept total_cores total_memory (record { db = close_lease msg s.db; holds = front ++ back })
  closed-Kept msg front h back s k split named alive =
      let all = subst (AllRecorded s.db.leases) split k.recorded in
      let (this, rest) = AllRecorded-split s.db.leases front h back all in
      let cores =
        subst (Balances (λ e. e.free_cores) (λ x. x.cores) total_cores s.db.executors) split
          k.cores in
      let memory =
        subst (Balances (λ e. e.free_memory) (λ x. x.memory) total_memory s.db.executors) split
          k.memory in
      let there = ap (λ i. find i s.db.leases) named ∙ this.found in
      let locked : lock s.db.executors this.entry.node ≡ some h.ref =
        ap (lock s.db.executors) this.node ∙ lock_alive s.db.executors h.ref alive in
      elim (Option-cases (deref s.db.executors h.ref)) [
        | inl gone ↦ rw (close_lease_gone msg s.db this.entry h.ref there locked gone) (record {
          cores =
              forget-Balances (λ e. e.free_cores) (λ x. x.cores) total_cores s.db.executors front h
                back cores gone;
          memory =
              forget-Balances (λ e. e.free_memory) (λ x. x.memory) total_memory s.db.executors front
                h back memory gone;
          recorded = rest;
          unused = k.unused;
        })
        | inr (o, object) ↦ rw (close_lease_found msg s.db this.entry h.ref o there locked object) (
            unfold cancel_lease in
            record {
              cores =
                  release-Balances (λ e. e.free_cores) (λ x. x.cores) total_cores s.db.executors
                    front h back (cancel_lease this.entry o) cores object
                    (ap (λ c. o.free_cores +ℤ c) this.cores);
              memory =
                  release-Balances (λ e. e.free_memory) (λ x. x.memory) total_memory s.db.executors
                    front h back (cancel_lease this.entry o) memory object
                    (ap (λ c. o.free_memory +ℤ c) this.memory);
              recorded = rest;
              unused = k.unused;
            })
      ]

  pub DbStep-Kept :
      {s t : State} → DbStep s t → Kept total_cores total_memory s → Kept total_cores total_memory t
  DbStep-Kept (opened cores memory response r s granted room) k =
      Opened-Kept cores memory r s _ k
        (open_lease-Opened cores memory (some r) response s.db r granted).0 room
  DbStep-Kept (refused cores memory response s none_left) k =
      let (ex, leases, count) = refused-same cores memory response s.db none_left in
      same-Kept s _ k ex leases count
  DbStep-Kept (closed msg front h back s split named alive) k =
      closed-Kept msg front h back s k split named alive
  DbStep-Kept (strayed msg s nothing) k =
      let same = close_lease_unknown msg s.db nothing in
      same-Kept s _ k (ap (λ x. x.executors) same) (ap (λ x. x.leases) same)
        (ap (λ x. x.lease_count) same)

  pub DbReach-Kept :
      {s t : State}
      → Kept total_cores total_memory s
      → DbReach s t
      → Kept total_cores total_memory t
  DbReach-Kept k here = k
  DbReach-Kept k (next r st) = DbStep-Kept st (DbReach-Kept k r)
