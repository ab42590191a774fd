-- ===== src/ResourceManager/Db/Ledger/Refinement.antt =====
-- The lease database implements the ledger: server/resource_manager/db.cpp.
use r_faa_s.Common.{ℕ, ◌≡◌, refl, sym, subst, ◌∙◌, some, [], ◌++◌, nat_eq, find}
use r_faa_s.Common.Int.{ℤ, pos, ◌+ℤ◌, int_laws}
use r_faa_s.ResourceManager.Executor.{Executor}
use r_faa_s.ResourceManager.Executors.{deref}
use r_faa_s.ResourceManager.Db.Leasing.{open_lease-Opened}
use r_faa_s.ResourceManager.Db.Ledger.{
  Hold, held, LedgerStep, grant, release, stay, State, DbStep, opened, refused, closed, strayed,
  DbReach, next,
}
use r_faa_s.ResourceManager.Db.Ledger.Balance.{Balances-fits}
use r_faa_s.ResourceManager.Db.Ledger.Steps.{Kept, DbReach-Kept, lease-inv}

add_nothing : (a : ℤ) → a +ℤ pos 0 ≡ a
add_nothing a = omega int_laws

module _ (total_cores total_memory : ℕ → ℤ) where
  step_implements :
      {s t : State}
      → Kept total_cores total_memory s
      → DbStep s t
      → LedgerStep total_cores total_memory s.holds t.holds
  step_implements k (opened cores memory response r s granted room) =
      let h : Hold = record { id = s.db.lease_count; ref = r; cores = cores; memory = memory } in
      let o = (open_lease-Opened cores memory (some r) response s.db r granted).0 in
      let taken = lease-inv cores memory o.object o.leased in
      grant h
        (Balances-fits (λ e. e.free_cores) (λ x. x.cores) total_cores s.db.executors s.holds h
          k.cores o.here taken.2)
        (Balances-fits (λ e. e.free_memory) (λ x. x.memory) total_memory s.db.executors s.holds h
          k.memory o.here taken.3)
  step_implements k (refused cores memory response s none_left) = stay
  step_implements k (closed msg front h back s split named alive) =
      subst (λ hs. LedgerStep total_cores total_memory hs (front ++ back)) (sym split)
        (release front h back)
  step_implements k (strayed msg s nothing) = stay

  -- Nothing is leased yet, and the nodes have everything free.
  pub record Fresh (s : State) : Type 0 where
    pub nothing : s.holds ≡ []
    pub unused : s.db.leases ≡ []
    pub cores :
        (q : ℕ) (e : Executor) → deref s.db.executors q ≡ some e → e.free_cores ≡ total_cores q
    pub memory :
        (q : ℕ) (e : Executor) → deref s.db.executors q ≡ some e → e.free_memory ≡ total_memory q

  Fresh-Kept : {s : State} → Fresh s → Kept total_cores total_memory s
  unfolding find
  Fresh-Kept f = record {
    cores = rw f.nothing (λ q e h. add_nothing e.free_cores ∙ f.cores q e h);
    memory = rw f.nothing (λ q e h. add_nothing e.free_memory ∙ f.memory q e h);
    recorded = rw f.nothing tt;
    unused = λ id h. rw f.unused refl;
  }

  -- From a database in which all nodes are free, every opening and closing of a lease is a step of the
  -- ledger, as long as the identifiers do not run out, a lease is closed only while it is held and its
  -- node lives or its identifier is unknown, and the read of an erased list entry still gives its node.
  -- That is: a lease is granted only if the cores, and the memory,
  -- that are held of its node with it are no more than the node has in total; closing a lease gives back
  -- that lease; and what is free of a node is always the total less what is held.
  pub db_implements_ledger :
      (s t u : State) (q : ℕ) (e : Executor)
      → Fresh s
      → DbReach s t
      → DbStep t u
      → deref u.db.executors q ≡ some e
      → LedgerStep total_cores total_memory t.holds u.holds
        × (e.free_cores +ℤ held (λ h. h.cores) q u.holds ≡ total_cores q)
        × (e.free_memory +ℤ held (λ h. h.memory) q u.holds ≡ total_memory q)
  db_implements_ledger s t u q e f r st there =
      let k = DbReach-Kept total_cores total_memory (Fresh-Kept f) r in
      let k' = DbReach-Kept total_cores total_memory (Fresh-Kept f) (next r st) in
      (step_implements k st, k'.cores q e there, k'.memory q e there)
