-- ===== src/ResourceManager/Db/Granted.antt =====
-- The response to a lease that was opened: server/resource_manager/db.cpp, `open_lease`.
use r_faa_s.Common.{ℕ, ◌≡◌, refl, sym, ap, ◌∙◌, inl, inr, some, arith, some_inj, nat_eq}
use r_faa_s.Common.Int.{ℤ}
use r_faa_s.ResourceManager.Executor.{Executor, WeakPtr}
use r_faa_s.ResourceManager.Executors.{deref, store}
use r_faa_s.ResourceManager.Messages.{strncpy}
use r_faa_s.ResourceManager.Db.{Db, LeaseResponse, open_lease, address_length}
use r_faa_s.ResourceManager.Db.FirstFit.{search_first_fit}
use r_faa_s.ResourceManager.Db.Leasing.{suits-inv}
use r_faa_s.ResourceManager.Db.Closing.{deref-store}

-- It names the node that was taken, as it is after the lease.
pub open_lease-response :
    (cores memory : ℤ) (dangling : WeakPtr) (response : LeaseResponse) (db : Db) (r : ℕ)
    (e : Executor)
    → (open_lease cores memory dangling response db).0 ≡ some r
    → deref (open_lease cores memory dangling response db).2.executors r ≡ some e
    → (open_lease cores memory dangling response db).1 ≡ record {
      lease_id = db.lease_count;
      port = e.port;
      address = strncpy address_length e.address;
    }
unfolding open_lease
open_lease-response cores memory dangling response db r e h here =
    elim (search_first_fit db.executors cores memory db.free_nodes) [
      | inl (unfit, none_of) ↦ absurd (ground (arith, h))
      | inr t ↦
          let s = suits-inv db.executors cores memory t.node t.ref t.object t.suited in
          let same : t.ref ≡ r = ground (arith, t.result) in
          let stored : (open_lease cores memory dangling response db).2.executors
              ≡ store t.ref t.object db.executors =
            rw (t.result, open_lease) refl in
          let there : deref (store t.ref t.object db.executors) r ≡ some t.object =
            ap (deref (store t.ref t.object db.executors)) (sym same)
            ∙ deref-store db.executors t.ref t.object s.here in
          let object : t.object ≡ e =
            some_inj (sym there ∙ ap (λ x. deref x r) (sym stored) ∙ here) in
          let named : Executor → LeaseResponse = λ o. record {
            lease_id = db.lease_count;
            port = o.port;
            address = strncpy address_length o.address;
          } in
          rw (t.result, open_lease) (ap named object)
    ]
