-- ===== src/ResourceManager/Executors/Laws.antt =====
-- The registry stays well formed, and what a registration does in either order: executor.cpp.
use r_faa_s.Common.{
  ℕ, suc, ◌≤◌, ◌<◌, ◌≡◌, refl, ◌∙◌, true, false, none, some, [], ◌∷◌, ◌++◌, Bytes, Map, nat_eq,
  bytes_eq, find, emplace, set, length, arith, inl, inr, Eq, length-append, length-set,
  get_elem?-append_left, get_elem?-set_self, get_elem?-lt, Option-cases, Bool-cases,
}
use r_faa_s.Common.Int.{ℤ}
use r_faa_s.ResourceManager.Executor.{Executor, create_with, initialize_data, is_initialized, merge}
use r_faa_s.ResourceManager.Executors.{
  Executors, lock, deref, store, make_shared, add_executor, connect_executor, merge_into,
  register_executor, remove_executor,
}
use r_faa_s.ResourceManager.Executors.References.{
  RefsBelow, RefsBelow-mono, assign-RefsBelow, erase-RefsBelow, find-RefsBelow, holds_below,
}

pub record IsValid (ex : Executors) : Type 0 where
  pub names : RefsBelow (length ex.objects) ex.by_name
  pub conns : RefsBelow (length ex.objects) ex.by_conn

-- An object that no table holds is not alive, so a weak pointer to it cannot be locked.
lock_fresh : (ex : Executors) (r : ℕ) → IsValid ex → length ex.objects ≤ r → lock ex (some r) ≡ none
unfolding lock
lock_fresh ex r v h = ground (
  arith,
  holds_below (length ex.objects) r ex.by_name v.names h,
  holds_below (length ex.objects) r ex.by_conn v.conns h,
)

length-make :
    (ex : Executors) (e : Executor) → length (make_shared e ex).1.objects ≡ suc (length ex.objects)
unfolding make_shared
length-make ex e = length-append ex.objects (e ∷ []) ∙ omega arith

make_shared-IsValid : (ex : Executors) (e : Executor) → IsValid ex → IsValid (make_shared e ex).1
unfolding make_shared
make_shared-IsValid ex e v = record {
  names =
      rw (length-append ex.objects (e ∷ []))
        (RefsBelow-mono (length ex.objects) _ ex.by_name (omega arith) v.names);
  conns =
      rw (length-append ex.objects (e ∷ []))
        (RefsBelow-mono (length ex.objects) _ ex.by_conn (omega arith) v.conns);
}

pub store-IsValid : (r : ℕ) (e : Executor) (ex : Executors) → IsValid ex → IsValid (store r e ex)
unfolding store
store-IsValid r e ex v = record {
  names = rw (length-set ex.objects r e) v.names;
  conns = rw (length-set ex.objects r e) v.conns;
}

emplace-RefsBelow {ℓ} :
    {K : Type ℓ} ⦃e : Eq K⦄ (n : ℕ) (k : K) (r : ℕ) (t : Map K ℕ)
    → find k t ≡ none
    → r < n
    → RefsBelow n t
    → RefsBelow n (emplace k r t)
unfolding emplace
emplace-RefsBelow n k r t h lt b = rw (h, emplace) (assign-RefsBelow n k r t lt b)

added : (e : Executor) (ex : Executors) → (make_shared e ex).0 < length (make_shared e ex).1.objects
unfolding make_shared
added e ex = omega (arith, length-append ex.objects (e ∷ []))

add_executor-IsValid :
    (name ip : Bytes) (port cores memory : ℤ) (ex : Executors)
    → IsValid ex
    → IsValid (add_executor name ip port cores memory ex).2
unfolding add_executor
add_executor-IsValid name ip port cores memory ex v = elim (Option-cases (find name ex.by_name)) [
  | inl e ↦
      rw (e, add_executor)
        (record {
          names =
              emplace-RefsBelow (length ex'.objects) name (make_shared fresh ex).0 ex.by_name e
                (added fresh ex) v'.names;
          conns = v'.conns;
        })
  | inr (old, e) ↦ elim (Option-cases (deref ex' old)) [
    | inl gone ↦ rw (e, gone, add_executor) v'
    | inr (o, here) ↦ elim (Bool-cases (is_initialized o)) [
      | inl ready ↦ rw (e, here, ready, add_executor) v'
      | inr not_ready ↦
          rw (e, here, not_ready, add_executor)
            (store-IsValid old (initialize_data name ip port cores memory o) ex' v')
    ]
  ]
]
  where
    fresh : Executor
    fresh = create_with name ip port cores memory

    ex' : Executors
    ex' = (make_shared fresh ex).1

    v' : IsValid ex'
    v' = make_shared-IsValid ex fresh v

connect_executor-IsValid :
    (qp : ℕ) (e : Executor) (ex : Executors) → IsValid ex → IsValid (connect_executor qp e ex)
unfolding connect_executor
connect_executor-IsValid qp e ex v = record {
  names = made.names;
  conns = assign-RefsBelow _ qp (make_shared e ex).0 ex.by_conn (added e ex) made.conns;
}
  where
    made : IsValid (make_shared e ex).1
    made = make_shared-IsValid ex e v

merge_into-IsValid :
    (qp r old : ℕ) (ex : Executors)
    → r < length ex.objects
    → IsValid ex
    → IsValid (merge_into qp r old ex)
unfolding merge_into
merge_into-IsValid qp r old ex lt v = elim (Option-cases (deref ex old)) [
  | inl gone ↦ rw (gone, merge_into) v
  | inr (exec, e) ↦ elim (Option-cases (deref ex r)) [
    | inl gone ↦ rw (e, gone, merge_into) v
    | inr (this, e') ↦
        let before = store r (merge exec this).0 ex in
        let stored = store old (merge exec this).1 before in
        let w = store-IsValid old (merge exec this).1 before (store-IsValid r _ ex v) in
        rw (e, e', merge_into)
          (record {
            names = w.names;
            conns =
                assign-RefsBelow (length stored.objects) qp r ex.by_conn
                  (unfold store in
                    omega (
                      arith,
                      length-set ex.objects r (merge exec this).0,
                      length-set (set ex.objects r (merge exec this).0) old (merge exec this).1,
                    ))
                  w.conns;
          })
  ]
]

register_executor-IsValid :
    (qp : ℕ) (name : Bytes) (ex : Executors) → IsValid ex → IsValid (register_executor qp name ex).1
unfolding register_executor
register_executor-IsValid qp name ex v = elim (Option-cases (find qp ex.by_conn)) [
  | inl e ↦ rw (e, register_executor) v
  | inr (old, e) ↦ elim (Option-cases (find name ex.by_name)) [
    | inl e' ↦
        rw (e, e', register_executor)
          (record {
            names =
                assign-RefsBelow (length ex.objects) name old ex.by_name
                  (find-RefsBelow _ qp ex.by_conn v.conns e) v.names;
            conns = v.conns;
          })
    | inr (r, e') ↦
        rw (e, e', register_executor)
          (merge_into-IsValid qp r old ex (find-RefsBelow _ name ex.by_name v.names e') v)
  ]
]

remove_executor-IsValid : (qp : ℕ) (ex : Executors) → IsValid ex → IsValid (remove_executor qp ex).1
unfolding remove_executor
remove_executor-IsValid qp ex v = elim (Option-cases (find qp ex.by_conn)) [
  | inl e ↦ rw (e, remove_executor) v
  | inr (r, e) ↦ elim (Option-cases (deref ex r)) [
    | inl gone ↦
        rw (e, gone, remove_executor)
          (record {
            names = v.names;
            conns = erase-RefsBelow (length ex.objects) qp ex.by_conn v.conns;
          })
    | inr (o, here) ↦
        rw (e, here, remove_executor)
          (record {
            names = erase-RefsBelow (length ex.objects) o.node ex.by_name v.names;
            conns = erase-RefsBelow (length ex.objects) qp ex.by_conn v.conns;
          })
  ]
]

-- Every operation of the registry keeps all the references of its two tables inside the store.
pub registry-IsValid :
    (qp : ℕ) (e : Executor) (name ip : Bytes) (port cores memory : ℤ) (ex : Executors)
    → IsValid ex
    → IsValid (add_executor name ip port cores memory ex).2
      × IsValid (connect_executor qp e ex)
      × IsValid (register_executor qp name ex).1
      × IsValid (remove_executor qp ex).1
registry-IsValid qp e name ip port cores memory ex v = (
  add_executor-IsValid name ip port cores memory ex v,
  connect_executor-IsValid qp e ex v,
  register_executor-IsValid qp name ex v,
  remove_executor-IsValid qp ex v,
)

-- Adding an executor whose name is already taken by one that is not yet ready reports success, but the
-- pointer that it returns cannot be locked: the data went to the other object.
pub add_known_expired :
    (name ip : Bytes) (port cores memory : ℤ) (ex : Executors) (old : ℕ) (e : Executor)
    → IsValid ex
    → find name ex.by_name ≡ some old
    → deref ex old ≡ some e
    → is_initialized e ≡ false
    → let (ptr, success, ex') = add_executor name ip port cores memory ex in
      (success ≡ true)
      × (lock ex' ptr ≡ none)
      × (deref ex' old ≡ some (initialize_data name ip port cores memory e))
unfolding add_executor make_shared store deref lock
add_known_expired name ip port cores memory ex old e v h here not_ready = rw same (
  refl,
  lock_fresh ex (length ex.objects) v (omega arith),
  get_elem?-set_self (ex.objects ++ fresh ∷ []) old given
      (omega (arith, get_elem?-lt ex.objects old here, length-append ex.objects (fresh ∷ []))),
)
  where
    fresh : Executor
    fresh = create_with name ip port cores memory

    made : Executors
    made = (make_shared fresh ex).1

    given : Executor
    given = initialize_data name ip port cores memory e

    stored : Executors
    stored = store old given made

    same : add_executor name ip port cores memory ex ≡ (some (length ex.objects), true, stored)
    same =
        rw (h, get_elem?-append_left ex.objects (fresh ∷ []) old here, not_ready, add_executor) refl
