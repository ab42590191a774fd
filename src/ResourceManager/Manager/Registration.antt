-- ===== src/ResourceManager/Manager/Registration.antt =====
-- A node that registers its name over its connection, and the names that `ExecutorDB::add` takes.
use r_faa_s.Common.{
  ℕ, zero, suc, ◌≤◌, ◌≡◌, refl, ap, true, false, inl, inr, none, some, [], ◌∷◌, Bytes, nat_eq,
  bytes_eq, find, arith, length, get_elem?, find-assign_self, get_elem?-some, ◌<◌, Bool-cases,
  Option-cases, ltb,
}
use r_faa_s.Common.Int.{ℤ}
use r_faa_s.Rdmalib.Queue.{Wc, Verbs}
use r_faa_s.ResourceManager.Messages.{
  node_registration, c_string, strncpy, IsPlain, c_string-strncpy_long,
}
use r_faa_s.ResourceManager.Executor.{Executor}
use r_faa_s.ResourceManager.Executors.{
  Executors, deref, get_executor, get_executor_by_name, register_executor, merge_into, store,
}
use r_faa_s.ResourceManager.Executors.References.{find-RefsBelow}
use r_faa_s.ResourceManager.Executors.Laws.{IsValid}
use r_faa_s.ResourceManager.Db.{Db, add, ok, malformed_data}
use r_faa_s.ResourceManager.Manager.{Manager, dispatch, handle_message, consumed, with_executors}

find-lt : (ex : Executors) {r : ℕ} → r < length ex.objects → (e : Executor) × (deref ex r ≡ some e)
unfolding deref
find-lt ex {r} h = get_elem?-some ex.objects r h

-- After a registration that succeeds, the name and the connection lead to the same executor.
pub registered_agrees :
    (qp_num : ℕ) (name : Bytes) (ex : Executors)
    → IsValid ex
    → (register_executor qp_num name ex).0 ≡ true
    → let ex' = (register_executor qp_num name ex).1 in
      (r : ℕ) × (get_executor qp_num ex' ≡ some r) × (get_executor_by_name name ex' ≡ some r)
unfolding register_executor get_executor get_executor_by_name
registered_agrees qp_num name ex valid success = elim (Option-cases (find qp_num ex.by_conn)) [
  | inl e ↦ absurd (ground (arith, e))
  | inr (old, e) ↦ elim (Option-cases (find name ex.by_name)) [
    | inl e' ↦ rw (e, e', register_executor) (old, e, find-assign_self name old ex.by_name)
    | inr (r, e') ↦
        let (exec, here) =
          find-lt ex (find-RefsBelow (length ex.objects) qp_num ex.by_conn valid.conns e) in
        let (this, there) =
          find-lt ex (find-RefsBelow (length ex.objects) name ex.by_name valid.names e') in
        rw (e, e', register_executor)
          (unfold merge_into store in
            rw (here, there, merge_into) (r, find-assign_self qp_num r ex.by_conn, e'))
  ]
]

-- A string that ends within its field is shorter than the field.
length-c_string : (field name : Bytes) → c_string field ≡ some name → length name < length field
unfolding c_string
length-c_string [] name e = absurd (cc)
length-c_string (c ∷ field) name e = elim (Option-cases (c_string field)) [
  | inl none_left ↦ ground arith
  | inr (rest, found) ↦ ground (arith, length-c_string field rest found)
]

length-strncpy : (n : ℕ) (name : Bytes) → length (strncpy n name) ≡ n
unfolding strncpy
length-strncpy zero name = refl
length-strncpy (suc n) [] = ap suc (length-strncpy n [])
length-strncpy (suc n) (c ∷ name) = ap suc (length-strncpy n name)

not_short : (name : Bytes) → ltb (length name) 32 ≡ false → 32 ≤ length name
not_short name h = ground arith

register-known :
    (qp_num : ℕ) (name : Bytes) (ex : Executors) {r : ℕ}
    → get_executor qp_num ex ≡ some r
    → (register_executor qp_num name ex).0 ≡ true
unfolding get_executor register_executor
register-known qp_num name ex h = elim (Option-cases (find name ex.by_name)) [
  | inl e ↦ rw (h, e, register_executor) refl
  | inr (r, e) ↦ rw (h, e, register_executor) refl
]

-- No node can both be added by name and register that name: a name that `add` takes is not terminated
-- in the field of a registration, and a name that is read out of such a field, `add` calls malformed.
pub names_never_meet :
    (sender name ip : Bytes) (port cores memory : ℤ) (db : Db)
    → IsPlain name
    → ((add name ip port cores memory db).0 ≡ ok → c_string (strncpy 32 name) ≡ none)
      × (c_string (strncpy 32 sender) ≡ some name
          → add name ip port cores memory db ≡ (malformed_data, db))
unfolding add
names_never_meet sender name ip port cores memory db plain =
    elim (Bool-cases (ltb (length name) 32)) [
      | inl short ↦ (rw (short, add) (λ e. absurd (cc)), λ e. rw short refl)
      | inr long ↦ (
        λ e. c_string-strncpy_long 32 name plain (ground arith),
        λ e. absurd (
            omega (
              arith,
              length-c_string (strncpy 32 sender) name e,
              length-strncpy 32 sender,
              not_short name long,
            )),
      )
    ]

module _ (v : Verbs) where
  pub consumed-db : (c : ℕ) (m : Manager v) → (consumed v c m).db ≡ m.db
  unfolding consumed
  consumed-db c m = elim (Option-cases (find c m.links)) [
    | inl e ↦ rw (e, consumed) refl
    | inr (l, e) ↦ rw (e, consumed) refl
  ]

  -- A registration that arrives from an executor that is connected, and whose name is terminated, is
  -- carried out: afterwards the name and the connection lead to the same executor.
  pub registration_handled :
      (wc : Wc) (m : Manager v) (r c : ℕ) (e : Executor) (field name : Bytes)
      → IsValid m.db.executors
      → wc.status ≡ 0
      → get_executor wc.qp_num m.db.executors ≡ some r
      → deref m.db.executors r ≡ some e
      → get_elem? e.receive_buffer wc.wr_id ≡ some (node_registration field)
      → c_string field ≡ some name
      → e.connection ≡ some c
      → (m' : Manager v) × (s : ℕ) × (handle_message v wc m ≡ some m')
        × (get_executor wc.qp_num m'.db.executors ≡ some s)
        × (get_executor_by_name name m'.db.executors ≡ some s)
  unfolding handle_message dispatch
  registration_handled wc m r c e field name valid good known here slot named conn =
      let ex = m.db.executors in
      let m' = with_executors v (register_executor wc.qp_num name ex).1 m in
      let (s, by_conn, by_name) =
        registered_agrees wc.qp_num name ex valid (register-known wc.qp_num name ex known) in
      (
        consumed v c m',
        s,
        rw (good, known, here, slot, named, conn, handle_message) refl,
        rw (consumed-db c m') by_conn,
        rw (consumed-db c m') by_name,
      )
