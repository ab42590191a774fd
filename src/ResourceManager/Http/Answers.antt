-- ===== src/ResourceManager/Http/Answers.antt =====
-- What a request over HTTP changes, and where it is undefined: server/resource_manager/http.cpp.
use r_faa_s.Common.{
  ◌≡◌, ◌≢◌, refl, sym, ap, subst, ◌∙◌, ◌⊎◌, inl, inr, true, false, Option, none, some, Bytes,
  bytes_eq, find, ltb, length, arith, ◌>>=◌, Bool-cases, Option-cases, some_inj, bind_inv,
}
use r_faa_s.Common.Int.{ℤ, to_int16}
use r_faa_s.ResourceManager.Messages.{node_name_length}
use r_faa_s.ResourceManager.Executor.{create_with, is_initialized}
use r_faa_s.ResourceManager.Executors.{Executors, deref, store, make_shared, add_executor}
use r_faa_s.ResourceManager.Db.{Db, ResultCode, ok, add}
use r_faa_s.ResourceManager.Http.{
  Json, Document, Request, Resource, add_resource, remove_resource, other_resource, Code, http_ok,
  bad_request, is_int, is_member, get_string, get_int, is_wellformed, is_removal, added_code,
  add_node, remove, remove_node, answer_of, on_request,
}

-- The nodes, their names and connections, and the leases are the same.
pub record Unchanged (db db' : Db) : Type 0 where
  pub names : db'.executors.by_name ≡ db.executors.by_name
  pub conns : db'.executors.by_conn ≡ db.executors.by_conn
  pub leases : db'.leases ≡ db.leases
  pub free_nodes : db'.free_nodes ≡ db.free_nodes

refl-Unchanged : (db : Db) → Unchanged db db
refl-Unchanged db = record { names = refl; conns = refl; leases = refl; free_nodes = refl }

record Refused (ex ex' : Executors) : Type 0 where
  names : ex'.by_name ≡ ex.by_name
  conns : ex'.by_conn ≡ ex.by_conn

add_executor-Refused :
    (name ip : Bytes) (port cores memory : ℤ) (ex : Executors)
    → (add_executor name ip port cores memory ex).1 ≡ false
    → Refused ex (add_executor name ip port cores memory ex).2
unfolding add_executor make_shared store
add_executor-Refused name ip port cores memory ex h = elim (Option-cases (find name ex.by_name)) [
  | inl e ↦ absurd (ground (arith, e))
  | inr (old, e) ↦
      let ex' = (make_shared (create_with name ip port cores memory) ex).1 in
      elim (Option-cases (deref ex' old)) [
        | inl gone ↦ rw (e, add_executor, gone) (record { names = refl; conns = refl })
        | inr (o, here) ↦ elim (Bool-cases (is_initialized o)) [
          | inl ready ↦ rw (e, add_executor, here, ready) (record { names = refl; conns = refl })
          | inr not_ready ↦
              rw (e, add_executor, here, not_ready) (record { names = refl; conns = refl })
        ]
      ]
]

add-Unchanged :
    (name ip : Bytes) (port cores memory : ℤ) (db : Db)
    → (add name ip port cores memory db).0 ≢ ok
    → Unchanged db (add name ip port cores memory db).1
unfolding add
add-Unchanged name ip port cores memory db h =
    elim (Bool-cases (ltb (length name) node_name_length)) [
      | inl short ↦ rw (short, add) (refl-Unchanged db)
      | inr long ↦
          elim (Bool-cases (add_executor name ip port (to_int16 cores) memory db.executors).1) [
            | inl e ↦ absurd (h (rw (long, e, add) refl))
            | inr e ↦
                let r = add_executor-Refused name ip port (to_int16 cores) memory db.executors e in
                rw (long, e, add)
                  (record { names = r.names; conns = r.conns; leases = refl; free_nodes = refl })
          ]
    ]

add_bad :
    (name : Bytes) (d : Document) (db : Db)
    → is_wellformed d ≡ false
    → add_node name d db ≡ some (bad_request, db)
unfolding add_node
add_bad name d db h = rw (h, add_node) refl

add_good :
    (name : Bytes) (d : Document) (db : Db)
    → is_wellformed d ≡ true
    → add_node name d db ≡ (
        get_string d.ip_address >>= λ ip. get_int d.port >>= λ port. get_int d.cores >>= λ cores.
        get_int d.memory >>= λ memory.
        some
          (added_code (add name ip port cores memory db).0, (add name ip port cores memory db).1))
unfolding add_node
add_good name d db h = rw (h, add_node) refl

added_code-ok : (r : ResultCode) → added_code r ≢ http_ok → r ≢ ok
added_code-ok r h e = h (ap added_code e)

add_node-Unchanged :
    (name : Bytes) (d : Document) (db : Db) {r : Code × Db}
    → add_node name d db ≡ some r
    → r.0 ≢ http_ok
    → Unchanged db r.1
add_node-Unchanged name d db {r} h refused = elim (Bool-cases (is_wellformed d)) [
  | inr bad ↦
      subst (λ x. Unchanged db x.1) (some_inj (sym (add_bad name d db bad) ∙ h)) (refl-Unchanged db)
  | inl good ↦
      let (ip, e, h1) = bind_inv (get_string d.ip_address) (sym (add_good name d db good) ∙ h) in
      let (port, e1, h2) = bind_inv (get_int d.port) h1 in
      let (cores, e2, h3) = bind_inv (get_int d.cores) h2 in
      let (memory, e3, h4) = bind_inv (get_int d.memory) h3 in
      let same = some_inj h4 in
      subst (λ x. Unchanged db x.1) same
        (add-Unchanged name ip port cores memory db (
          added_code-ok (add name ip port cores memory db).0
            (λ e4. refused (sym (ap (λ x. x.0) same) ∙ e4))))
]

remove_node-bad :
    (name : Bytes) (d : Document) (db : Db) {r : Code × Db}
    → remove_node name d db ≡ some r
    → r ≡ (bad_request, db)
unfolding remove_node remove
remove_node-bad name d db {r} h = elim (Bool-cases (is_removal d)) [
  | inl good ↦ absurd (ground (arith, good))
  | inr bad ↦ some_inj (sym h ∙ rw (bad, remove_node) refl)
]

no_node : (rq : Request) (db : Db) → rq.node ≡ none → on_request rq db ≡ some (bad_request, db)
unfolding on_request
no_node rq db e = rw (e, on_request) refl

node_answered :
    (rq : Request) (db : Db) (name : Bytes)
    → rq.node ≡ some name
    → on_request rq db ≡ answer_of rq.resource name rq.document db
unfolding on_request
node_answered rq db name e = rw (e, on_request) refl

answer_of-Unchanged :
    (res : Resource) (name : Bytes) (d : Document) (db : Db) (r : Code × Db)
    → answer_of res name d db ≡ some r
    → r.0 ≢ http_ok
    → Unchanged db r.1
unfolding answer_of
answer_of-Unchanged add_resource name d db r h refused = add_node-Unchanged name d db h refused
answer_of-Unchanged remove_resource name d db r h refused =
    subst (λ x. Unchanged db x.1) (sym (remove_node-bad name d db h)) (refl-Unchanged db)
answer_of-Unchanged other_resource name d db r h refused =
    subst (λ x. Unchanged db x.1) (some_inj h) (refl-Unchanged db)

-- A request that is answered otherwise than by success has changed no name, no connection, no lease and
-- no entry of the free nodes.
pub refused_changes_nothing :
    (rq : Request) (db : Db) (r : Code × Db)
    → on_request rq db ≡ some r
    → r.0 ≢ http_ok
    → Unchanged db r.1
refused_changes_nothing rq db r h refused = elim (Option-cases rq.node) [
  | inl e ↦ subst (λ x. Unchanged db x.1) (some_inj (sym (no_node rq db e) ∙ h)) (refl-Unchanged db)
  | inr (name, e) ↦
      answer_of-Unchanged rq.resource name rq.document db r (sym (node_answered rq db name e) ∙ h)
        refused
]

get_int-none : (j : Option Json) → is_int j ≡ false → get_int j ≡ none
get_int-none j h = ground (arith, h)

wellformed_of :
    (d : Document) → is_removal d ≡ true → is_member d.memory ≡ true → is_wellformed d ≡ true
unfolding is_removal is_wellformed
wellformed_of d h m = ground (arith, h, m)

add_undefined :
    (name : Bytes) (d : Document) (db : Db)
    → is_wellformed d ≡ true
    → is_int d.memory ≡ false
    → add_node name d db ≡ none
add_undefined name d db good odd = elim (Option-cases (add_node name d db)) [
  | inl e ↦ e
  | inr (r, e) ↦
      let (ip, e0, h1) = bind_inv (get_string d.ip_address) (sym (add_good name d db good) ∙ e) in
      let (port, e1, h2) = bind_inv (get_int d.port) h1 in
      let (cores, e2, h3) = bind_inv (get_int d.cores) h2 in
      let (memory, e3, h4) = bind_inv (get_int d.memory) h3 in
      let clash : none ≡ some memory = sym (get_int-none d.memory odd) ∙ e3 in absurd (cc)
]

removal_undefined :
    (name : Bytes) (d : Document) (db : Db) → is_removal d ≡ true → remove_node name d db ≡ none
unfolding remove_node remove
removal_undefined name d db h = rw (h, remove_node) refl

-- A request to add whose memory is there but is no integer passes the test if the rest is well formed,
-- and has no defined answer; neither has a request to remove that is well formed.
pub ill_typed_undefined :
    (rq : Request) (db : Db) (name : Bytes)
    → rq.node ≡ some name
    → is_removal rq.document ≡ true
    → is_member rq.document.memory ≡ true
    → is_int rq.document.memory ≡ false
    → (rq.resource ≡ add_resource) ⊎ (rq.resource ≡ remove_resource)
    → on_request rq db ≡ none
unfolding answer_of
ill_typed_undefined rq db name e good there odd which = elim which [
  | inl adds ↦
      node_answered rq db name e
      ∙ ap (λ x. answer_of x name rq.document db) adds
      ∙ add_undefined name rq.document db (wellformed_of rq.document good there) odd
  | inr removes ↦
      node_answered rq db name e
      ∙ ap (λ x. answer_of x name rq.document db) removes
      ∙ removal_undefined name rq.document db good
]
