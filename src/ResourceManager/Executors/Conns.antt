-- ===== src/ResourceManager/Executors/Conns.antt =====
-- Which connections the registry knows before and after each operation: executor.cpp, db.cpp.
use r_faa_s.Common.{
  ℕ, ◌≡◌, refl, sym, ap, ◌∙◌, subst, ◌⊎◌, inl, inr, false, none, some, [], Bytes, length, nat_eq,
  bytes_eq, find, assign, erase, arith, ◌==◌, ==_iff, Option-cases, Bool-cases, find-assign,
  find-erase,
}
use r_faa_s.Common.Int.{ℤ, pos}
use r_faa_s.ResourceManager.Executor.{Executor, create, create_with, is_initialized}
use r_faa_s.ResourceManager.Executors.{
  Executors, deref, store, make_shared, add_executor, connect_executor, merge_into,
  register_executor, remove_executor,
}
use r_faa_s.ResourceManager.Executors.Laws.{IsValid, store-IsValid, registry-IsValid}

-- The registry knows the queue pair.
abbrev pub Knows : ℕ → Executors → Type 0
Knows qp ex = (r : ℕ) × (find qp ex.by_conn ≡ some r)

-- No connection is new.
pub record Shrinks (ex ex' : Executors) : Type 0 where
  pub valid : IsValid ex → IsValid ex'
  pub old : (qp : ℕ) → Knows qp ex' → Knows qp ex

-- No connection is new, and none is lost.
pub record Keeps (ex ex' : Executors) : Type 0 where
  pub shrinks : Shrinks ex ex'
  pub kept : (qp : ℕ) → Knows qp ex → Knows qp ex'

pub same-Keeps :
    (ex ex' : Executors) → (IsValid ex → IsValid ex') → ex'.by_conn ≡ ex.by_conn → Keeps ex ex'
same-Keeps ex ex' valid e = record {
  shrinks = record { valid = valid; old = λ qp h. (h.0, ap (find qp) (sym e) ∙ h.1) };
  kept = λ qp h. (h.0, ap (find qp) e ∙ h.1);
}

pub refl-Keeps : (ex : Executors) → Keeps ex ex
refl-Keeps ex = same-Keeps ex ex (λ v. v) refl

pub store-Keeps : (r : ℕ) (e : Executor) (ex : Executors) → Keeps ex (store r e ex)
unfolding store
store-Keeps r e ex = same-Keeps ex (store r e ex) (store-IsValid r e ex) refl

-- A known connection gets another executor.
assign-Keeps :
    (qp r : ℕ) (ex ex' : Executors)
    → (IsValid ex → IsValid ex')
    → Knows qp ex
    → ex'.by_conn ≡ assign qp r ex.by_conn
    → Keeps ex ex'
assign-Keeps qp r ex ex' valid known e = record {
  shrinks = record {
    valid = valid;
    old = λ q h. elim (Bool-cases (qp == q)) [
      | inl same ↦ subst (λ x. Knows x ex) ((==_iff qp q).0 same) known
      | inr other ↦ (h.0, sym (ap (find q) e ∙ find-assign qp q r ex.by_conn ∙ rw other refl) ∙ h.1)
    ];
  };
  kept = λ q h. elim (Bool-cases (qp == q)) [
    | inl same ↦ (r, ap (find q) e ∙ find-assign qp q r ex.by_conn ∙ rw same refl)
    | inr other ↦ (h.0, ap (find q) e ∙ find-assign qp q r ex.by_conn ∙ rw other h.1)
  ];
}

add_executor-by_conn :
    (name ip : Bytes) (port cores memory : ℤ) (ex : Executors)
    → (add_executor name ip port cores memory ex).2.by_conn ≡ ex.by_conn
unfolding add_executor make_shared store
add_executor-by_conn name ip port cores memory ex = elim (Option-cases (find name ex.by_name)) [
  | inl e ↦ rw (e, add_executor) refl
  | inr (old, e) ↦
      let ex' = (make_shared (create_with name ip port cores memory) ex).1 in
      elim (Option-cases (deref ex' old)) [
        | inl gone ↦ rw (e, add_executor, gone) refl
        | inr (o, here) ↦ elim (Bool-cases (is_initialized o)) [
          | inl ready ↦ rw (e, add_executor, here, ready) refl
          | inr not_ready ↦ rw (e, add_executor, here, not_ready) refl
        ]
      ]
]

pub add_executor-Keeps :
    (name ip : Bytes) (port cores memory : ℤ) (ex : Executors)
    → Keeps ex (add_executor name ip port cores memory ex).2
add_executor-Keeps name ip port cores memory ex =
    same-Keeps ex (add_executor name ip port cores memory ex).2
      (λ v.
        (registry-IsValid 0 (create_with name ip port cores memory) name ip port cores memory ex
          v).0)
      (add_executor-by_conn name ip port cores memory ex)

merge_into-Keeps :
    (qp r old : ℕ) (ex : Executors)
    → Knows qp ex
    → (IsValid ex → IsValid (merge_into qp r old ex))
    → Keeps ex (merge_into qp r old ex)
unfolding merge_into
merge_into-Keeps qp r old ex known valid = elim (Option-cases (deref ex old)) [
  | inl gone ↦ rw (gone, merge_into) (refl-Keeps ex)
  | inr (exec, e) ↦ elim (Option-cases (deref ex r)) [
    | inl gone ↦ rw (e, gone, merge_into) (refl-Keeps ex)
    | inr (this, e') ↦
        assign-Keeps qp r ex (merge_into qp r old ex) valid known
          (unfold store in rw (e, e', merge_into) refl)
  ]
]

register-merge :
    (qp old r : ℕ) (name : Bytes) (ex : Executors)
    → find qp ex.by_conn ≡ some old
    → find name ex.by_name ≡ some r
    → (register_executor qp name ex).1 ≡ merge_into qp r old ex
unfolding register_executor
register-merge qp old r name ex e e' = rw (e, e', register_executor) refl

register-fresh :
    (qp old : ℕ) (name : Bytes) (ex : Executors)
    → find qp ex.by_conn ≡ some old
    → find name ex.by_name ≡ none
    → (register_executor qp name ex).1 ≡ record ex { by_name = assign name old ex.by_name }
unfolding register_executor
register-fresh qp old name ex e e' = rw (e, e', register_executor) refl

register-unknown :
    (qp : ℕ) (name : Bytes) (ex : Executors)
    → find qp ex.by_conn ≡ none
    → (register_executor qp name ex).1 ≡ ex
unfolding register_executor
register-unknown qp name ex e = rw (e, register_executor) refl

pub register_executor-Keeps :
    (qp : ℕ) (name : Bytes) (ex : Executors) → Keeps ex (register_executor qp name ex).1
register_executor-Keeps qp name ex =
    let valid : IsValid ex → IsValid (register_executor qp name ex).1 =
      λ v. (registry-IsValid qp create name [] (pos 0) (pos 0) (pos 0) ex v).2 in
    elim (Option-cases (find qp ex.by_conn)) [
      | inl e ↦ same-Keeps ex _ valid (ap (λ x. x.by_conn) (register-unknown qp name ex e))
      | inr (old, e) ↦ elim (Option-cases (find name ex.by_name)) [
        | inl e' ↦ same-Keeps ex _ valid (ap (λ x. x.by_conn) (register-fresh qp old name ex e e'))
        | inr (r, e') ↦
            let m = register-merge qp old r name ex e e' in
            subst (Keeps ex) (sym m)
              (merge_into-Keeps qp r old ex (old, e) (λ v. subst IsValid m (valid v)))
      ]
    ]

remove_executor-by_conn :
    (qp : ℕ) (ex : Executors)
    → ((remove_executor qp ex).1.by_conn ≡ ex.by_conn)
      ⊎ ((remove_executor qp ex).1.by_conn ≡ erase qp ex.by_conn)
unfolding remove_executor
remove_executor-by_conn qp ex = elim (Option-cases (find qp ex.by_conn)) [
  | inl e ↦ inl (rw (e, remove_executor) refl)
  | inr (r, e) ↦ elim (Option-cases (deref ex r)) [
    | inl gone ↦ inr (rw (e, gone, remove_executor) refl)
    | inr (o, here) ↦ inr (rw (e, here, remove_executor) refl)
  ]
]

erase-Knows :
    (qp q : ℕ) (ex ex' : Executors) → ex'.by_conn ≡ erase qp ex.by_conn → Knows q ex' → Knows q ex
erase-Knows qp q ex ex' e h =
    let found = ap (find q) (sym e) ∙ h.1 in
    elim (Bool-cases (qp == q)) [
      | inl same ↦ absurd (ground (arith, same, find-erase qp q ex.by_conn, found))
      | inr other ↦ (h.0, sym (find-erase qp q ex.by_conn ∙ rw other refl) ∙ found)
    ]

pub remove_executor-Shrinks : (qp : ℕ) (ex : Executors) → Shrinks ex (remove_executor qp ex).1
remove_executor-Shrinks qp ex = record {
  valid = λ v. (registry-IsValid qp create [] [] (pos 0) (pos 0) (pos 0) ex v).3;
  old = λ q h. elim (remove_executor-by_conn qp ex) [
    | inl e ↦ (h.0, ap (find q) (sym e) ∙ h.1)
    | inr e ↦ erase-Knows qp q ex (remove_executor qp ex).1 e h
  ];
}

-- Only the connection that is connected is new.
pub connect_executor-Knows :
    (qp q : ℕ) (e : Executor) (ex : Executors)
    → Knows q (connect_executor qp e ex)
    → (qp ≡ q) ⊎ Knows q ex
unfolding connect_executor make_shared
connect_executor-Knows qp q e ex h = elim (Bool-cases (qp == q)) [
  | inl same ↦ inl ((==_iff qp q).0 same)
  | inr other ↦ inr (h.0, sym (find-assign qp q _ ex.by_conn ∙ rw other refl) ∙ h.1)
]

pub connect_executor-kept :
    (qp q : ℕ) (e : Executor) (ex : Executors)
    → (qp ≡ q) ⊎ Knows q ex
    → Knows q (connect_executor qp e ex)
unfolding connect_executor make_shared
connect_executor-kept qp q e ex h = elim (Bool-cases (qp == q)) [
  | inl same ↦ (length ex.objects, find-assign qp q (length ex.objects) ex.by_conn ∙ rw same refl)
  | inr other ↦ elim h [
    | inl e' ↦ absurd (ground (arith, other, e'))
    | inr known ↦ (known.0, find-assign qp q (length ex.objects) ex.by_conn ∙ rw other known.1)
  ]
]

-- Only the connection that is removed can be lost.
pub remove_executor-kept :
    (qp q : ℕ) (ex : Executors) → (qp == q) ≡ false → Knows q ex → Knows q (remove_executor qp ex).1
remove_executor-kept qp q ex other k = elim (remove_executor-by_conn qp ex) [
  | inl e ↦ (k.0, ap (find q) e ∙ k.1)
  | inr e ↦ (k.0, ap (find q) e ∙ find-erase qp q ex.by_conn ∙ rw other k.1)
]
