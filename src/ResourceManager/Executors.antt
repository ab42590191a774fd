-- ===== src/ResourceManager/Executors.antt =====
-- server/resource_manager/executor.hpp and executor.cpp, `Executors`: the registry of executors by
-- name and by connection. `std::shared_ptr` is a reference to an object of the store, and an object
-- lives as long as one of the two tables holds it.
pub mod References
pub mod Laws
pub mod Conns
use r_faa_s.Common.{
  ℕ, zero, suc, ◌+◌, Bool, true, false, not, ◌&&◌, ◌||◌, Option, none, some, List, [], ◌∷◌, Bytes,
  Map, nat_eq, bytes_eq, find, assign, emplace, erase, if◌then◌else◌, get_elem?, set, length, ◌==◌,
  ◌++◌, ◌>>=◌,
}
use r_faa_s.Common.Int.{ℤ}
use r_faa_s.ResourceManager.Executor.{
  Executor, WeakPtr, create, create_with, initialize_data, is_initialized, merge,
}

pub record Executors : Type 0 where
  pub objects : List Executor
  pub by_name : Map Bytes ℕ
  pub by_conn : Map ℕ ℕ

unfoldable pub empty : Executors
empty = record { objects = []; by_name = []; by_conn = [] }

abbrev pub holds {ℓ} : {K : Type ℓ} → Map K ℕ → ℕ → Bool
holds [] r = false
holds ((k, s) ∷ m) r = s == r || holds m r

unfoldable pub is_alive : Executors → ℕ → Bool
is_alive ex r = holds ex.by_name r || holds ex.by_conn r

-- `weak_ptr::lock`
unfoldable pub lock : Executors → WeakPtr → Option ℕ
unfolding is_alive
lock ex none = none
lock ex (some r) = if is_alive ex r then some r else none

-- What a reference points to.
unfoldable pub deref : Executors → ℕ → Option Executor
deref ex r = get_elem? ex.objects r

unfoldable pub store : ℕ → Executor → Executors → Executors
store r e ex = record ex { objects = set ex.objects r e }

-- `make_shared`: the reference is the number of objects so far.
unfoldable pub make_shared : Executor → Executors → ℕ × Executors
make_shared e ex = (length ex.objects, record ex { objects = ex.objects ++ e ∷ [] })

-- `add_executor`. Where the name is taken by an executor that has not both a name and a connection,
-- that one gets the data, but the pointer that is returned observes the new object, which dies with
-- the call.
unfoldable pub add_executor : Bytes → Bytes → ℤ → ℤ → ℤ → Executors → WeakPtr × Bool × Executors
unfolding make_shared deref store
add_executor name ip port cores memory ex =
    let (r, ex') = make_shared (create_with name ip port cores memory) ex in
    elim (find name ex.by_name) [
      | none ↦ (some r, true, record ex' { by_name = emplace name r ex.by_name })
      | some old ↦ elim (deref ex' old) [
        | none ↦ (none, false, ex')
        | some e ↦
            if is_initialized e
            then (none, false, ex')
            else (some r, true, store old (initialize_data name ip port cores memory e) ex')
      ]
    ]

-- `connect_executor`: the executor comes with its connection, whose queue pair is the key.
unfoldable pub connect_executor : ℕ → Executor → Executors → Executors
unfolding make_shared
connect_executor qp_num e ex =
    let (r, ex') = make_shared e ex in record ex' { by_conn = assign qp_num r ex.by_conn }

-- `(*exec_it).second->merge((*conn_it).second); _executors_by_conn[qp_num] = (*exec_it).second;`
-- An executor that is merged with itself is left with no buffers.
unfoldable pub merge_into : ℕ → ℕ → ℕ → Executors → Executors
unfolding deref store
merge_into qp_num r old ex = elim (deref ex old) [
  | none ↦ ex
  | some exec ↦ elim (deref ex r) [
    | none ↦ ex
    | some this ↦
        let (this', exec') = merge exec this in
        let ex' = store old exec' (store r this' ex) in
        record ex' { by_conn = assign qp_num r ex.by_conn }
  ]
]

unfoldable pub register_executor : ℕ → Bytes → Executors → Bool × Executors
unfolding merge_into
register_executor qp_num name ex = elim (find qp_num ex.by_conn) [
  | none ↦ (false, ex)
  | some old ↦ elim (find name ex.by_name) [
    | none ↦ (true, record ex { by_name = assign name old ex.by_name })
    | some r ↦ (true, merge_into qp_num r old ex)
  ]
]

-- `remove_executor(qp_num)`
unfoldable pub remove_executor : ℕ → Executors → Bool × Executors
unfolding deref
remove_executor qp_num ex = elim (find qp_num ex.by_conn) [
  | none ↦ (false, ex)
  | some r ↦ elim (deref ex r) [
    | none ↦ (true, record ex { by_conn = erase qp_num ex.by_conn })
    | some e ↦
        (true, record ex { by_name = erase e.node ex.by_name; by_conn = erase qp_num ex.by_conn })
  ]
]

-- `get_executor(qp_num)` and `get_executor(name)`
unfoldable pub get_executor : ℕ → Executors → Option ℕ
get_executor qp_num ex = find qp_num ex.by_conn

unfoldable pub get_executor_by_name : Bytes → Executors → Option ℕ
get_executor_by_name name ex = find name ex.by_name
