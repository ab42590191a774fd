-- ===== src/ResourceManager/Http.antt =====
-- server/resource_manager/http.cpp, `HTTPHandler`: how requests to add and to remove a node are answered.
-- What the parsers of the third-party libraries found is an argument; `none` stands for an exception or
-- for an access that they leave undefined.
pub mod Answers
use r_faa_s.Common.{
  ℕ, Bool, true, false, not, ◌&&◌, ◌||◌, Option, none, some, List, [], Bytes, ◌>>=◌, if◌then◌else◌,
}
use r_faa_s.Common.Int.{ℤ}
use r_faa_s.ResourceManager.Db.{
  Db, ResultCode, ok, executor_exists, executor_doesnt_exist, malformed_data, add,
}

-- A member of the JSON document.
pub data Json : Type 0 where
  string : Bytes → Json
  int : ℤ → Json
  other : Json

-- The members of the document that are read; `none` is a missing one.
pub record Document : Type 0 where
  pub ip_address : Option Json
  pub port : Option Json
  pub cores : Option Json
  pub memory : Option Json

pub data Resource : Type 0 where
  add_resource remove_resource other_resource : Resource

pub record Request : Type 0 where
  pub node : Option Bytes
  pub resource : Resource
  pub document : Document

pub data Code : Type 0 where
  http_ok bad_request internal_server_error not_found : Code

-- `HasMember(...) && IsString()`, `HasMember(...) && IsInt()`, and `HasMember` alone.
abbrev pub is_string : Option Json → Bool
is_string (some (string s)) = true
is_string _ = false

abbrev pub is_int : Option Json → Bool
is_int (some (int i)) = true
is_int _ = false

abbrev pub is_member : Option Json → Bool
is_member none = false
is_member (some j) = true

-- `GetString()` and `GetInt()`
abbrev pub get_string : Option Json → Option Bytes
get_string (some (string s)) = some s
get_string _ = none

abbrev pub get_int : Option Json → Option ℤ
get_int (some (int i)) = some i
get_int _ = none

-- The test of a document to add: for the memory it looks at the cores.
unfoldable pub is_wellformed : Document → Bool
is_wellformed d =
    is_string d.ip_address
    && is_int d.port
    && is_int d.cores
    && (is_member d.memory && is_int d.cores)

unfoldable pub is_removal : Document → Bool
is_removal d = is_string d.ip_address && is_int d.port && is_int d.cores

abbrev pub added_code : ResultCode → Code
added_code ok = http_ok
added_code _ = internal_server_error

-- `/add`
unfoldable pub add_node : Bytes → Document → Db → Option (Code × Db)
unfolding is_wellformed
add_node node_name d db =
    let added : Option (Code × Db) = (do
      ip ← get_string d.ip_address
      port ← get_int d.port
      cores ← get_int d.cores
      memory ← get_int d.memory
      let (result, db') = add node_name ip port cores memory db in some (added_code result, db')) in
    if is_wellformed d then added else some (bad_request, db)

-- `ExecutorDB::remove`, with the removal by name, which is not implemented and throws.
unfoldable pub remove : Bytes → Db → Option (ResultCode × Db)
remove node_name db = none

-- `/remove`
unfoldable pub remove_node : Bytes → Document → Db → Option (Code × Db)
unfolding is_removal remove
remove_node node_name d db =
    let removed : Option (Code × Db) = (do
      r ← remove node_name db
      some (elim r.0 [ ok ↦ http_ok | _ ↦ bad_request ], r.1)) in
    if is_removal d then removed else some (bad_request, db)

-- `onRequest` for a request that names a node.
unfoldable pub answer_of : Resource → Bytes → Document → Db → Option (Code × Db)
unfolding add_node remove_node
answer_of add_resource name d db = add_node name d db
answer_of remove_resource name d db = remove_node name d db
answer_of other_resource name d db = some (not_found, db)

-- `onRequest`
unfoldable pub on_request : Request → Db → Option (Code × Db)
unfolding answer_of
on_request rq db = elim rq.node [
  | none ↦ some (bad_request, db)
  | some node_name ↦ answer_of rq.resource node_name rq.document db
]
