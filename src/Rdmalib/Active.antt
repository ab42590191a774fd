-- ===== src/Rdmalib/Active.antt =====
-- rdmalib/lib/rdmalib.cpp, `RDMAActive`: the connecting side. `none` stands for an exception of a call
-- that failed, a null pointer, or a read through a pointer to a variable that is gone.
pub mod Life
use r_faa_s.Common.{
  ℕ, Bool, true, false, Option, none, some, List, [], ◌∷◌, ◌++◌, ◌==◌, ◌>>=◌, if◌then◌else◌,
}
use r_faa_s.Rdmalib.Connection.{Connection, create_connection, CmId, initialize, CmCall, close}

-- What `rdma_create_ep` and `rdma_create_qp` give: an identifier in a protection domain.
pub record Endpoint : Type 0 where
  pub id : CmId
  pub pd : ℕ

-- `_cfg.conn_param.private_data`: null, or a pointer to the argument of a call that has returned.
pub data PrivatePointer : Type 0 where
  null stale : PrivatePointer

-- `RDMAActive`, with the calls of `rdma_connect`, each with the data that it passed, and of the
-- functions that end connections.
pub record Active : Type 0 where
  pub conn : Option Connection
  pub pd : Option ℕ
  pub is_connected : Bool
  pub private_data : PrivatePointer
  pub connects : List (Option ℕ × Option ℕ)
  pub disconnects : List (Option ℕ)
  pub calls : List CmCall

unfoldable pub create_active : Active
create_active = record {
  conn = none;
  pd = none;
  is_connected = false;
  private_data = null;
  connects = [];
  disconnects = [];
  calls = [];
}

-- `allocate`; `made` is `none` if one of its two calls failed.
unfoldable pub allocate : Option Endpoint → Active → Option Active
allocate made a = elim a.conn [
  | some c ↦ some a
  | none ↦ do
    e ← made
    some (record a { conn = some (initialize e.id (create_connection false)); pd = some e.pd })
]

-- `_conn.reset(); _pd = nullptr;`
unfoldable pub reset : Connection → Active → Active
reset c a = record a { conn = none; pd = none; calls = a.calls ++ (close c).1 }

-- The data that `rdma_connect` reads: the secret, or what the pointer still leads to.
unfoldable pub passed_data : ℕ → PrivatePointer → Option (Option ℕ)
passed_data secret null = some (if secret == 0 then none else some secret)
passed_data secret stale = if secret == 0 then none else some (some secret)

abbrev pub pointer_after : ℕ → PrivatePointer → PrivatePointer
pointer_after secret p = if secret == 0 then p else stale

-- The end of `connect`, after the data were passed for the connection.
unfoldable pub connect_ended : ℕ → Bool → Connection → Option ℕ → Active → Bool × Active
unfolding reset
connect_ended secret success c passed a =
    let called : Active = record a {
      private_data = pointer_after secret a.private_data;
      connects = a.connects ++ (c.id, passed) ∷ [];
    } in
    if success then (true, record called { is_connected = true }) else (false, reset c called)

-- `connect`, given what `allocate` gets and whether `rdma_connect` succeeds.
unfoldable pub connect : ℕ → Option Endpoint → Bool → Active → Option (Bool × Active)
unfolding allocate passed_data connect_ended
connect secret made success a = do
  a' ← allocate made a
  c ← a'.conn
  passed ← passed_data secret a'.private_data
  some (connect_ended secret success c passed a')

-- `disconnect`, given whether `rdma_disconnect` succeeds.
unfoldable pub disconnect : Bool → Active → Option Active
unfolding reset
disconnect success a = do
  c ← a.conn
  (if success
      then some
          (reset c (record a { is_connected = false; disconnects = a.disconnects ++ c.id ∷ [] }))
      else none)
