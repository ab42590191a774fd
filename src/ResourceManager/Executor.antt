-- ===== src/ResourceManager/Executor.antt =====
-- server/resource_manager/executor.hpp and executor.cpp, `Executor`: one executor node and what of
-- it is free. An `int` is an integer, and no sum is cut to 32 bits.
use r_faa_s.Common.{
  ℕ, Bool, true, false, not, ◌&&◌, ◌||◌, Option, none, some, List, [], Bytes, if◌then◌else◌,
  bytes_eq, replicate,
}
use r_faa_s.Common.Int.{ℤ, pos, negsuc, ◌+ℤ◌, ◌-ℤ◌, ltb_ℤ, eqb_ℤ}
use r_faa_s.ResourceManager.Messages.{Message, unknown}

-- `std::weak_ptr<Executor>`: the object that it observes, if it is not the empty pointer. An object
-- is named by the order of its creation.
abbrev pub WeakPtr : Type 0
WeakPtr = Option ℕ

-- `Lease` of the resource manager.
pub record Lease : Type 0 where
  pub cores : ℤ
  pub memory : ℤ
  pub total : Bool
  pub node : WeakPtr

-- A connection is named by its queue pair. The receive buffer is the list of its message slots.
pub record Executor : Type 0 where
  pub node : Bytes
  pub address : Bytes
  pub port : ℤ
  pub cores : ℤ
  pub memory : ℤ
  pub connection : Option ℕ
  pub free_cores : ℤ
  pub free_memory : ℤ
  pub receive_buffer : List Message

abbrev pub recv_buf_size : ℕ
recv_buf_size = 32

-- `Executor()`; `server_data()` sets its numbers to -1.
unfoldable pub create : Executor
create = record {
  node = [];
  address = [];
  port = negsuc 0;
  cores = negsuc 0;
  memory = negsuc 0;
  connection = none;
  free_cores = pos 0;
  free_memory = pos 0;
  receive_buffer = replicate recv_buf_size (unknown 0);
}

unfoldable pub initialize_data : Bytes → Bytes → ℤ → ℤ → ℤ → Executor → Executor
initialize_data node_name ip port cores memory e = record e {
  node = node_name;
  address = ip;
  port = port;
  cores = cores;
  memory = memory;
  free_cores = cores;
  free_memory = memory;
}

-- `Executor(node_name, ip, port, cores, memory)`
unfoldable pub create_with : Bytes → Bytes → ℤ → ℤ → ℤ → Executor
unfolding create initialize_data
create_with node_name ip port cores memory = initialize_data node_name ip port cores memory create

unfoldable pub initialize_connection : ℕ → Executor → Executor
initialize_connection conn e = record e { connection = some conn }

abbrev pub is_some {ℓ} : {A : Type ℓ} → Option A → Bool
is_some none = false
is_some (some a) = true

unfoldable pub is_initialized : Executor → Bool
is_initialized e = not (bytes_eq.beq e.node []) && is_some e.connection

-- `none` for the `false` of the source, which then has changed nothing.
unfoldable pub lease : ℤ → ℤ → Executor → Option Executor
lease cores memory e =
    if ltb_ℤ e.free_memory memory
    then none
    else if ltb_ℤ e.free_cores cores
    then none
    else some
        (record e { free_cores = e.free_cores -ℤ cores; free_memory = e.free_memory -ℤ memory })

unfoldable pub is_fully_leased : Executor → Bool
is_fully_leased e = eqb_ℤ e.free_cores (pos 0) || eqb_ℤ e.free_memory (pos 0)

unfoldable pub cancel_lease : Lease → Executor → Executor
cancel_lease l e = record e {
  free_cores = e.free_cores +ℤ l.cores;
  free_memory = e.free_memory +ℤ l.memory;
}

-- `this->merge(exec)`: the connection and the buffers of `exec` move over.
unfoldable pub merge : Executor → Executor → Executor × Executor
merge exec this = (
  record this { connection = exec.connection; receive_buffer = exec.receive_buffer },
  record exec { receive_buffer = [] },
)
