-- ===== src/ExecutorManager/Spawn.antt =====
-- server/executor_manager/executor_process.cpp: the command line of a new executor process.
pub mod Passed
use r_faa_s.Common.{
  ℕ, Bool, true, false, Option, none, some, List, [], ◌∷◌, ◌++◌, Bytes, ◌>>=◌, if◌then◌else◌,
}
use r_faa_s.Common.Int.{ℤ, pos}
use r_faa_s.ResourceManager.Messages.{c_string}
use r_faa_s.Worker.Options.{
  Name, address_option, port_option, fast_option, polling_mgr_option, warmup_iters_option,
  pin_threads_option, max_inline_data_option, requests_option, func_size_option, timeout_option,
  size_option, output_size_option, repetitions_option, mgr_address_option, mgr_port_option,
  mgr_secret_option, mgr_buf_addr_option, mgr_buf_rkey_option, core_start_idx_option, Value, number,
  text, Word, Item, given, unmatched, words_of, thread_word,
}

-- `ExecutorSettings`
pub record ExecutorSettings : Type 0 where
  pub use_docker : Bool
  pub repetitions : ℤ
  pub warmup_iters : ℤ
  pub recv_buffer_size : ℤ
  pub max_inline_data : ℤ
  pub pin_threads : Bool

-- `executor::ManagerConnection`
pub record ManagerAddress : Type 0 where
  pub addr : Bytes
  pub port : ℤ
  pub secret : ℤ
  pub r_addr : ℤ
  pub r_key : ℤ

-- The fields of an `AllocationRequest` that the command line is made of; the address is the content of
-- its field.
pub record ProcessRequest : Type 0 where
  pub listen_address : Bytes
  pub listen_port : ℤ
  pub input_buf_size : ℤ
  pub output_buf_size : ℤ
  pub func_buf_size : ℤ
  pub hot_timeout : ℤ
  pub core_start_index : ℤ

-- "output-size", which stands in the command line for Docker without its dashes.
abbrev pub output_size_word : Bytes
output_size_word = 111 ∷ 117 ∷ 116 ∷ 112 ∷ 117 ∷ 116 ∷ 45 ∷ 115 ∷ 105 ∷ 122 ∷ 101 ∷ []

unfoldable pub output_items : Bool → ℤ → List Item
output_items use_docker z =
    if use_docker
    then unmatched (text output_size_word) ∷ unmatched (number z) ∷ []
    else given output_size_option (number z) ∷ []

-- What follows the name of the program in `argv`.
unfoldable pub arguments :
    Bytes → ProcessRequest → ExecutorSettings → ManagerAddress → ℤ → List Item
unfolding output_items
arguments client_addr request exec conn cores =
    given address_option (text client_addr)
    ∷ given port_option (number request.listen_port)
    ∷ given polling_mgr_option (text thread_word)
    ∷ given repetitions_option (number exec.repetitions)
    ∷ given requests_option (number exec.recv_buffer_size)
    ∷ given size_option (number request.input_buf_size)
    ∷ (output_items exec.use_docker request.output_buf_size
        ++ given pin_threads_option (number (if exec.pin_threads then pos 1 else pos 0))
          ∷ given fast_option (number cores)
          ∷ given warmup_iters_option (number exec.warmup_iters)
          ∷ given max_inline_data_option (number exec.max_inline_data)
          ∷ given func_size_option (number request.func_buf_size)
          ∷ given timeout_option (number request.hot_timeout)
          ∷ given mgr_address_option (text conn.addr)
          ∷ given mgr_port_option (number conn.port)
          ∷ given mgr_secret_option (number conn.secret)
          ∷ given mgr_buf_addr_option (number conn.r_addr)
          ∷ given mgr_buf_rkey_option (number conn.r_key)
          ∷ given core_start_idx_option (number request.core_start_index)
          ∷ [])

-- `spawn`, as far as the words that the executor reads; `none` stands for an address without a zero byte.
-- Docker hands on what follows the program inside the container.
unfoldable pub spawn_words :
    ProcessRequest → ExecutorSettings → ManagerAddress → ℤ → Option (List Word)
unfolding arguments
spawn_words request exec conn cores = do
  client_addr ← c_string request.listen_address
  some (words_of (arguments client_addr request exec conn cores))
