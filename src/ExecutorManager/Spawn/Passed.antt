-- ===== src/ExecutorManager/Spawn/Passed.antt =====
-- What arrives of a command line: server/executor_manager/executor_process.cpp against
-- server/executor/opts.cpp.
use r_faa_s.Common.{
  ℕ, ◌≡◌, refl, ap, ◌∙◌, Bool, true, false, not, ◌&&◌, Bool-cases, inl, inr, ◌⊎◌, Option, none,
  some, List, Bytes, ◌>>=◌, if◌then◌else◌,
}
use r_faa_s.Common.Int.{ℤ, pos, ltb_ℤ}
use r_faa_s.ResourceManager.Messages.{c_string}
use r_faa_s.Worker.Options.{
  Name, address_option, port_option, cheap_option, fast_option, polling_mgr_option,
  polling_type_option, warmup_iters_option, pin_threads_option, max_inline_data_option,
  requests_option, func_size_option, timeout_option, size_option, output_size_option,
  repetitions_option, verbose_option, mgr_address_option, mgr_port_option, mgr_secret_option,
  mgr_buf_addr_option, mgr_buf_rkey_option, core_start_idx_option, Value, number, text, or_default,
  thread_word, Word, words_of, last_given, are_plain, OptionParser, Options, polling_thread,
  polling_wc, in_int, in_unsigned, as_int, as_unsigned, as_string, polling_mgr_of, polling_type_of,
  options_from, opts,
}
use r_faa_s.ExecutorManager.Spawn.{
  ExecutorSettings, ManagerAddress, ProcessRequest, output_items, arguments, spawn_words,
}

-- The numbers lie in the ranges that the executor reads them in.
pub record Fits (request : ProcessRequest) (exec : ExecutorSettings) (conn : ManagerAddress)
    (cores : ℤ) : Type 0 where
  pub listen_port : in_int request.listen_port ≡ true
  pub input_buf_size : in_int request.input_buf_size ≡ true
  pub output_buf_size : in_int request.output_buf_size ≡ true
  pub func_buf_size : in_int request.func_buf_size ≡ true
  pub hot_timeout : in_int request.hot_timeout ≡ true
  pub core_start_index : in_int request.core_start_index ≡ true
  pub repetitions : in_int exec.repetitions ≡ true
  pub warmup_iters : in_int exec.warmup_iters ≡ true
  pub recv_buffer_size : in_int exec.recv_buffer_size ≡ true
  pub max_inline_data : in_int exec.max_inline_data ≡ true
  pub lease_cores : in_int cores ≡ true
  pub mgr_port : in_int conn.port ≡ true
  pub mgr_secret : in_int conn.secret ≡ true
  pub r_addr : in_unsigned 64 conn.r_addr ≡ true
  pub r_key : in_unsigned 32 conn.r_key ≡ true

-- What the executor should run with, given the size of its output.
abbrev pub intended : Bytes → ℤ → ProcessRequest → ExecutorSettings → ManagerAddress → ℤ → Options
intended client_addr out_size request exec conn cores = record {
  address = client_addr;
  port = request.listen_port;
  cheap_executors = pos 0;
  fast_executors = cores;
  recv_buffer_size = exec.recv_buffer_size;
  msg_size = request.input_buf_size;
  out_size = out_size;
  repetitions = exec.repetitions;
  warmup_iters = exec.warmup_iters;
  pin_threads = if exec.pin_threads then pos 1 else pos 0;
  core_start_index = request.core_start_index;
  max_inline_data = exec.max_inline_data;
  func_size = request.func_buf_size;
  timeout = request.hot_timeout;
  verbose = false;
  polling_manager = polling_thread;
  polling_type = polling_wc;
  mgr_address = conn.addr;
  mgr_port = conn.port;
  mgr_secret = conn.secret;
  accounting_buffer_addr = conn.r_addr;
  accounting_buffer_rkey = conn.r_key;
}

number-in : (z : ℤ) → in_int z ≡ true → as_int (number z) ≡ some z
unfolding as_int
number-in z h = rw h refl

unsigned-in : (w : ℕ) (z : ℤ) → in_unsigned w z ≡ true → as_unsigned w (number z) ≡ some z
unfolding as_unsigned
unsigned-in w z h = rw h refl

-- What the parser finds, where the size of the output is as given or missing.
record Finds (found : Name → Option Value) (client_addr : Bytes) (out_size : ℤ)
    (request : ProcessRequest) (exec : ExecutorSettings) (conn : ManagerAddress) (cores : ℤ)
    : Type 0 where
  address : found address_option ≡ some (text client_addr)
  cheap : found cheap_option ≡ none
  verbose : found verbose_option ≡ none
  polling_mgr : found polling_mgr_option ≡ some (text thread_word)
  polling_type : found polling_type_option ≡ none
  mgr_address : found mgr_address_option ≡ some (text conn.addr)
  output_size : as_int (or_default (number (pos 1)) (found output_size_option)) ≡ some out_size
  pin_threads : found pin_threads_option ≡ some (number (if exec.pin_threads then pos 1 else pos 0))
  port : found port_option ≡ some (number request.listen_port)
  fast : found fast_option ≡ some (number cores)
  requests : found requests_option ≡ some (number exec.recv_buffer_size)
  size : found size_option ≡ some (number request.input_buf_size)
  repetitions : found repetitions_option ≡ some (number exec.repetitions)
  warmup_iters : found warmup_iters_option ≡ some (number exec.warmup_iters)
  core_start_idx : found core_start_idx_option ≡ some (number request.core_start_index)
  max_inline_data : found max_inline_data_option ≡ some (number exec.max_inline_data)
  func_size : found func_size_option ≡ some (number request.func_buf_size)
  timeout : found timeout_option ≡ some (number request.hot_timeout)
  mgr_port : found mgr_port_option ≡ some (number conn.port)
  mgr_secret : found mgr_secret_option ≡ some (number conn.secret)
  mgr_buf_addr : found mgr_buf_addr_option ≡ some (number conn.r_addr)
  mgr_buf_rkey : found mgr_buf_rkey_option ≡ some (number conn.r_key)

pin-in : (pin : Bool) → in_int (if pin then pos 1 else pos 0) ≡ true
pin-in true = refl
pin-in false = refl

passed :
    (found : Name → Option Value) (client_addr : Bytes) (out_size : ℤ) (request : ProcessRequest)
    (exec : ExecutorSettings) (conn : ManagerAddress) (cores : ℤ)
    → Finds found client_addr out_size request exec conn cores
    → Fits request exec conn cores
    → options_from found ≡ some (intended client_addr out_size request exec conn cores)
unfolding options_from as_string polling_mgr_of polling_type_of
passed found client_addr out_size request exec conn cores p f =
    let pin = if exec.pin_threads then pos 1 else pos 0 in
    rw
      (
        p.address,
        p.cheap,
        p.verbose,
        p.polling_mgr,
        p.polling_type,
        p.mgr_address,
        p.output_size,
        p.pin_threads,
        number-in pin (pin-in exec.pin_threads),
        p.port,
        number-in request.listen_port f.listen_port,
        p.fast,
        number-in cores f.lease_cores,
        p.requests,
        number-in exec.recv_buffer_size f.recv_buffer_size,
        p.size,
        number-in request.input_buf_size f.input_buf_size,
        p.repetitions,
        number-in exec.repetitions f.repetitions,
        p.warmup_iters,
        number-in exec.warmup_iters f.warmup_iters,
        p.core_start_idx,
        number-in request.core_start_index f.core_start_index,
        p.max_inline_data,
        number-in exec.max_inline_data f.max_inline_data,
        p.func_size,
        number-in request.func_buf_size f.func_buf_size,
        p.timeout,
        number-in request.hot_timeout f.hot_timeout,
        p.mgr_port,
        number-in conn.port f.mgr_port,
        p.mgr_secret,
        number-in conn.secret f.mgr_secret,
        p.mgr_buf_addr,
        unsigned-in 64 conn.r_addr f.r_addr,
        p.mgr_buf_rkey,
        unsigned-in 32 conn.r_key f.r_key,
      )
      refl

arguments_found :
    (client_addr : Bytes) (request : ProcessRequest) (exec : ExecutorSettings)
    (conn : ManagerAddress) (cores : ℤ) (docker : Bool)
    → in_int request.output_buf_size ≡ true
    → let exec' : ExecutorSettings = record exec { use_docker = docker } in
      Finds
        (last_given (arguments client_addr request exec' conn cores))
        client_addr
        (if docker then pos 1 else request.output_buf_size)
        request
        exec'
        conn
        cores
unfolding arguments output_items
arguments_found client_addr request exec conn cores true f = record {
  output_size = number-in (pos 1) refl;
  address = refl;
  cheap = refl;
  verbose = refl;
  polling_mgr = refl;
  polling_type = refl;
  mgr_address = refl;
  pin_threads = refl;
  port = refl;
  fast = refl;
  requests = refl;
  size = refl;
  repetitions = refl;
  warmup_iters = refl;
  core_start_idx = refl;
  max_inline_data = refl;
  func_size = refl;
  timeout = refl;
  mgr_port = refl;
  mgr_secret = refl;
  mgr_buf_addr = refl;
  mgr_buf_rkey = refl;
}
arguments_found client_addr request exec conn cores false f = record {
  output_size = number-in request.output_buf_size f;
  address = refl;
  cheap = refl;
  verbose = refl;
  polling_mgr = refl;
  polling_type = refl;
  mgr_address = refl;
  pin_threads = refl;
  port = refl;
  fast = refl;
  requests = refl;
  size = refl;
  repetitions = refl;
  warmup_iters = refl;
  core_start_idx = refl;
  max_inline_data = refl;
  func_size = refl;
  timeout = refl;
  mgr_port = refl;
  mgr_secret = refl;
  mgr_buf_addr = refl;
  mgr_buf_rkey = refl;
}

-- In a container, the size of the output belongs to no option.
arguments-plain :
    (client_addr : Bytes) (request : ProcessRequest) (exec : ExecutorSettings)
    (conn : ManagerAddress) (cores : ℤ) (docker : Bool)
    → are_plain (arguments client_addr request (record exec { use_docker = docker }) conn cores)
      ≡ not (docker && ltb_ℤ request.output_buf_size (pos 0))
unfolding arguments output_items
arguments-plain client_addr request exec conn cores false = refl
arguments-plain client_addr request exec conn cores true =
    elim (Bool-cases (ltb_ℤ request.output_buf_size (pos 0))) [
      | inl e ↦ rw e refl
      | inr e ↦ rw e refl
    ]

pub spawned_options :
    (p : OptionParser) (client_addr : Bytes) (request : ProcessRequest) (exec : ExecutorSettings)
    (conn : ManagerAddress) (cores : ℤ)
    → c_string request.listen_address ≡ some client_addr
    → Fits request exec conn cores
    → (words : List Word) × (spawn_words request exec conn cores ≡ some words)
      × ((((exec.use_docker && ltb_ℤ request.output_buf_size (pos 0)) ≡ true)
            × (opts p words ≡ none))
          ⊎ (((exec.use_docker && ltb_ℤ request.output_buf_size (pos 0)) ≡ false)
              × (opts p words
                  ≡ some (
                      intended client_addr
                        (if exec.use_docker then pos 1 else request.output_buf_size)
                        request
                        exec
                        conn
                        cores))))
unfolding spawn_words opts
spawned_options p client_addr request exec conn cores addr f =
    let items = arguments client_addr request exec conn cores in
    let plain = arguments-plain client_addr request exec conn cores exec.use_docker in
    (
      words_of items,
      ap (λ o. o >>= λ a. some (words_of (arguments a request exec conn cores))) addr,
      elim (Bool-cases (exec.use_docker && ltb_ℤ request.output_buf_size (pos 0))) [
        | inl throws ↦
            inl (
              throws,
              ap (λ o. o >>= options_from) ((p.parse-words items).1 (plain ∙ ap not throws)),
            )
        | inr reads ↦ inr (
          reads,
          ap (λ o. o >>= options_from) ((p.parse-words items).0 (plain ∙ ap not reads))
              ∙ passed (last_given items) client_addr
                  (if exec.use_docker then pos 1 else request.output_buf_size) request exec conn
                  cores
                  (arguments_found client_addr request exec conn cores exec.use_docker
                    f.output_buf_size)
                  f,
        )
      ],
    )
