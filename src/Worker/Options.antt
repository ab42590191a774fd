-- ===== src/Worker/Options.antt =====
-- server/executor/opts.cpp: the options of an executor process. The parser is outside code: what it gives
-- for the words of a command line is a parameter.
use r_faa_s.Common.{
  ℕ, ◌≡◌, Bool, true, false, ◌&&◌, not, Option, none, some, List, [], ◌∷◌, Bytes, bytes_eq, ◌==◌,
  ◌>>=◌, if◌then◌else◌, ◌^◌,
}
use r_faa_s.Common.Int.{ℤ, pos, negsuc, ltb_ℤ}

-- The names that `add_options` declares.
pub data Name : Type 0 where
  address_option port_option cheap_option fast_option polling_mgr_option polling_type_option
        warmup_iters_option pin_threads_option max_inline_data_option requests_option
        func_size_option timeout_option size_option output_size_option repetitions_option
        verbose_option mgr_address_option mgr_port_option mgr_secret_option mgr_buf_addr_option
        mgr_buf_rkey_option core_start_idx_option :
      Name

abbrev pub index : Name → ℕ
index address_option = 0
index port_option = 1
index cheap_option = 2
index fast_option = 3
index polling_mgr_option = 4
index polling_type_option = 5
index warmup_iters_option = 6
index pin_threads_option = 7
index max_inline_data_option = 8
index requests_option = 9
index func_size_option = 10
index timeout_option = 11
index size_option = 12
index output_size_option = 13
index repetitions_option = 14
index verbose_option = 15
index mgr_address_option = 16
index mgr_port_option = 17
index mgr_secret_option = 18
index mgr_buf_addr_option = 19
index mgr_buf_rkey_option = 20
index core_start_idx_option = 21

-- A value on the command line: a number as `std::to_string` writes it, or other text.
pub data Value : Type 0 where
  number : ℤ → Value
  text : Bytes → Value

-- A word of the command line: an option behind its dashes, or anything else.
pub data Word : Type 0 where
  dashed : Name → Word
  value : Value → Word

-- An option with its value, or a word that belongs to none.
pub data Item : Type 0 where
  given : Name → Value → Item
  unmatched : Value → Item

abbrev pub words_of : List Item → List Word
words_of [] = []
words_of (given name v ∷ items) = dashed name ∷ value v ∷ words_of items
words_of (unmatched v ∷ items) = value v ∷ words_of items

-- The value that an option was last given.
abbrev pub last_given : List Item → Name → Option Value
last_given [] name = none
last_given (given name' v ∷ items) name = elim (last_given items name) [
  | some v' ↦ some v'
  | none ↦ if index name' == index name then some v else none
]
last_given (unmatched v ∷ items) name = last_given items name

-- A value that does not start with a dash.
abbrev pub is_plain : Value → Bool
is_plain (number z) = not (ltb_ℤ z (pos 0))
is_plain (text []) = true
is_plain (text (b ∷ t)) = not (b == 45)

abbrev pub are_plain : List Item → Bool
are_plain [] = true
are_plain (given name v ∷ items) = are_plain items
are_plain (unmatched v ∷ items) = is_plain v && are_plain items

-- `options.parse`; `none` stands for an exception. It leaves words aside that are neither an option nor
-- the value of one, unless they start with a dash: then it throws.
pub record OptionParser : Type 0 where
  pub parse : List Word → Option (Name → Option Value)
  pub parse-words :
      (items : List Item)
      → (are_plain items ≡ true → parse (words_of items) ≡ some (last_given items))
        × (are_plain items ≡ false → parse (words_of items) ≡ none)

pub data PollingMgr : Type 0 where
  polling_server polling_server_notify polling_thread : PollingMgr

pub data PollingType : Type 0 where
  polling_wc polling_dram : PollingType

-- `Options`
pub record Options : Type 0 where
  pub address : Bytes
  pub port : ℤ
  pub cheap_executors : ℤ
  pub fast_executors : ℤ
  pub recv_buffer_size : ℤ
  pub msg_size : ℤ
  pub out_size : ℤ
  pub repetitions : ℤ
  pub warmup_iters : ℤ
  pub pin_threads : ℤ
  pub core_start_index : ℤ
  pub max_inline_data : ℤ
  pub func_size : ℤ
  pub timeout : ℤ
  pub verbose : Bool
  pub polling_manager : PollingMgr
  pub polling_type : PollingType
  pub mgr_address : Bytes
  pub mgr_port : ℤ
  pub mgr_secret : ℤ
  pub accounting_buffer_addr : ℤ
  pub accounting_buffer_rkey : ℤ

-- The ranges of `int` and of an unsigned type of `w` bits.
abbrev pub in_int : ℤ → Bool
in_int z = not (ltb_ℤ z (negsuc 0x7fff_ffff)) && ltb_ℤ z (pos 0x8000_0000)

abbrev pub in_unsigned : ℕ → ℤ → Bool
in_unsigned w z = not (ltb_ℤ z (pos 0)) && ltb_ℤ z (pos (2 ^ w))

-- `as<int>()` and `as<uint64_t>()`, which throw on text and out of range, and `as<std::string>()`, which
-- the options use for text only.
unfoldable pub as_int : Value → Option ℤ
as_int (number z) = if in_int z then some z else none
as_int (text t) = none

unfoldable pub as_unsigned : ℕ → Value → Option ℤ
as_unsigned w (number z) = if in_unsigned w z then some z else none
as_unsigned w (text t) = none

unfoldable pub as_string : Value → Option Bytes
as_string (number z) = none
as_string (text t) = some t

-- An option that was not given has its default.
abbrev pub or_default : Value → Option Value → Value
or_default default_value none = default_value
or_default default_value (some v) = v

abbrev pub server_word : Bytes
server_word = 115 ∷ 101 ∷ 114 ∷ 118 ∷ 101 ∷ 114 ∷ []

abbrev pub server_notify_word : Bytes
server_notify_word = 115 ∷ 101 ∷ 114 ∷ 118 ∷ 101 ∷ 114 ∷ 45 ∷ 110 ∷ 111 ∷ 116 ∷ 105 ∷ 102 ∷ 121 ∷ []

abbrev pub thread_word : Bytes
thread_word = 116 ∷ 104 ∷ 114 ∷ 101 ∷ 97 ∷ 100 ∷ []

abbrev pub wc_word : Bytes
wc_word = 119 ∷ 99 ∷ []

abbrev pub dram_word : Bytes
dram_word = 100 ∷ 114 ∷ 97 ∷ 109 ∷ []

unfoldable pub polling_mgr_of : Bytes → Option PollingMgr
polling_mgr_of word =
    if bytes_eq.beq word server_word
    then some polling_server
    else if bytes_eq.beq word server_notify_word
    then some polling_server_notify
    else if bytes_eq.beq word thread_word
    then some polling_thread
    else none

unfoldable pub polling_type_of : Bytes → Option PollingType
polling_type_of word =
    if bytes_eq.beq word wc_word
    then some polling_wc
    else if bytes_eq.beq word dram_word
    then some polling_dram
    else none

-- `opts`, from what the parser found; `none` stands for an exception. `verbose` is never given a value
-- other than that it is there.
unfoldable pub options_from : (Name → Option Value) → Option Options
unfolding as_int as_unsigned as_string polling_mgr_of polling_type_of
options_from found = do
  address ← found address_option >>= as_string
  port ← as_int (or_default (number (pos 0)) (found port_option))
  cheap_executors ← as_int (or_default (number (pos 0)) (found cheap_option))
  fast_executors ← as_int (or_default (number (pos 1)) (found fast_option))
  recv_buffer_size ← as_int (or_default (number (pos 32)) (found requests_option))
  msg_size ← as_int (or_default (number (pos 1)) (found size_option))
  out_size ← as_int (or_default (number (pos 1)) (found output_size_option))
  repetitions ← as_int (or_default (number (pos 1)) (found repetitions_option))
  warmup_iters ← as_int (or_default (number (pos 1)) (found warmup_iters_option))
  pin_threads ← as_int (or_default (number (negsuc 0)) (found pin_threads_option))
  core_start_index ← as_int (or_default (number (pos 0)) (found core_start_idx_option))
  max_inline_data ← as_int (or_default (number (pos 0)) (found max_inline_data_option))
  func_size ← found func_size_option >>= as_int
  timeout ← found timeout_option >>= as_int
  mgr_address ← found mgr_address_option >>= as_string
  mgr_port ← found mgr_port_option >>= as_int
  mgr_secret ← found mgr_secret_option >>= as_int
  accounting_buffer_addr ← found mgr_buf_addr_option >>= as_unsigned 64
  accounting_buffer_rkey ← found mgr_buf_rkey_option >>= as_unsigned 32
  polling_mgr ← as_string (or_default (text server_word) (found polling_mgr_option))
  polling_manager ← polling_mgr_of polling_mgr
  polling ← as_string (or_default (text wc_word) (found polling_type_option))
  polling_type ← polling_type_of polling
  some (record {
    address = address;
    port = port;
    cheap_executors = cheap_executors;
    fast_executors = fast_executors;
    recv_buffer_size = recv_buffer_size;
    msg_size = msg_size;
    out_size = out_size;
    repetitions = repetitions;
    warmup_iters = warmup_iters;
    pin_threads = pin_threads;
    core_start_index = core_start_index;
    max_inline_data = max_inline_data;
    func_size = func_size;
    timeout = timeout;
    verbose = elim (found verbose_option) [ none ↦ false | some v ↦ true ];
    polling_manager = polling_manager;
    polling_type = polling_type;
    mgr_address = mgr_address;
    mgr_port = mgr_port;
    mgr_secret = mgr_secret;
    accounting_buffer_addr = accounting_buffer_addr;
    accounting_buffer_rkey = accounting_buffer_rkey;
  })

unfoldable pub opts : OptionParser → List Word → Option Options
unfolding options_from
opts p argv = p.parse argv >>= options_from
