-- ===== src/Rdmalib/Buffer.antt =====
-- rdmalib/lib/buffer.cpp, `impl::Buffer`: memory that is registered with a device, and who owns it. A
-- null pointer is 0; what `mmap` and `ibv_reg_mr` gave are arguments, and the calls that undo them are
-- recorded.
pub mod Ownership
use r_faa_s.Common.{
  ℕ, ◌+◌, ◌*◌, ◌^◌, ◌%◌, Bool, true, false, Option, none, some, List, [], ◌∷◌, ◌++◌, get_elem?, set,
  ◌>>=◌, if◌then◌else◌,
}

-- `ibv_mr`
pub record Region : Type 0 where
  pub lkey : ℕ
  pub rkey : ℕ

pub record Buffer : Type 0 where
  pub size : ℕ
  pub header : ℕ
  pub bytes : ℕ
  pub byte_size : ℕ
  pub ptr : ℕ
  pub mr : Option Region
  pub own_memory : Bool

abbrev pub empty_buffer : Buffer
empty_buffer = record {
  size = 0;
  header = 0;
  bytes = 0;
  byte_size = 0;
  ptr = 0;
  mr = none;
  own_memory = false;
}

-- The constructor that maps memory, which `mmap` gave at `ptr`.
unfoldable pub with_memory : ℕ → ℕ → ℕ → ℕ → Buffer
with_memory size byte_size header ptr = record {
  size = size;
  header = header;
  bytes = (size * byte_size + header) % 2 ^ 32;
  byte_size = byte_size;
  ptr = ptr;
  mr = none;
  own_memory = true;
}

-- The constructor for memory of someone else.
unfoldable pub wrapping : ℕ → ℕ → ℕ → Buffer
wrapping ptr size byte_size = record {
  size = size;
  header = 0;
  bytes = size * byte_size % 2 ^ 32;
  byte_size = byte_size;
  ptr = ptr;
  mr = none;
  own_memory = false;
}

-- What is left of the buffer that another is constructed from, and of one that is assigned from.
unfoldable pub moved_from : Buffer → Buffer
moved_from obj = record obj { size = 0; header = 0; bytes = 0; ptr = 0; mr = none }

unfoldable pub assigned_from : Buffer → Buffer
assigned_from obj = record obj { size = 0; bytes = 0; ptr = 0; mr = none }

-- Calls of the destructor.
pub data Call : Type 0 where
  dereg_mr : Region → Call
  munmap : ℕ → ℕ → Call

unfoldable pub destroyed : Buffer → List Call
destroyed b =
    elim b.mr [ none ↦ [] | some mr ↦ dereg_mr mr ∷ [] ]
    ++ (if b.own_memory then munmap b.ptr b.bytes ∷ [] else [])

unfoldable pub register_memory : Region → Buffer → Buffer
register_memory mr b = record b { mr = some mr }

-- `address`, `lkey` and `sge`; `none` is a failed assertion.
unfoldable pub address : Buffer → Option ℕ
address b = do mr ← b.mr; some b.ptr

unfoldable pub sge : ℕ → ℕ → Buffer → Option (ℕ × ℕ × ℕ)
unfolding address
sge size offset b = do mr ← b.mr; a ← address b; some (a + offset, size, mr.lkey)

-- A program with its buffers: an object that was destroyed is `none`. `mapped` is what `mmap` gave, an
-- address and a length each.
pub record State : Type 0 where
  pub objects : List (Option Buffer)
  pub mapped : List (ℕ × ℕ)
  pub calls : List Call

-- The operations on objects, which are named by their number.
pub data Op : Type 0 where
  new_empty : Op
  new_memory : ℕ → ℕ → ℕ → ℕ → Op
  new_wrapping : ℕ → ℕ → ℕ → Op
  new_from : ℕ → Op
  assign_from : ℕ → ℕ → Op
  register : ℕ → Region → Op
  destroy : ℕ → Op

unfoldable pub object : ℕ → State → Option Buffer
object i s = do o ← get_elem? s.objects i; o

abbrev pub add_object : Buffer → State → State
add_object b s = record s { objects = s.objects ++ some b ∷ [] }

-- An operation on objects that live; an assignment of an object to itself empties it.
unfoldable pub step : Op → State → Option State
unfolding with_memory wrapping moved_from assigned_from destroyed register_memory object
step new_empty s = some (add_object empty_buffer s)
step (new_memory size byte_size header ptr) s =
    let b = with_memory size byte_size header ptr in
    some (add_object b (record s { mapped = (b.ptr, b.bytes) ∷ s.mapped }))
step (new_wrapping ptr size byte_size) s = some (add_object (wrapping ptr size byte_size) s)
step (new_from j) s = do
  obj ← object j s
  some (add_object obj (record s { objects = set s.objects j (some (moved_from obj)) }))
step (assign_from i j) s = do
  this ← object i s
  obj ← object j s
  some (record s { objects = set (set s.objects i (some obj)) j (some (assigned_from obj)) })
step (register i mr) s = do
  b ← object i s
  some (record s { objects = set s.objects i (some (register_memory mr b)) })
step (destroy i) s = do
  b ← object i s
  some (record s { objects = set s.objects i none; calls = s.calls ++ destroyed b })
