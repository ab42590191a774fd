-- ===== src/Rdmalib/Buffer/Ownership.antt =====
-- Who owns the memory that buffers map: rdmalib/lib/buffer.cpp.
use r_faa_s.Common.{
  total, total-append, total-set, get_elem?-set_at, ℕ, ◌+◌, ◌≤◌, ◌≡◌, ◌≢◌, refl, ap, subst, ◌∙◌,
  inl, inr, Bool, true, ◌&&◌, Option, none, some, List, [], ◌∷◌, ◌++◌, get_elem?, set, arith, ◌==◌,
  ==_iff, Bool-cases, some_inj, bind_inv, if◌then◌else◌,
}
use r_faa_s.Rdmalib.Buffer.{
  Region, Buffer, empty_buffer, with_memory, wrapping, moved_from, assigned_from, Call, dereg_mr,
  munmap, destroyed, register_memory, State, Op, new_empty, new_memory, new_wrapping, new_from,
  assign_from, register, destroy, object, add_object, step,
}

-- How often memory of an address and a length was mapped and unmapped, and how many objects own it.
abbrev pub counts : Bool → ℕ
counts b = if b then 1 else 0

abbrev pub mappings : ℕ → ℕ → List (ℕ × ℕ) → ℕ
mappings a l [] = 0
mappings a l ((ptr, bytes) ∷ ms) = counts (ptr == a && bytes == l) + mappings a l ms

abbrev pub unmappings : ℕ → ℕ → List Call → ℕ
unmappings a l [] = 0
unmappings a l (dereg_mr mr ∷ cs) = unmappings a l cs
unmappings a l (munmap ptr bytes ∷ cs) = counts (ptr == a && bytes == l) + unmappings a l cs

abbrev pub owns : ℕ → ℕ → Option Buffer → ℕ
owns a l none = 0
owns a l (some b) = counts (b.own_memory && (b.ptr == a && b.bytes == l))

abbrev pub owners : ℕ → ℕ → List (Option Buffer) → ℕ
owners a l = total (owns a l)

-- How often a step drops memory by an assignment over its owner.
abbrev pub dropped : ℕ → ℕ → Op → State → ℕ
dropped a l (assign_from i j) s = owns a l (object i s)
dropped a l _ s = 0

-- `mmap` gives an address that is not null, and where nothing is mapped.
abbrev pub Fits : Op → State → Type 0
Fits (new_memory size byte_size header ptr) s =
    (ptr ≢ 0)
    × (let l = (with_memory size byte_size header ptr).bytes in
        mappings ptr l s.mapped ≡ unmappings ptr l s.calls)
Fits _ s = Unit

-- A program that has dropped memory of an address and a length so often.
pub data Run (a l : ℕ) : ℕ → State → Type 0 where
  begin : Run a l 0 (record { objects = []; mapped = []; calls = [] })
  after :
      (op : Op) (k : ℕ) (s s' : State)
      → Run a l k s
      → Fits op s
      → step op s ≡ some s'
      → Run a l (dropped a l op s + k) s'

unmappings-append :
    (a l : ℕ) (xs ys : List Call)
    → unmappings a l (xs ++ ys) ≡ unmappings a l xs + unmappings a l ys
unmappings-append a l [] ys = omega arith
unmappings-append a l (dereg_mr mr ∷ xs) ys = unmappings-append a l xs ys
unmappings-append a l (munmap p n ∷ xs) ys = ground (arith, unmappings-append a l xs ys)

object-inv :
    (i : ℕ) (s : State) (b : Buffer) → object i s ≡ some b → get_elem? s.objects i ≡ some (some b)
unfolding object
object-inv i s b h = let (o, e, e') = bind_inv (get_elem? s.objects i) h in e ∙ ap some e'

moved-owns : (a l : ℕ) (b : Buffer) → a ≢ 0 → owns a l (some (moved_from b)) ≡ 0
unfolding moved_from
moved-owns a l b h = ground (arith, h)

assigned-owns : (a l : ℕ) (b : Buffer) → a ≢ 0 → owns a l (some (assigned_from b)) ≡ 0
unfolding assigned_from
assigned-owns a l b h = ground (arith, h)

destroyed-unmappings : (a l : ℕ) (b : Buffer) → unmappings a l (destroyed b) ≡ owns a l (some b)
unfolding destroyed
destroyed-unmappings a l b = ground (arith)

-- What was mapped is unmapped, owned or dropped, and it is mapped at most once.
pub record Accounted (a l k : ℕ) (s : State) : Type 0 where
  pub balance : mappings a l s.mapped ≡ unmappings a l s.calls + owners a l s.objects + k
  pub single : owners a l s.objects + k ≤ 1

add_object-owners :
    (a l : ℕ) (b : Buffer) (s : State)
    → owners a l (add_object b s).objects ≡ owners a l s.objects + owns a l (some b)
add_object-owners a l b s = total-append (owns a l) s.objects (some b ∷ []) ∙ omega arith

-- An object that does not own memory is added.
plain-Accounted :
    (a l k : ℕ) (b : Buffer) (s : State)
    → owns a l (some b) ≡ 0
    → Accounted a l k s
    → Accounted a l (0 + k) (add_object b s)
plain-Accounted a l k b s none_owned acc =
    let added = add_object-owners a l b s in
    record {
      balance = omega (arith, acc.balance, added, none_owned);
      single = omega (arith, acc.single, added, none_owned);
    }

-- Memory that is mapped now was not owned or dropped before.
new_room :
    (a l k : ℕ) (b : Buffer) (s : State)
    → mappings b.ptr b.bytes s.mapped ≡ unmappings b.ptr b.bytes s.calls
    → Accounted a l k s
    → counts (b.ptr == a && b.bytes == l) + (owners a l s.objects + k) ≤ 1
new_room a l k b s free acc = elim (Bool-cases (b.ptr == a)) [
  | inr other ↦ rw other (omega (arith, acc.single))
  | inl same_ptr ↦ elim (Bool-cases (b.bytes == l)) [
    | inr other ↦ rw (same_ptr, other) (omega (arith, acc.single))
    | inl same_bytes ↦
        let here : mappings a l s.mapped ≡ unmappings a l s.calls =
          subst (λ x. mappings a x s.mapped ≡ unmappings a x s.calls)
            ((==_iff b.bytes l).0 same_bytes)
            (subst (λ x. mappings x b.bytes s.mapped ≡ unmappings x b.bytes s.calls)
              ((==_iff b.ptr a).0 same_ptr) free) in
        rw (same_ptr, same_bytes) (omega (arith, acc.balance, here))
  ]
]

-- An object that owns newly mapped memory is added.
mapped-Accounted :
    (a l k : ℕ) (b : Buffer) (s : State)
    → b.own_memory ≡ true
    → mappings b.ptr b.bytes s.mapped ≡ unmappings b.ptr b.bytes s.calls
    → Accounted a l k s
    → Accounted a l (0 + k) (add_object b (record s { mapped = (b.ptr, b.bytes) ∷ s.mapped }))
mapped-Accounted a l k b s own free acc =
    let added = add_object-owners a l b (record s { mapped = (b.ptr, b.bytes) ∷ s.mapped }) in
    let mine : owns a l (some b) ≡ counts (b.ptr == a && b.bytes == l) = rw own refl in
    let room = new_room a l k b s free acc in
    record {
      balance = omega (arith, acc.balance, added, mine);
      single = omega (arith, acc.single, added, mine, room);
    }

memory-Accounted :
    (a l k size byte_size header ptr : ℕ) (s s' : State)
    → Fits (new_memory size byte_size header ptr) s
    → step (new_memory size byte_size header ptr) s ≡ some s'
    → Accounted a l k s
    → Accounted a l (0 + k) s'
unfolding step with_memory
memory-Accounted a l k size byte_size header ptr s s' fits h acc =
    subst (Accounted a l (0 + k)) (some_inj h)
      (mapped-Accounted a l k (with_memory size byte_size header ptr) s refl fits.1 acc)

from-Accounted :
    (a l k j : ℕ) (s s' : State)
    → a ≢ 0
    → step (new_from j) s ≡ some s'
    → Accounted a l k s
    → Accounted a l (0 + k) s'
unfolding step
from-Accounted a l k j s s' nonzero h acc =
    let (obj, e, h1) = bind_inv (object j s) h in
    let changed =
      total-set (owns a l) s.objects j (some obj) (some (moved_from obj)) (object-inv j s obj e) in
    let added =
      add_object-owners a l obj (record s { objects = set s.objects j (some (moved_from obj)) }) in
    let empty = moved-owns a l obj nonzero in
    subst (Accounted a l (0 + k)) (some_inj h1) (record {
      balance = omega (arith, acc.balance, changed, added, empty);
      single = omega (arith, acc.single, changed, added, empty);
    })

assign-Accounted :
    (a l k i j : ℕ) (s s' : State)
    → a ≢ 0
    → step (assign_from i j) s ≡ some s'
    → Accounted a l k s
    → Accounted a l (owns a l (object i s) + k) s'
unfolding step
assign-Accounted a l k i j s s' nonzero h acc =
    let (this, e, h1) = bind_inv (object i s) h in
    let (obj, e', h2) = bind_inv (object j s) h1 in
    let there = object-inv i s this e in
    let there' = object-inv j s obj e' in
    let first = total-set (owns a l) s.objects i (some this) (some obj) there in
    let second =
      total-set (owns a l) (set s.objects i (some obj)) j (some obj) (some (assigned_from obj))
        (get_elem?-set_at s.objects i j (some this) (some obj) there there') in
    let empty = assigned-owns a l obj nonzero in
    let lost = ap (owns a l) e in
    subst (Accounted a l (owns a l (object i s) + k)) (some_inj h2) (record {
      balance = omega (arith, acc.balance, first, second, empty, lost);
      single = omega (arith, acc.single, first, second, empty, lost);
    })

register-Accounted :
    (a l k i : ℕ) (mr : Region) (s s' : State)
    → step (register i mr) s ≡ some s'
    → Accounted a l k s
    → Accounted a l (0 + k) s'
unfolding step register_memory
register-Accounted a l k i mr s s' h acc =
    let (b, e, h1) = bind_inv (object i s) h in
    let changed =
      total-set (owns a l) s.objects i (some b) (some (register_memory mr b))
        (object-inv i s b e) in
    subst (Accounted a l (0 + k)) (some_inj h1) (record {
      balance = omega (arith, acc.balance, changed);
      single = omega (arith, acc.single, changed);
    })

destroy-Accounted :
    (a l k i : ℕ) (s s' : State)
    → step (destroy i) s ≡ some s'
    → Accounted a l k s
    → Accounted a l (0 + k) s'
unfolding step
destroy-Accounted a l k i s s' h acc =
    let (b, e, h1) = bind_inv (object i s) h in
    let changed = total-set (owns a l) s.objects i (some b) none (object-inv i s b e) in
    let unmapped = unmappings-append a l s.calls (destroyed b) in
    let own = destroyed-unmappings a l b in
    subst (Accounted a l (0 + k)) (some_inj h1) (record {
      balance = omega (arith, acc.balance, changed, unmapped, own);
      single = omega (arith, acc.single, changed, unmapped, own);
    })

step-Accounted :
    (a l k : ℕ) (op : Op) (s s' : State)
    → a ≢ 0
    → Fits op s
    → step op s ≡ some s'
    → Accounted a l k s
    → Accounted a l (dropped a l op s + k) s'
unfolding step wrapping
step-Accounted a l k new_empty s s' nonzero fits h acc =
    subst (Accounted a l (0 + k)) (some_inj h) (plain-Accounted a l k empty_buffer s refl acc)
step-Accounted a l k (new_memory size byte_size header ptr) s s' nonzero fits h acc =
    memory-Accounted a l k size byte_size header ptr s s' fits h acc
step-Accounted a l k (new_wrapping ptr size byte_size) s s' nonzero fits h acc =
    subst (Accounted a l (0 + k)) (some_inj h)
      (plain-Accounted a l k (wrapping ptr size byte_size) s refl acc)
step-Accounted a l k (new_from j) s s' nonzero fits h acc =
    from-Accounted a l k j s s' nonzero h acc
step-Accounted a l k (assign_from i j) s s' nonzero fits h acc =
    assign-Accounted a l k i j s s' nonzero h acc
step-Accounted a l k (register i mr) s s' nonzero fits h acc =
    register-Accounted a l k i mr s s' h acc
step-Accounted a l k (destroy i) s s' nonzero fits h acc = destroy-Accounted a l k i s s' h acc

Run-Accounted : (a l k : ℕ) (s : State) → a ≢ 0 → Run a l k s → Accounted a l k s
Run-Accounted a l _ _ nonzero begin = record { balance = refl; single = omega arith }
Run-Accounted a l _ _ nonzero (after op k s s' r fits h) =
    step-Accounted a l k op s s' nonzero fits h (Run-Accounted a l k s nonzero r)

-- Whatever a program does with its buffers, if `mmap` gives only addresses where nothing is mapped:
-- memory that was mapped has at most one owner, and as often as it was mapped it was unmapped, is owned,
-- or was dropped by an assignment over its owner, the last at most once and never beside an owner. So
-- it is never unmapped more often than it was mapped.
pub memory_has_one_owner :
    (a l k : ℕ) (s : State)
    → a ≢ 0
    → Run a l k s
    → Accounted a l k s × (unmappings a l s.calls ≤ mappings a l s.mapped)
memory_has_one_owner a l k s nonzero r =
    let acc = Run-Accounted a l k s nonzero r in (acc, omega (arith, acc.balance))
