-- ===== src/Rdmalib/Connection/Lifetime.antt =====
-- Who owns the identifiers behind connections, and how they are destroyed: rdmalib/lib/connection.cpp.
use r_faa_s.Common.{
  ℕ, ◌+◌, ◌≤◌, ◌≡◌, refl, ap, subst, ◌∙◌, Bool, true, false, ◌&&◌, Option, none, some, List, [],
  ◌∷◌, ◌++◌, get_elem?, set, total, total-append, total-set, arith, ◌==◌, some_inj, bind_inv, ◌>>=◌,
  if◌then◌else◌,
}
use r_faa_s.Rdmalib.Connection.{
  Connection, create_connection, CmId, initialize, moved_connection, CmCall, destroy_qp, destroy_ep,
  destroy_id, close,
}

-- A program with its connections: an object that was destroyed is `none`. `given` are the identifiers
-- that the connection manager gave to active and to passive connections.
pub record Program : Type 0 where
  pub objects : List (Option Connection)
  pub given : List (Bool × ℕ)
  pub calls : List CmCall

pub data Op : Type 0 where
  creates : Bool → Op
  initializes : ℕ → CmId → Op
  moves : ℕ → Op
  closes destroys : ℕ → Op

unfoldable pub object : ℕ → Program → Option Connection
object i s = do o ← get_elem? s.objects i; o

abbrev pub add_object : Connection → Program → Program
add_object c s = record s { objects = s.objects ++ some c ∷ [] }

unfoldable pub step : Op → Program → Option Program
unfolding create_connection initialize moved_connection close object
step (creates passive) s = some (add_object (create_connection passive) s)
step (initializes i id) s = do
  c ← object i s
  some (record s {
    objects = set s.objects i (some (initialize id c));
    given = (c.passive, id.address) ∷ s.given;
  })
step (moves i) s = do
  c ← object i s
  some (add_object c (record s { objects = set s.objects i (some (moved_connection c)) }))
step (closes i) s = do
  c ← object i s
  some (record s { objects = set s.objects i (some (close c).0); calls = s.calls ++ (close c).1 })
step (destroys i) s = do
  c ← object i s
  some (record s { objects = set s.objects i none; calls = s.calls ++ (close c).1 })

abbrev pub counts : Bool → ℕ
counts b = if b then 1 else 0

abbrev pub same_kind : Bool → Bool → Bool
same_kind true b = b
same_kind false true = false
same_kind false false = true

-- How often an identifier was given to a connection of a kind, was destroyed in the way of that kind,
-- and is held by one.
abbrev pub given_times : Bool → ℕ → List (Bool × ℕ) → ℕ
given_times p a = total (λ g. counts (same_kind p g.0 && (g.1 == a)))

abbrev pub ends : Bool → ℕ → CmCall → ℕ
ends p a (destroy_qp id) = 0
ends p a (destroy_ep id) = counts (same_kind p false && (id == a))
ends p a (destroy_id id) = counts (same_kind p true && (id == a))

abbrev pub holds_id : ℕ → Option ℕ → Bool
holds_id a none = false
holds_id a (some id) = id == a

abbrev pub holds : Bool → ℕ → Option Connection → ℕ
holds p a none = 0
holds p a (some c) = counts (same_kind p c.passive && holds_id a c.id)

-- How often a step overwrites an identifier that its object holds.
abbrev pub overwritten : Bool → ℕ → Op → Program → ℕ
overwritten p a (initializes i id) s = holds p a (object i s)
overwritten p a _ s = 0

-- A run, with how often it has overwritten an identifier.
pub data Run (p : Bool) (a : ℕ) : ℕ → Program → Type 0 where
  begin : Run p a 0 (record { objects = []; given = []; calls = [] })
  after :
      (op : Op) (k : ℕ) (s s' : Program)
      → Run p a k s
      → step op s ≡ some s'
      → Run p a (overwritten p a op s + k) s'

-- Identifiers are destroyed, held or overwritten as often as they were given.
abbrev pub Balanced : Bool → ℕ → ℕ → Program → Type 0
Balanced p a k s =
    given_times p a s.given ≡ total (ends p a) s.calls + total (holds p a) s.objects + k

object-inv :
    (i : ℕ) (s : Program) (c : Connection)
    → object i s ≡ some c
    → get_elem? s.objects i ≡ some (some c)
unfolding object
object-inv i s c h = let (o, e, e') = bind_inv (get_elem? s.objects i) h in e ∙ ap some e'

-- Closing destroys what was held, in the way of its kind, and leaves nothing.
close-holds :
    (p : Bool) (a : ℕ) (c : Connection)
    → (total (ends p a) (close c).1 ≡ holds p a (some c)) × (holds p a (some (close c).0) ≡ 0)
unfolding close
close-holds p a c = ground arith

created-holds :
    (p : Bool) (a : ℕ) (passive : Bool) → holds p a (some (create_connection passive)) ≡ 0
unfolding create_connection
created-holds p a passive = ground arith

moved-holds : (p : Bool) (a : ℕ) (c : Connection) → holds p a (some (moved_connection c)) ≡ 0
unfolding moved_connection
moved-holds p a c = ground arith

initialize-holds :
    (p : Bool) (a : ℕ) (id : CmId) (c : Connection)
    → holds p a (some (initialize id c)) ≡ counts (same_kind p c.passive && (id.address == a))
unfolding initialize
initialize-holds p a id c = refl

step-Balanced :
    (p : Bool) (a k : ℕ) (op : Op) (s s' : Program)
    → step op s ≡ some s'
    → Balanced p a k s
    → Balanced p a (overwritten p a op s + k) s'
unfolding step
step-Balanced p a k (creates passive) s s' h b =
    let added = total-append (holds p a) s.objects (some (create_connection passive) ∷ []) in
    let nothing : holds p a (some (create_connection passive)) ≡ 0 = created-holds p a passive in
    subst (Balanced p a (0 + k)) (some_inj h) (omega (arith, b, added, nothing))
step-Balanced p a k (initializes i id) s s' h b =
    let (c, e, h1) = bind_inv (object i s) h in
    let changed =
      total-set (holds p a) s.objects i (some c) (some (initialize id c)) (object-inv i s c e) in
    let held = initialize-holds p a id c in
    let lost = ap (holds p a) e in
    subst (Balanced p a (holds p a (object i s) + k)) (some_inj h1)
      (omega (arith, b, changed, held, lost))
step-Balanced p a k (moves i) s s' h b =
    let (c, e, h1) = bind_inv (object i s) h in
    let objects = set s.objects i (some (moved_connection c)) in
    let changed =
      total-set (holds p a) s.objects i (some c) (some (moved_connection c)) (object-inv i s c e) in
    let added = total-append (holds p a) objects (some c ∷ []) in
    let left = moved-holds p a c in
    subst (Balanced p a (0 + k)) (some_inj h1) (omega (arith, b, changed, added, left))
step-Balanced p a k (closes i) s s' h b =
    let (c, e, h1) = bind_inv (object i s) h in
    let changed =
      total-set (holds p a) s.objects i (some c) (some (close c).0) (object-inv i s c e) in
    let made = total-append (ends p a) s.calls (close c).1 in
    let (ended, left) = close-holds p a c in
    subst (Balanced p a (0 + k)) (some_inj h1) (omega (arith, b, changed, made, ended, left))
step-Balanced p a k (destroys i) s s' h b =
    let (c, e, h1) = bind_inv (object i s) h in
    let changed = total-set (holds p a) s.objects i (some c) none (object-inv i s c e) in
    let made = total-append (ends p a) s.calls (close c).1 in
    let (ended, left) = close-holds p a c in
    subst (Balanced p a (0 + k)) (some_inj h1) (omega (arith, b, changed, made, ended))

Run-Balanced : (p : Bool) (a k : ℕ) (s : Program) → Run p a k s → Balanced p a k s
Run-Balanced p a _ _ begin = refl
Run-Balanced p a _ _ (after op k s s' r h) = step-Balanced p a k op s s' h (Run-Balanced p a k s r)

-- Whatever a program does with its connections, an identifier that the connection manager gave is, as
-- often as it was given, destroyed in the way of its kind (`rdma_destroy_ep` for active and
-- `rdma_destroy_id` for passive connections), held by a connection of that kind, or overwritten by an
-- initialization of a connection that held it; and it is never destroyed more often than it was given.
pub identifiers_accounted :
    (p : Bool) (a k : ℕ) (s : Program)
    → Run p a k s
    → Balanced p a k s × (total (ends p a) s.calls ≤ given_times p a s.given)
identifiers_accounted p a k s r = let b = Run-Balanced p a k s r in (b, omega (arith, b))
