-- ===== src/Rdmalib/Active/Life.antt =====
-- What a connecting side holds over its life: rdmalib/lib/rdmalib.cpp, `RDMAActive`.
use r_faa_s.Common.{
  ℕ, ◌≡◌, ◌≢◌, refl, sym, ap, subst, ◌∙◌, ◌⊎◌, inl, inr, Bool, true, false, Option, none, some, [],
  ◌∷◌, ◌++◌, arith, ◌==◌, ◌>>=◌, if◌then◌else◌, some_inj,
}
use r_faa_s.Rdmalib.Connection.{Connection, create_connection, initialize}
use r_faa_s.Rdmalib.Active.{
  Endpoint, PrivatePointer, null, stale, Active, create_active, allocate, reset, passed_data,
  connect_ended, connect, disconnect,
}

pub data Op : Type 0 where
  allocates : Option Endpoint → Op
  connects : ℕ → Option Endpoint → Bool → Op
  disconnects : Bool → Op

unfoldable pub step : Op → Active → Option Active
step (allocates made) a = allocate made a
step (connects secret made success) a = do r ← connect secret made success a; some r.1
step (disconnects success) a = disconnect success a

-- Calls as they are meant to be: it does not connect again while it is connected, and it has not
-- passed a secret before it connects without one.
abbrev pub IsMeant : Op → Active → Type 0
IsMeant (connects secret made success) a =
    (a.is_connected ≡ false) × ((a.private_data ≡ null) ⊎ (secret ≢ 0))
IsMeant (disconnects success) a = a.is_connected ≡ true
IsMeant (allocates made) a = Unit {0}

-- What is supplied from outside: the calls of an operation succeed as far as it cannot go on otherwise.
abbrev pub IsSupplied : Op → Type 0
IsSupplied (allocates made) = made ≢ none
IsSupplied (connects secret made success) = made ≢ none
IsSupplied (disconnects success) = success ≡ true

-- There is a connection in a protection domain, or there is none of both and no connection is claimed.
abbrev pub Holds : Active → Type 0
Holds a =
    ((a.conn ≡ none) × (a.pd ≡ none) × (a.is_connected ≡ false))
    ⊎ ((c : Connection) × (pd : ℕ) × (a.conn ≡ some c) × (a.pd ≡ some pd))

-- Whether there is a connection after an operation.
abbrev pub connected_after : Op → Active → Bool
connected_after (allocates made) a = a.is_connected
connected_after (connects secret made success) a = success
connected_after (disconnects success) a = false

-- A life in which calls are as they are meant to be.
pub data Life : Active → Type 0 where
  begin : Life create_active
  after :
      (op : Op) (a a' : Active)
      → Life a
      → IsMeant op a
      → IsSupplied op
      → step op a ≡ some a'
      → Life a'

stale_null : ¬ (stale ≡ null)
stale_null e = cc

-- `allocate` leaves a connection in a protection domain and changes nothing else.
allocate-made :
    (e : Endpoint) (a : Active)
    → Holds a
    → (c : Connection) × (pd : ℕ) × (allocate (some e) a
        ≡ some (record a { conn = some c; pd = some pd }))
unfolding allocate
allocate-made e a (inl (absent, no_pd, off)) =
    (initialize e.id (create_connection false), e.pd, rw (absent, allocate) refl)
allocate-made e a (inr (c, pd, there, here)) = (c, pd, ground (arith, there, here))

passed_data-meant :
    (secret : ℕ) (p : PrivatePointer)
    → (p ≡ null) ⊎ (secret ≢ 0)
    → (d : Option ℕ) × (passed_data secret p ≡ some d)
unfolding passed_data
passed_data-meant secret null meant = (if secret == 0 then none else some secret, refl)
passed_data-meant secret stale (inl e) = absurd (stale_null e)
passed_data-meant secret stale (inr given) = (some secret, ground (arith, given))

connect-made :
    (secret : ℕ) (made : Option Endpoint) (success : Bool) (a a' : Active) (c : Connection)
    (d : Option ℕ)
    → allocate made a ≡ some a'
    → a'.conn ≡ some c
    → passed_data secret a'.private_data ≡ some d
    → connect secret made success a ≡ some (connect_ended secret success c d a')
unfolding connect
connect-made secret made success a a' c d made_it there passes =
    ap
      (λ o. o >>= λ x. x.conn >>= λ y.
        passed_data secret x.private_data >>= λ z. some (connect_ended secret success y z x))
      made_it
    ∙ ap
        (λ o. o >>= λ y.
          passed_data secret a'.private_data >>= λ z. some (connect_ended secret success y z a'))
        there
    ∙ ap (λ o. o >>= λ z. some (connect_ended secret success c z a')) passes

connect_ended-Holds :
    (secret : ℕ) (success : Bool) (c : Connection) (d : Option ℕ) (a : Active) (pd : ℕ)
    → a.conn ≡ some c
    → a.pd ≡ some pd
    → a.is_connected ≡ false
    → let a' = (connect_ended secret success c d a).1 in Holds a' × (a'.is_connected ≡ success)
unfolding connect_ended reset
connect_ended-Holds secret true c d a pd there here off = (inr (c, pd, there, here), refl)
connect_ended-Holds secret false c d a pd there here off = (inl (refl, refl, off), off)

disconnect-made :
    (a : Active) (c : Connection)
    → a.conn ≡ some c
    → (a' : Active) × (disconnect true a ≡ some a') × Holds a' × (a'.is_connected ≡ false)
unfolding disconnect reset
disconnect-made a c there = (
  reset c (record a { is_connected = false; disconnects = a.disconnects ++ c.id ∷ [] }),
  rw (there, disconnect) refl,
  inl (refl, refl, refl),
  refl,
)

step-meant :
    (op : Op) (a : Active)
    → Holds a
    → IsMeant op a
    → IsSupplied op
    → (a' : Active) × (step op a ≡ some a') × Holds a' × (a'.is_connected ≡ connected_after op a)
unfolding step
step-meant (allocates none) a h m s = absurd (s refl)
step-meant (allocates (some e)) a h m s =
    let (c, pd, made) = allocate-made e a h in
    (record a { conn = some c; pd = some pd }, made, inr (c, pd, refl, refl), refl)
step-meant (connects secret none success) a h m s = absurd (s refl)
step-meant (connects secret (some e) success) a h m s =
    let (c, pd, made) = allocate-made e a h in
    let (d, passes) = passed_data-meant secret a.private_data m.1 in
    let a1 : Active = record a { conn = some c; pd = some pd } in
    let ended = connect_ended secret success c d a1 in
    let (holds, flag) = connect_ended-Holds secret success c d a1 pd refl refl m.0 in
    (
      ended.1,
      ap (λ o. o >>= λ r. some r.1)
          (connect-made secret (some e) success a a1 c d made refl passes),
      holds,
      flag,
    )
step-meant (disconnects success) a (inl (absent, no_pd, off)) m s = absurd (cc)
step-meant (disconnects success) a (inr (c, pd, there, here)) m s = rw s (disconnect-made a c there)

Life-Holds : (a : Active) → Life a → Holds a
Life-Holds _ begin = unfold create_active in inl (refl, refl, refl)
Life-Holds _ (after op a a' l m s e) =
    let (b, done, holds, flag) = step-meant op a (Life-Holds a l) m s in
    subst Holds (some_inj (sym done ∙ e)) holds

-- As long as calls are as they are meant to be (`connect` comes while there is no connection and never
-- without a secret after one with a secret, `disconnect` while there is one) and what they get from
-- outside is there, none of them meets undefined behaviour; afterwards there is a connection exactly if
-- `connect` has succeeded and `disconnect` has not followed, and a connection is in a protection domain.
pub meant_calls_succeed :
    (op : Op) (a : Active)
    → Life a
    → IsMeant op a
    → IsSupplied op
    → (a' : Active) × (step op a ≡ some a') × Holds a' × (a'.is_connected ≡ connected_after op a)
meant_calls_succeed op a l m s = step-meant op a (Life-Holds a l) m s
