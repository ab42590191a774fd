-- ===== src/ResourceManager/Messages.antt =====
-- server/common/messages.hpp: what executor managers and the resource manager send one another.
use r_faa_s.Common.{
  ℕ, zero, suc, ◌≡◌, ◌≤◌, ◌<◌, refl, [], ◌∷◌, Option, none, some, arith, Bytes, length, ◌==◌,
  if◌then◌else◌,
}
use r_faa_s.Common.Int.{ℤ}

abbrev pub node_name_length : ℕ
node_name_length = 32

-- `strncpy(field, name, n)`: at most `n` bytes, filled up with zeros.
unfoldable pub strncpy : ℕ → Bytes → Bytes
strncpy zero name = []
strncpy (suc n) [] = 0 ∷ strncpy n []
strncpy (suc n) (c ∷ name) = c ∷ strncpy n name

-- The string that starts at a field; `none` when no zero byte ends it within the field.
unfoldable pub c_string : Bytes → Option Bytes
c_string [] = none
c_string (c ∷ field) =
    let rest = c_string field in
    if c == 0 then some [] else elim rest [ none ↦ none | some name ↦ some (c ∷ name) ]

pub record LeaseDeallocation : Type 0 where
  pub lease_id : ℕ
  pub allocation_time : ℕ
  pub hot_polling_time : ℕ
  pub execution_time : ℕ

pub record LeaseAllocation : Type 0 where
  pub memory : ℤ
  pub cores : ℤ
  pub lease_id : ℕ

-- A message in a receive slot, by its first word: `NODE_REGISTRATION`, `LEASE_DEALLOCATION`, others.
pub data Message : Type 0 where
  node_registration : Bytes → Message
  lease_deallocation : LeaseDeallocation → Message
  unknown : ℕ → Message

-- No zero byte inside.
abbrev pub IsPlain : Bytes → Type 0
IsPlain [] = Unit {0}
IsPlain (c ∷ name) = (0 < c) × IsPlain name

-- A shorter name is the string that starts at its field.
pub c_string-strncpy :
    (n : ℕ) (name : Bytes) → IsPlain name → length name < n → c_string (strncpy n name) ≡ some name
unfolding c_string strncpy
c_string-strncpy zero name p h = absurd (omega (arith, h))
c_string-strncpy (suc n) [] p h = refl
c_string-strncpy (suc n) (c ∷ name) p h =
    let (positive, rest) = p in ground (arith, c_string-strncpy n name rest (omega (arith, h)))

-- A name that fills the field leaves no byte that ends it.
pub c_string-strncpy_long :
    (n : ℕ) (name : Bytes) → IsPlain name → n ≤ length name → c_string (strncpy n name) ≡ none
unfolding c_string strncpy
c_string-strncpy_long zero name p h = refl
c_string-strncpy_long (suc n) [] p h = elim h [ ]
c_string-strncpy_long (suc n) (c ∷ name) p h =
    ground (arith, c_string-strncpy_long n name p.1 (omega arith))
