-- ===== src/ResourceManager/Executors/References.antt =====
-- The references that a table holds: server/resource_manager/executor.cpp.
use r_faa_s.Common.{
  ℕ, ◌≤◌, ◌<◌, ◌≡◌, refl, false, some, [], ◌∷◌, Map, nat_eq, bytes_eq, find, assign, erase, arith,
  inl, inr, Eq, Bool-cases,
}
use r_faa_s.ResourceManager.Executors.{holds}

-- Every reference of a table names an object below `n`.
abbrev pub RefsBelow {ℓ} : {K : Type ℓ} → ℕ → Map K ℕ → Type 0
RefsBelow n [] = Unit {0}
RefsBelow n ((k, r) ∷ m) = (r < n) × RefsBelow n m

pub RefsBelow-mono {ℓ} :
    {K : Type ℓ} (m n : ℕ) (t : Map K ℕ) → m ≤ n → RefsBelow m t → RefsBelow n t
RefsBelow-mono m n [] h b = tt
RefsBelow-mono m n ((k, r) ∷ t) h b = (omega arith, RefsBelow-mono m n t h b.1)

module _ {ℓ} {K : Type ℓ} ⦃e : Eq K⦄ where
  pub assign-RefsBelow :
      (n : ℕ) (k : K) (r : ℕ) (t : Map K ℕ) → r < n → RefsBelow n t → RefsBelow n (assign k r t)
  unfolding assign
  assign-RefsBelow n k r [] h b = (h, tt)
  assign-RefsBelow n k r ((j, s) ∷ t) h b = elim (Bool-cases (e.beq j k)) [
    | inl same ↦ rw same (h, b.1)
    | inr other ↦ rw other (b.0, assign-RefsBelow n k r t h b.1)
  ]

  pub erase-RefsBelow : (n : ℕ) (k : K) (t : Map K ℕ) → RefsBelow n t → RefsBelow n (erase k t)
  unfolding erase
  erase-RefsBelow n k [] b = tt
  erase-RefsBelow n k ((j, s) ∷ t) b = elim (Bool-cases (e.beq j k)) [
    | inl same ↦ rw same (erase-RefsBelow n k t b.1)
    | inr other ↦ rw other (b.0, erase-RefsBelow n k t b.1)
  ]

  pub find-RefsBelow :
      (n : ℕ) (k : K) {r : ℕ} (t : Map K ℕ) → RefsBelow n t → find k t ≡ some r → r < n
  unfolding find
  find-RefsBelow n k [] b h = cc
  find-RefsBelow n k ((j, s) ∷ t) b h = elim (Bool-cases (e.beq j k)) [
    | inl same ↦ ground arith
    | inr other ↦ find-RefsBelow n k t b.1 (ground arith)
  ]

pub holds_below {ℓ} :
    {K : Type ℓ} (n r : ℕ) (t : Map K ℕ) → RefsBelow n t → n ≤ r → holds t r ≡ false
holds_below n r [] b h = refl
holds_below n r ((k, s) ∷ t) b h = ground (arith, holds_below n r t b.1 h)
