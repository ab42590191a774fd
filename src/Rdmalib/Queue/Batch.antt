-- ===== src/Rdmalib/Queue/Batch.antt =====
-- The chains of receive requests: what a full batch and a cut one visit, and that the links return.
use r_faa_s.Common.{
  ℕ, zero, suc, ◌+◌, ◌-◌, ◌≤◌, ◌<◌, ◌≡◌, refl, ap, ◌∙◌, Option, none, some, List, arith, length,
  get_elem?, set, get_elem?-set_self, get_elem?-set_ne, set-restore,
}
use native.Mathlib.Decide.{dec_lt}
use r_faa_s.Rdmalib.Queue.{links, chain, rbatch}

pub length-links : (n i : ℕ) → length (links n i) ≡ n
unfolding links
length-links zero i = refl
length-links (suc n) i = ap suc (length-links n (i + 1))

pub links-next : (n i j : ℕ) → suc j < n → get_elem? (links n i) j ≡ some (some (i + j + 1))
unfolding links
links-next zero i j h = elim h [ ]
links-next (suc n) i zero h = ground arith
links-next (suc n) i (suc j) h =
    let e : i + 1 + j + 1 ≡ i + suc j + 1 = omega arith in
    rw (← e) (links-next n (i + 1) j (omega arith))

-- A chain that is linked up to `r - 1` and cut there visits `r - i` requests from `i` on.
pub length-chain :
    (f i r : ℕ) (nexts : List (Option ℕ))
    → ((j : ℕ) → suc j < r → get_elem? nexts j ≡ some (some (suc j)))
    → get_elem? nexts (r - 1) ≡ some none
    → i < r
    → r ≤ f + i
    → length (chain f nexts i) ≡ r - i
unfolding chain
length-chain zero i r nexts linked cut lo hi = absurd (omega arith)
length-chain (suc f) i r nexts linked cut lo hi = elim (dec_lt (suc i) r) [
  | yes inner ↦
      rw (linked i inner)
        (omega (arith, length-chain f (suc i) r nexts linked cut inner (omega arith)))
  | no last ↦
      let e : i ≡ r - 1 = omega arith in
      let here : get_elem? nexts i ≡ some none = rw e cut in rw here (omega arith)
]

pub length-chain_full : length (chain rbatch (links rbatch 0) 0) ≡ 32
unfolding chain links
length-chain_full = refl

-- Cut behind request `r - 1`, the batch is a chain of `r` requests.
pub length-chain_cut :
    (r : ℕ) → 0 < r → r < 32 → length (chain rbatch (set (links rbatch 0) (r - 1) none) 0) ≡ r
length-chain_cut r lo hi =
    length-chain rbatch 0 r (set (links rbatch 0) (r - 1) none)
      (λ j h.
        get_elem?-set_ne (links rbatch 0) none (omega arith)
        ∙ links-next rbatch 0 j (omega arith)
        ∙ ap (λ k. some (some k)) (omega arith))
      (get_elem?-set_self (links rbatch 0) (r - 1) none (omega (arith, length-links rbatch 0))) lo
      (omega arith)
    ∙ omega arith

-- Linking request `r - 1` to request `r` again restores the batch.
pub links-restored :
    (r : ℕ)
    → 0 < r
    → r < 32
    → set (set (links rbatch 0) (r - 1) none) (r - 1) (some r) ≡ links rbatch 0
links-restored r lo hi =
    set-restore (links rbatch 0) (r - 1) none
      (links-next rbatch 0 (r - 1) (omega arith) ∙ ap (λ k. some (some k)) (omega arith))
