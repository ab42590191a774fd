-- ===== src/Worker/Life/Pinning.antt =====
-- Which cores the workers of a process run on: server/executor/fast_executor.cpp.
use r_faa_s.Common.{
  ℕ, zero, suc, ◌+◌, ◌<◌, ◌≡◌, refl, sym, ap, ◌∙◌, ◌↔◌, some_inj, true, false, some, get_elem?,
  arith,
}
use r_faa_s.Worker.Life.{cores_from, allocate_threads}

cores_from-get_elem? :
    (n core i : ℕ)
    → i < n
    → (get_elem? (cores_from true n core) i ≡ some (core + i))
      × (get_elem? (cores_from false n core) i ≡ some core)
unfolding cores_from
cores_from-get_elem? zero core i h = absurd (omega arith)
cores_from-get_elem? (suc n) core zero h = (ap some (omega arith), refl)
cores_from-get_elem? (suc n) core (suc i) h =
    let (own, same) = cores_from-get_elem? n (core + 1) i (omega arith) in
    let (own', same') = cores_from-get_elem? n core i (omega arith) in
    (own ∙ ap some (omega arith), same')

-- With pinning every worker has a core of its own, the one after its predecessor's; without it all of
-- them are pinned to one core, and so share it.
pub pinned_apart :
    (start_index core_start_index numcores i j a b : ℕ)
    → get_elem? (allocate_threads start_index core_start_index true numcores) i ≡ some a
    → get_elem? (allocate_threads start_index core_start_index true numcores) j ≡ some b
    → i < numcores
    → j < numcores
    → ((a ≡ b) ↔ (i ≡ j))
      × (get_elem? (allocate_threads start_index core_start_index false numcores) i
          ≡ get_elem? (allocate_threads start_index core_start_index false numcores) j)
unfolding allocate_threads
pinned_apart start_index core_start_index numcores i j a b at_i at_j small_i small_j =
    let core = start_index + core_start_index in
    let (own_i, same_i) = cores_from-get_elem? numcores core i small_i in
    let (own_j, same_j) = cores_from-get_elem? numcores core j small_j in
    let ea : core + i ≡ a = some_inj (sym own_i ∙ at_i) in
    let eb : core + j ≡ b = some_inj (sym own_j ∙ at_j) in
    ((λ e. omega (arith, ea, eb, e), λ e. omega (arith, ea, eb, e)), same_i ∙ sym same_j)
