-- ===== src/Tests/Buffer.antt =====
-- A buffer with a header is moved into another, assigned over a second one, and destroyed.
use r_faa_s.Common.{ℕ, ◌≤◌, refl, [], arith}
use r_faa_s.Rdmalib.Buffer.{
  with_memory, moved_from, assigned_from, destroyed, object, State, new_memory, new_from,
  assign_from, destroy, step,
}
use r_faa_s.Rdmalib.Buffer.Ownership.{
  Run, begin, after, Accounted, mappings, unmappings, memory_has_one_owner,
}
use r_faa_s.Tests.Listener.{from_some}

abbrev no_objects : State
no_objects = record { objects = []; mapped = []; calls = [] }

abbrev two_buffers : State
two_buffers =
    from_some no_objects (
      step (new_memory 5 1 0 8192)
        (from_some no_objects (step (new_memory 4 8 12 4096) no_objects)))

abbrev moved : State
moved = from_some no_objects (step (new_from 0) two_buffers)

abbrev assigned : State
assigned = from_some no_objects (step (assign_from 1 2) moved)

abbrev unmapped : State
unmapped = from_some no_objects (step (destroy 1) assigned)

two_buffers-Run : (l : ℕ) → Run 8192 l 0 two_buffers
unfolding step with_memory
two_buffers-Run l =
    after (new_memory 5 1 0 8192) 0
      (from_some no_objects (step (new_memory 4 8 12 4096) no_objects)) two_buffers
      (after (new_memory 4 8 12 4096) 0 no_objects
        (from_some no_objects (step (new_memory 4 8 12 4096) no_objects)) begin
        ((λ p. absurd (ground (arith, p))), refl) refl)
      ((λ p. absurd (ground (arith, p))), refl) refl

unmapped-Run : Run 8192 5 1 unmapped
unfolding step with_memory moved_from assigned_from destroyed object
unmapped-Run =
    after (destroy 1) 1 assigned unmapped
      (after (assign_from 1 2) 0 moved assigned
        (after (new_from 0) 0 two_buffers moved (two_buffers-Run 5) tt refl) tt refl)
      tt refl

-- The memory at 8192 was dropped.
memory_has_one_owner_example :
    Accounted 8192 5 1 unmapped
    × (unmappings 8192 5 unmapped.calls ≤ mappings 8192 5 unmapped.mapped)
memory_has_one_owner_example =
    memory_has_one_owner 8192 5 1 unmapped (λ p. absurd (ground (arith, p))) unmapped-Run
