-- ===== src/Worker/Life/Billing.antt =====
-- What a worker has billed when it ends: server/executor/fast_executor.cpp.
use r_faa_s.Common.{Bool, ◌≡◌, true, List, [], ◌∷◌}
use r_faa_s.Rdmalib.Queue.{Polled, failed, completions}
use r_faa_s.Worker.Accounting.{Accounting}
use r_faa_s.Worker.Thread.{Thread, polled as polled_of}
use r_faa_s.Worker.Thread.Batches.{successes}

-- A poll with which the loop over its completions ends: only its first one may have succeeded.
abbrev pub Ends : Polled → Type 0
Ends failed = Unit {0}
Ends (completions []) = Unit {0}
Ends (completions (wc ∷ wcs)) = successes wcs ≡ []

-- With all polls the loops end, and an event ends each wait.
abbrev pub AllEnd : List (Polled × Bool) → Type 0
AllEnd [] = Unit {0}
AllEnd ((r, event) ∷ rs) = (Ends r × (event ≡ true)) × AllEnd rs
