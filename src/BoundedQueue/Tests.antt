-- ===== src/BoundedQueue/Tests.antt =====
-- The theorems on the bounded queue, at a queue of two places.
use moban.BoundedQueue.{Queue, Call, pushes, try_pushes, pops, stops, create}
use moban.BoundedQueue.Histories.{run, spec_run, run-create}
use moban.Prelude.{ℕ, ◌≡◌, List, [], ◌∷◌, false, arith}

abbrev calls : List (Call ℕ)
calls = pushes 5 ∷ try_pushes 6 ∷ try_pushes 7 ∷ pops ∷ stops ∷ pops ∷ pops ∷ []

abbrev fresh : Queue ℕ
fresh = create 0 2

run-create_example : run fresh calls ≡ spec_run 2 (record { values = []; stopped = false }) calls
run-create_example = run-create 0 2 calls (omega arith)
