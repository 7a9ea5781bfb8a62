-- ===== src/DiskPool/Tests.antt =====
-- DiskPool.antt on a pool with one thread, which a task that throws ends.
use moban.Prelude.{◌≡◌, refl, false, some, List, [], ◌∷◌, ℕ, Option, none}
use moban.BlockingQueue as Blocking
use moban.DiskPool.{completes, throws, gone, ThreadPool, Event, tests, submits, steps, execute}

abbrev history : List Event
history = tests ∷ submits throws ∷ steps 0 ∷ tests ∷ submits completes ∷ steps 0 ∷ []

abbrev stuck : ThreadPool
stuck = record {
  queue = record { items = completes ∷ []; done = false };
  pending = 2;
  callers = 1;
  admitted = 0;
  workers = gone ∷ [];
}

-- Two threads pass the test while 255 tasks are pending, and 257 tasks wait.
abbrev full : ThreadPool
full = record {
  queue = record { items = []; done = false };
  pending = 255;
  callers = 2;
  admitted = 0;
  workers = [];
}

pending_of : Option ThreadPool → ℕ
pending_of none = 0
pending_of (some p) = p.pending

one_too_many :
    pending_of (execute full (tests ∷ tests ∷ submits completes ∷ submits completes ∷ [])) ≡ 257
unfolding pending_of execute
one_too_many = refl
