-- ===== src/ThreadPool/Tests.antt =====
-- ThreadPool.antt on a pool with two threads, and the theorems at it.
use moban.Prelude.{
  ℕ, ◌+◌, ◌≤◌, ◌≡◌, refl, true, false, ◌⊎◌, some, List, [], ◌∷◌, length, arith, total,
}
use moban.ThreadPool.{
  waiting, busy, exited, Pool, create, join, Event, starts, runs, steps, stops, all_exited, step,
  execute, crashed, crashes,
}
use moban.ThreadPool.Invariant.{count, has_exited}
use moban.ThreadPool.Drain.{joined, stop-ends, steps_left, run_threads, Move}

-- Two tasks, of which the second is begun after `stop`.
abbrev history : List Event
history =
    starts 2
    ∷ runs 7 0
    ∷ runs 8 1
    ∷ steps 0
    ∷ stops
    ∷ steps 0
    ∷ steps 1
    ∷ steps 1
    ∷ steps 1
    ∷ steps 0
    ∷ []

abbrev before_join : Pool
before_join = record {
  running = false;
  queue = [];
  threads = exited ∷ exited ∷ [];
  joining = true;
  accepted = 7 ∷ 8 ∷ [];
  started = 7 ∷ 8 ∷ [];
  finished = 7 ∷ 8 ∷ [];
  thrown = [];
}

reached : execute create history ≡ some before_join
unfolding execute create
reached = refl

abbrev after_join : Pool
after_join = record before_join { threads = []; joining = false }

joins_now : join before_join ≡ some after_join
unfolding join
joins_now = refl

joined_example : count 7 (7 ∷ 8 ∷ []) + count 7 [] ≡ count 7 (7 ∷ 8 ∷ [])
unfolding has_exited total
joined_example = joined history before_join after_join 7 reached (omega arith) joins_now

-- The only thread falls asleep; the task that it is woken for throws, and the next task never runs.
abbrev ended : Pool
ended = record {
  running = false;
  queue = 8 ∷ [];
  threads = crashed ∷ [];
  joining = true;
  accepted = 7 ∷ 8 ∷ [];
  started = 7 ∷ [];
  finished = [];
  thrown = 7 ∷ [];
}

never_run :
    execute create (starts 1 ∷ steps 0 ∷ runs 7 0 ∷ steps 0 ∷ runs 8 0 ∷ crashes 0 ∷ stops ∷ [])
    ≡ some ended
unfolding execute create
never_run = refl

abbrev beginning : List Event
beginning = starts 2 ∷ steps 1 ∷ runs 7 0 ∷ runs 8 0 ∷ steps 0 ∷ stops ∷ []

abbrev stopping : Pool
stopping = record {
  running = false;
  queue = 8 ∷ [];
  threads = busy 7 ∷ waiting ∷ [];
  joining = true;
  accepted = 7 ∷ 8 ∷ [];
  started = 7 ∷ [];
  finished = [];
  thrown = [];
}

stopping_reached : execute create beginning ≡ some stopping
unfolding execute create
stopping_reached = refl

abbrev half_way : Pool
half_way = record stopping {
  queue = [];
  threads = crashed ∷ busy 8 ∷ [];
  started = 7 ∷ 8 ∷ [];
  thrown = 7 ∷ [];
}

abbrev schedule : List Move
schedule = (1, false) ∷ (0, true) ∷ []

half_way_reached : run_threads stopping schedule ≡ some half_way
unfolding run_threads step
half_way_reached = refl

stop-ends_example :
    (length schedule + steps_left half_way ≤ steps_left stopping)
    × ((all_exited (crashed ∷ busy 8 ∷ []) ≡ true)
        ⊎ ((i : ℕ) × (r : Pool) × (step half_way (steps i) ≡ some r)))
stop-ends_example =
    stop-ends beginning stopping half_way schedule stopping_reached refl half_way_reached
