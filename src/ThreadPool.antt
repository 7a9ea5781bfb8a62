-- ===== src/ThreadPool.antt =====
-- deps/common/base/thread_pool.h and thread_pool.cpp: the pool as a machine whose steps are what
-- one thread does under the mutex, or a task from its call to its return. A task is a number.
pub mod Invariant
pub mod Drain
pub mod Tests
use moban.Prelude.{
  ℕ, zero, suc, ◌+◌, ◌==◌, Bool, true, false, ◌&&◌, Option, none, some, List, [], ◌∷◌, ◌++◌, ◌>>=◌,
  if◌then◌else◌, get_elem?, set, replicate,
}

-- A thread of the pool: awake before the test of its wait, asleep in it, in a task, at the end of
-- `run_in_thread`, or ended by a task that threw.
pub data Worker : Type 0 where
  waiting : Worker
  asleep : Worker
  busy : ℕ → Worker
  crashed : Worker
  exited : Worker

pub record Pool : Type 0 where
  pub running : Bool
  pub queue : List ℕ
  pub threads : List Worker
  -- `stop` has cleared `running_` and is joining the threads.
  pub joining : Bool
  -- What has happened: the tasks that `run` took, those begun, those that have returned, and
  -- those that threw.
  pub accepted : List ℕ
  pub started : List ℕ
  pub finished : List ℕ
  pub thrown : List ℕ

unfoldable pub create : Pool
create = record {
  running = false;
  queue = [];
  threads = [];
  joining = false;
  accepted = [];
  started = [];
  finished = [];
  thrown = [];
}

-- Called by the thread that calls `stop`, and so not while that joins. The second call of a
-- running pool only warns.
unfoldable pub start : Pool → ℕ → Option Pool
start p num_thread =
    if p.joining
    then none
    else some (
        if p.running
        then p
        else record p { running = true; threads = p.threads ++ replicate num_thread waiting })

abbrev pub wake : Worker → Worker
wake waiting = waiting
wake asleep = waiting
wake (busy task) = busy task
wake crashed = crashed
wake exited = exited

-- `notify_one`, and a wakeup without a cause: the thread at a place wakes, if it sleeps.
unfoldable pub wake_one : ℕ → List Worker → List Worker
wake_one i [] = []
wake_one zero (w ∷ ws) = wake w ∷ ws
wake_one (suc i) (w ∷ ws) = w ∷ wake_one i ws

-- `notify_all`.
unfoldable pub wake_all : List Worker → List Worker
wake_all [] = []
wake_all (w ∷ ws) = wake w ∷ wake_all ws

-- `run`, with the thread that `notify_one` wakes once the lock is free, taken as one step: `none` is the
-- exception.
unfoldable pub run : Pool → ℕ → ℕ → Option Pool
unfolding wake_one
run p task woken =
    if p.running
    then some record p {
      queue = p.queue ++ task ∷ [];
      accepted = p.accepted ++ task ∷ [];
      threads = wake_one woken p.threads;
    }
    else none

-- What a thread does that holds the mutex in `run_in_thread`.
pub data Turn : Type 0 where
  sleeps : Turn
  leaves : Turn
  takes : ℕ → List ℕ → Turn

unfoldable pub turn : Bool → List ℕ → Turn
turn running [] = if running then sleeps else leaves
turn running (task ∷ rest) = takes task rest

take_turn : Pool → ℕ → Turn → Option Pool
take_turn p i sleeps = some record p { threads = set p.threads i asleep }
take_turn p i leaves = some record p { threads = set p.threads i exited }
take_turn p i (takes task rest) = some record p {
  queue = rest;
  threads = set p.threads i (busy task);
  started = p.started ++ task ∷ [];
}

-- One step of thread `i` in `run_in_thread`, a task that returns included; `none` where it sleeps or has
-- left.
unfoldable pub run_in_thread : Pool → ℕ → Worker → Option Pool
unfolding turn take_turn
run_in_thread p i waiting = take_turn p i (turn p.running p.queue)
run_in_thread p i (busy task) =
    some record p { threads = set p.threads i waiting; finished = p.finished ++ task ∷ [] }
run_in_thread p i asleep = none
run_in_thread p i crashed = none
run_in_thread p i exited = none

-- The task of thread `i` throws, and `run_in_thread` ends with it: the function that the thread was given
-- catches all.
unfoldable pub crash : Pool → ℕ → Worker → Option Pool
crash p i waiting = none
crash p i asleep = none
crash p i (busy task) =
    some record p { threads = set p.threads i crashed; thrown = p.thrown ++ task ∷ [] }
crash p i crashed = none
crash p i exited = none

-- `stop` up to its joins. A pool that does not run is left alone.
unfoldable pub stop : Pool → Pool
unfolding wake_all
stop p =
    if p.running
    then record p { running = false; joining = true; threads = wake_all p.threads }
    else p

unfoldable pub all_exited : List Worker → Bool
all_exited [] = true
all_exited (waiting ∷ ws) = false
all_exited (asleep ∷ ws) = false
all_exited (crashed ∷ ws) = all_exited ws
all_exited (busy task ∷ ws) = false
all_exited (exited ∷ ws) = all_exited ws

-- The joins, which return when every thread has left, and `threads_.clear()`.
unfoldable pub join : Pool → Option Pool
unfolding all_exited
join p =
    if p.joining && all_exited p.threads
    then some record p { threads = []; joining = false }
    else none

pub data Event : Type 0 where
  starts : ℕ → Event
  runs : (task woken : ℕ) → Event
  wakes : ℕ → Event
  steps : ℕ → Event
  crashes : ℕ → Event
  stops : Event
  joins : Event

unfoldable pub step : Pool → Event → Option Pool
unfolding start run wake_one run_in_thread crash stop join
step p (starts n) = start p n
step p (runs task woken) = run p task woken
step p (wakes i) = some record p { threads = wake_one i p.threads }
step p (steps i) = do w ← get_elem? p.threads i; run_in_thread p i w
step p (crashes i) = do w ← get_elem? p.threads i; crash p i w
step p stops = some (stop p)
step p joins = join p

unfoldable pub execute : Pool → List Event → Option Pool
unfolding step
execute p [] = some p
execute p (e ∷ es) = do q ← step p e; execute q es
