-- ===== src/DiskPool.antt =====
-- example/miniftpd/src/thread_pool.h: threads for disk work over a BlockingQueue. A task is what
-- becomes of its call. Several threads submit tasks, and each tests the bound before it counts its task.
pub mod Laws
pub mod Tests
use moban.Prelude.{
  ℕ, zero, suc, ◌+◌, ◌-◌, Bool, true, false, not, Option, none, some, List, [], ◌∷◌, ◌>>=◌, leb,
  if◌then◌else◌, get_elem?, set, replicate, sub_size, ◌==◌,
}
use moban.BlockingQueue.{Queue, Outcome, waits, closed, returns, put, take, shutdown}
use moban.BlockingQueue as Blocking

-- `task()` returns or throws; `runtime_error` is what `run` catches.
pub data End : Type 0 where
  completes : End
  throws : End

pub data Worker : Type 0 where
  idle : Worker
  working : End → Worker
  gone : Worker

pub record ThreadPool : Type 0 where
  pub queue : Queue End
  pub pending : ℕ
  -- The threads that submit, and how many of them have passed the test and not counted their task.
  pub callers : ℕ
  pub admitted : ℕ
  pub workers : List Worker

abbrev pub max_pending : ℕ
max_pending = 256

unfoldable pub create : (callers num_threads : ℕ) → ThreadPool
unfolding Blocking.create
create callers num_threads = record {
  queue = Blocking.create;
  pending = 0;
  callers = callers;
  admitted = 0;
  workers = replicate num_threads idle;
}

-- `trySubmit` up to its test: refused, or on its way.
unfoldable pub try_submit : ThreadPool → Bool × ThreadPool
try_submit p =
    if leb max_pending p.pending then (false, p) else (true, record p { admitted = suc p.admitted })

-- The rest of `trySubmit`: the count, and the task for the threads.
unfoldable pub submit_admitted : ThreadPool → End → Option ThreadPool
unfolding put
submit_admitted p task =
    if p.admitted == 0
    then none
    else some
        record p { admitted = p.admitted - 1; pending = suc p.pending; queue = put p.queue task }

taken : ThreadPool → ℕ → Outcome (End × Queue End) → Option ThreadPool
taken p i waits = none
taken p i closed = some record p { workers = set p.workers i gone }
taken p i (returns (task, queue)) =
    some record p { queue = queue; workers = set p.workers i (working task) }

-- One step of thread `i` in `run`: `take`, or the rest of the wrapped task. `--pending_` comes
-- after the call, so not where it throws.
unfoldable pub run : ThreadPool → ℕ → Worker → Option ThreadPool
unfolding taken take
run p i idle = taken p i (take p.queue)
run p i (working completes) =
    some record p { workers = set p.workers i idle; pending = sub_size p.pending 1 }
run p i (working throws) = some record p { workers = set p.workers i gone }
run p i gone = none

-- The destructor up to its joins.
unfoldable pub close : ThreadPool → ThreadPool
unfolding shutdown
close p = record p { queue = shutdown p.queue }

pub data Event : Type 0 where
  -- A thread calls `trySubmit`, and one that passed its test goes on.
  tests : Event
  submits : End → Event
  steps : ℕ → Event
  closes : Event

unfoldable pub step : ThreadPool → Event → Option ThreadPool
unfolding try_submit submit_admitted run close
step p tests = if leb p.callers p.admitted then none else some (try_submit p).1
step p (submits task) = submit_admitted p task
step p (steps i) = do w ← get_elem? p.workers i; run p i w
step p closes = some (close p)

unfoldable pub execute : ThreadPool → List Event → Option ThreadPool
unfolding step
execute p [] = some p
execute p (e ∷ es) = do q ← step p e; execute q es
