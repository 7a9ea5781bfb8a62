-- ===== src/BoundedQueue.antt =====
-- deps/common/base/bounded_blocking_queue.h: a ring of fixed size under one mutex. Each function is
-- what runs under the lock; a wait on a condition variable is an outcome of its own.
pub mod Spec
pub mod Refines
pub mod Histories
pub mod Tests
use moban.Prelude.{
  ℕ, ◌+◌, ◌-◌, ◌%◌, Bool, true, false, not, ◌&&◌, ◌||◌, Option, none, some, List, ◌==◌,
  if◌then◌else◌, add_size, sub_size, get_elem?, set, replicate,
}

pub record Queue {ℓ} (T : Type ℓ) : Type ℓ where
  pub buffer : List T
  pub max_size : ℕ
  pub size : ℕ
  pub front : ℕ
  pub back : ℕ
  pub stopped : Bool

-- A call either sleeps, with the lock given back, or returns.
pub data Outcome {ℓ} (A : Type ℓ) : Type ℓ where
  waits : Outcome A
  returns : A → Outcome A

module _ {ℓ} {T : Type ℓ} where
  -- `buffer_.resize(max_size_)` fills the ring with default values.
  unfoldable pub create : T → ℕ → Queue T
  create zero_value max_size = record {
    buffer = replicate max_size zero_value;
    max_size = max_size;
    size = 0;
    front = 0;
    back = 0;
    stopped = false;
  }

  abbrev pub is_empty_locked : Queue T → Bool
  is_empty_locked q = q.size == 0

  abbrev pub is_full_locked : Queue T → Bool
  is_full_locked q = q.size == q.max_size

  unfoldable pub stop : Queue T → Queue T
  stop q = record q { stopped = true }

  emplace_internal : Queue T → T → Queue T
  emplace_internal q value = record q {
    buffer = set q.buffer q.back value;
    back = add_size q.back 1 % q.max_size;
    size = add_size q.size 1;
  }

  -- `none` is a read out of range, which the invariant rules out.
  pop_internal : Queue T → Option T × Queue T
  pop_internal q = (
    get_elem? q.buffer q.front,
    record q { front = add_size q.front 1 % q.max_size; size = sub_size q.size 1 },
  )

  -- The queue after the call; the call returns nothing.
  unfoldable pub push : Queue T → T → Outcome (Queue T)
  unfolding emplace_internal
  push q value =
      if not (is_full_locked q) || q.stopped
      then returns (if q.stopped then q else emplace_internal q value)
      else waits

  unfoldable pub try_push : Queue T → T → Bool × Queue T
  unfolding emplace_internal
  try_push q value =
      if is_full_locked q || q.stopped then (false, q) else (true, emplace_internal q value)

  unfoldable pub pop : Queue T → Outcome (Option T × Queue T)
  unfolding pop_internal
  pop q =
      if not (is_empty_locked q) || q.stopped
      then returns (if q.stopped then (none, q) else pop_internal q)
      else waits

  -- At the deadline, or when woken before it: `expired` says which.
  unfoldable pub try_pop_for : Queue T → Bool → Outcome (Option T × Queue T)
  unfolding pop_internal
  try_pop_for q expired =
      if not (is_empty_locked q) || q.stopped
      then returns (if q.stopped then (none, q) else pop_internal q)
      else if expired
      then returns (none, q)
      else waits

-- A client's call, and what it sees of it.
pub data Call {ℓ} (T : Type ℓ) : Type ℓ where
  pushes : T → Call T
  try_pushes : T → Call T
  pops : Call T
  try_pops_for : Bool → Call T
  stops : Call T

pub data Reply {ℓ} (T : Type ℓ) : Type ℓ where
  sleeping : Reply T
  done : Reply T
  accepted : Bool → Reply T
  value : Option T → Reply T
