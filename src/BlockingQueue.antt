-- ===== src/BlockingQueue.antt =====
-- deps/common/base/blocking_queue.h: an unbounded queue under one mutex. Each function is what
-- runs under the lock, and a wait on the condition variable is an outcome of its own.
use moban.Prelude.{
  ℕ, Bool, true, false, Option, none, some, List, [], ◌∷◌, ◌++◌, if◌then◌else◌, length,
}

pub record Queue {ℓ} (T : Type ℓ) : Type ℓ where
  pub items : List T
  pub done : Bool

-- `closed` is the exception of `take`.
pub data Outcome {ℓ} (A : Type ℓ) : Type ℓ where
  waits : Outcome A
  closed : Outcome A
  returns : A → Outcome A

module _ {ℓ} {T : Type ℓ} where
  unfoldable pub create : Queue T
  create = record { items = []; done = false }

  unfoldable pub put : Queue T → T → Queue T
  put q value = record q { items = q.items ++ value ∷ [] }

  unfoldable pub take_front : Queue T → List T → Outcome (T × Queue T)
  take_front q [] = if q.done then closed else waits
  take_front q (value ∷ rest) = returns (value, record q { items = rest })

  unfoldable pub take : Queue T → Outcome (T × Queue T)
  unfolding take_front
  take q = take_front q q.items

  unfoldable pub try_take_front : Queue T → List T → Option T × Queue T
  try_take_front q [] = (none, q)
  try_take_front q (value ∷ rest) = (some value, record q { items = rest })

  unfoldable pub try_take : Queue T → Option T × Queue T
  unfolding try_take_front
  try_take q = try_take_front q q.items

  unfoldable pub shutdown : Queue T → Queue T
  shutdown q = record q { done = true }

  unfoldable pub size : Queue T → ℕ
  size q = length q.items

  abbrev pub is_empty : List T → Bool
  is_empty [] = true
  is_empty (value ∷ rest) = false

  unfoldable pub empty : Queue T → Bool
  empty q = is_empty q.items
