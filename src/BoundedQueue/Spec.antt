-- ===== src/BoundedQueue/Spec.antt =====
-- What a bounded blocking queue promises, over the plain list of its values, oldest first.
use moban.Prelude.{
  ℕ, Bool, true, false, Option, none, some, List, [], ◌∷◌, ◌++◌, ◌==◌, if◌then◌else◌, length,
}
use moban.BoundedQueue.{Outcome, waits, returns}

pub record Fifo {ℓ} (T : Type ℓ) : Type ℓ where
  pub values : List T
  pub stopped : Bool

module _ {ℓ} {T : Type ℓ} where
  unfoldable pub stop : Fifo T → Fifo T
  stop f = record f { stopped = true }

  -- `push` on a stopped queue returns, and the value is dropped.
  unfoldable pub push : ℕ → Fifo T → T → Outcome (Fifo T)
  push cap f x =
      if f.stopped
      then returns f
      else if length f.values == cap
      then waits
      else returns (record f { values = f.values ++ x ∷ [] })

  unfoldable pub try_push : ℕ → Fifo T → T → Bool × Fifo T
  try_push cap f x =
      if f.stopped
      then (false, f)
      else if length f.values == cap
      then (false, f)
      else (true, record f { values = f.values ++ x ∷ [] })

  take_first : List T → Bool → Outcome (Option T × Fifo T) → Outcome (Option T × Fifo T)
  take_first [] stopped empty = empty
  take_first (x ∷ xs) stopped empty = returns (some x, record { values = xs; stopped = stopped })

  -- A stopped queue gives no value, also where it still holds some.
  unfoldable pub pop : Fifo T → Outcome (Option T × Fifo T)
  unfolding take_first
  pop f = if f.stopped then returns (none, f) else take_first f.values f.stopped waits

  unfoldable pub try_pop_for : Fifo T → Bool → Outcome (Option T × Fifo T)
  unfolding take_first
  try_pop_for f expired =
      if f.stopped
      then returns (none, f)
      else take_first f.values f.stopped (if expired then returns (none, f) else waits)
