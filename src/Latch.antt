-- ===== src/Latch.antt =====
-- deps/common/base/count_down_latch.h: each function is what runs under the lock; a wait is an
-- outcome of its own. `wait_for` sleeps with a deadline.
pub mod Laws
use moban.Prelude.{
  ℕ, zero, suc, ◌-◌, ◌==◌, Bool, true, false, Option, none, some, if◌then◌else◌, ℤ, pos, negsuc,
}

pub record CountDownLatch : Type 0 where
  pub count : ℕ
  -- The threads that sleep in `wait` have been notified.
  pub notified : Bool

-- `none` is `invalid_argument`.
unfoldable pub create : ℤ → Option CountDownLatch
create (pos n) = some record { count = n; notified = false }
create (negsuc n) = none

unfoldable pub count_down : CountDownLatch → CountDownLatch
count_down l =
    if l.count == 0
    then l
    else let count = l.count - 1 in
      if count == 0 then record l { count = count; notified = true } else record l { count = count }

-- Whether `wait` returns rather than sleeps.
unfoldable pub wait : CountDownLatch → Bool
wait l = l.count == 0

-- `none` is a sleep; at the deadline the result says whether the count is zero.
unfoldable pub wait_for : CountDownLatch → Bool → Option Bool
wait_for l expired = if l.count == 0 then some true else if expired then some false else none

unfoldable pub get_count : CountDownLatch → ℕ
get_count l = l.count
