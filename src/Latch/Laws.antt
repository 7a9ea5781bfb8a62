-- ===== src/Latch/Laws.antt =====
-- Latch.antt: when the waiting threads are let go.
use moban.Prelude.{ℕ, zero, suc, ◌-◌, ◌≤◌, ◌<◌, ◌≡◌, refl, ◌↔◌, true, false, some, arith, pos}
use moban.Latch.{CountDownLatch, create, count_down, wait}

unfoldable pub times : ℕ → CountDownLatch → CountDownLatch
times zero l = l
times (suc k) l = count_down (times k l)

times_lem :
    (n k : ℕ) (l : CountDownLatch)
    → l.count ≡ n
    → l.notified ≡ false
    → ((times k l).count ≡ n - k) × (((times k l).notified ≡ true) ↔ ((0 < n) × (n ≤ k)))
unfolding times count_down
times_lem n zero l c f = (ground arith, (λ h. absurd (ground arith), λ h. absurd (omega arith)))
times_lem n (suc k) l c f =
    let (counted, told) = times_lem n k l c f in
    (
      ground (arith, counted),
      (λ h. ground (arith, counted, told.0), λ h. ground (arith, counted, told.1)),
    )

-- A latch made with a count lets its waiting threads go with exactly that many calls of
-- `count_down`, from then on for good, and notifies those that sleep just then.
pub count_down_lem :
    (n k : ℕ)
    → (l : CountDownLatch) × (create (pos n) ≡ some l)
      × ((wait (times k l) ≡ true) ↔ (n ≤ k))
      × (((times k l).notified ≡ true) ↔ ((0 < n) × (n ≤ k)))
unfolding create wait
count_down_lem n k =
    let l : CountDownLatch = record { count = n; notified = false } in
    let (counted, told) = times_lem n k l refl refl in
    (l, refl, (λ h. ground (arith, counted), λ h. ground (arith, counted)), told)
