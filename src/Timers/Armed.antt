-- ===== src/Timers/Armed.antt =====
-- Timers.antt: the timer descriptor fires in time for every waiting timer.
use moban.Prelude.{
  ℕ, ◌≤◌, ◌<◌, ◌≡◌, refl, true, false, Bool-cases, inl, inr, some, List, [], ◌∷◌, if◌then◌else◌,
  arith, sym, ◌∙◌, subst, Option-cases, ◌+◌, ltb,
}
use moban.Pairs.{PairList, count, contains, place, count-place, count-erase}
use moban.Pairs.Order.{IsAscending}
use moban.Timers.{
  Timer, Heap, TimerQueue, find_timer, earliest_changed, insert, same_size, add_timer,
  add_timer_in_loop, create_timer, cancel_in_loop, arm_next, reset, Action, adds, cancels, act,
  handle_read, Interval,
}
use moban.Timers.Invariant.{IsValid, IsWaiting-timers, IsFresh}
use moban.Timers.Handler.{rearm-IsValid, handle_read-reset}

-- All times are after the epoch.
abbrev pub IsTimely : TimerQueue → Type 0
IsTimely q = (w a : ℕ) → 0 < count w a q.timers → 0 < w

-- The time, or 100 microseconds from now, if that is later.
abbrev pub at_least_soon : ℕ → ℕ → ℕ
at_least_soon clock w = if ltb w (clock + 100) then clock + 100 else w

-- The descriptor is set to fire no later than any timer is due, or than in 100 microseconds.
abbrev pub IsArmed : TimerQueue → Type 0
IsArmed q =
    (w a : ℕ)
    → 0 < count w a q.timers
    → (d : ℕ) × (q.timerfd ≡ some d) × (d ≤ at_least_soon q.clock w)

head-le :
    (w a : ℕ) (s : PairList)
    → IsAscending ((w, a) ∷ s)
    → (x y : ℕ) → 0 < count x y ((w, a) ∷ s)
    → w ≤ x
unfolding IsAscending count
head-le w a s v x y h = ground (arith, v.0 x y)

earliest-le :
    (when : ℕ) (s : PairList)
    → IsAscending s
    → earliest_changed when s ≡ true
    → (x y : ℕ) → 0 < count x y s
    → when ≤ x
unfolding count
earliest-le when [] v h x y k = absurd (omega arith)
earliest-le when ((w, a) ∷ s) v h x y k = ground (arith, head-le w a s v x y)

not_earliest :
    (when : ℕ) (s : PairList)
    → earliest_changed when s ≡ false
    → (w : ℕ) × (a : ℕ) × (0 < count w a s) × (w ≤ when)
unfolding count
not_earliest when [] h = absurd (ground arith)
not_earliest when ((w, a) ∷ s) h = (w, a, ground arith, ground arith)

arm_next-timers :
    (q : TimerQueue) (s : PairList) {r : TimerQueue}
    → arm_next q s ≡ some r
    → (r.timers ≡ q.timers) × (r.clock ≡ q.clock)
unfolding arm_next
arm_next-timers q [] e = (ground arith, ground arith)
arm_next-timers q ((w, a) ∷ s) e = (ground arith, ground arith)

arm_next-timerfd :
    (q : TimerQueue) (w a : ℕ) (s : PairList) {t : Timer} {r : TimerQueue}
    → find_timer a q.heap ≡ some t
    → t.expiration ≡ w
    → 0 < w
    → arm_next q ((w, a) ∷ s) ≡ some r
    → r.timerfd ≡ some (at_least_soon q.clock w)
unfolding arm_next
arm_next-timerfd q w a s there at_w pos e = ground arith

arm_next-IsArmed :
    (q : TimerQueue) (s : PairList) {r : TimerQueue}
    → s ≡ q.timers
    → IsValid q []
    → IsTimely q
    → arm_next q s ≡ some r
    → IsArmed r
unfolding count
arm_next-IsArmed q [] {r} e v timely h x y k =
    let kept = (arm_next-timers q [] h).0 ∙ sym e in
    absurd (omega (arith, subst (λ l. 0 < count x y l) kept k))
arm_next-IsArmed q ((w, a) ∷ s) {r} e v timely h x y k =
    let here : 0 < count w a q.timers = rw (← e) (ground arith) in
    let found = IsWaiting-timers (find_timer a q.heap) w (v.owned a) here in
    let kept = (arm_next-timers q ((w, a) ∷ s) h).0 ∙ sym e in
    let clock = (arm_next-timers q ((w, a) ∷ s) h).1 in
    let first =
      head-le w a s (subst IsAscending (sym e) v.ordered) x y
        (subst (λ l. 0 < count x y l) kept k) in
    (
      at_least_soon q.clock w,
      arm_next-timerfd q w a s found.1.live found.2 (timely w a here) h,
      ground (arith, first, clock),
    )

-- What `reset` leaves is armed.
reset-IsArmed :
    (q : TimerQueue) (now : ℕ) (p : PairList) {r : TimerQueue}
    → IsValid q p
    → reset q now p ≡ some r
    → IsTimely r
    → IsArmed r
unfolding reset
reset-IsArmed q now p {r} v e timely =
    let done = rearm-IsValid q now p v in
    let last : arm_next done.0 done.0.timers ≡ some r = ground (arith, done.1) in
    let kept = (arm_next-timers done.0 done.0.timers last).0 in
    arm_next-IsArmed done.0 done.0.timers refl done.2 (λ w a k. timely w a (rw kept k)) last

-- No timer is forgotten: after `handleRead` the descriptor is set to fire at the latest when the
-- first of the waiting timers is due, or in 100 microseconds if that is later, whatever the callbacks
-- did, if all times are after the epoch.
pub handle_read-IsArmed :
    (malloc : Heap → ℕ)
    → IsFresh malloc
    → (callback : ℕ → List Action) (q : TimerQueue) (now : ℕ) (r : TimerQueue) → IsValid q []
    → handle_read malloc callback q now ≡ some r
    → IsTimely r
    → IsArmed r
handle_read-IsArmed malloc fresh callback q now r v e =
    let last = handle_read-reset malloc fresh callback q now v in
    reset-IsArmed last.0 now last.1 last.2 (sym (last.3) ∙ e)

cancel_in_loop-timerfd :
    (q : TimerQueue) (a n : ℕ) {r : TimerQueue}
    → cancel_in_loop q a n ≡ some r
    → (r.timerfd ≡ q.timerfd)
      × ((x y : ℕ) → count x y r.timers ≤ count x y q.timers)
      × (r.clock ≡ q.clock)
unfolding cancel_in_loop same_size
cancel_in_loop-timerfd q a n {r} e = elim (Option-cases (find_timer a q.heap)) [
  | inl gone ↦ (ground (arith, gone), λ x y. ground (arith, gone), ground (arith, gone))
  | inr (t, there) ↦ (
    ground (arith, there),
    λ x y. ground (arith, there, count-erase x y t.expiration a q.timers),
    ground (arith, there),
  )
]

-- An added timer takes the descriptor over if it is due before all others.
add_timer-timerfd :
    (malloc : Heap → ℕ) (q : TimerQueue) (when : ℕ) (interval : Interval) {i : ℕ × ℕ}
    {r : TimerQueue}
    → add_timer malloc q when interval ≡ some (i, r)
    → (r.timerfd
        ≡ (if earliest_changed when q.timers then some (at_least_soon q.clock when) else q.timerfd))
      × (r.timers ≡ place when (malloc q.heap) q.timers)
      × (r.clock ≡ q.clock)
unfolding add_timer add_timer_in_loop insert same_size create_timer find_timer
add_timer-timerfd malloc q when interval e = (ground arith, ground arith, ground arith)

add_timer-IsArmed :
    (q : TimerQueue) (when a : ℕ)
    → IsAscending q.timers
    → IsArmed q
    → (x y : ℕ) → 0 < count x y (place when a q.timers)
    → (d : ℕ) × ((if earliest_changed when q.timers
          then some (at_least_soon q.clock when)
          else q.timerfd)
        ≡ some d)
      × (d ≤ at_least_soon q.clock x)
add_timer-IsArmed q when a v armed x y k =
    let split = count-place x y when a q.timers in
    elim (Bool-cases (earliest_changed when q.timers)) [
      | inl first ↦ rw first (
        at_least_soon q.clock when,
        refl,
        ground (arith, split, earliest-le when q.timers v first x y),
      )
      | inr later ↦ rw later (elim (Bool-cases (contains x y q.timers)) [
        | inl old ↦ armed x y (ground arith)
        | inr new ↦
            let head = not_earliest when q.timers later in
            let set = armed head.0 head.1 head.2 in
            (set.0, set.1, ground (arith, set.2, head.3, split))
      ])
    ]

-- Adding and cancelling timers keeps the descriptor armed in time.
pub act-IsArmed :
    (malloc : Heap → ℕ) (q : TimerQueue) (action : Action) (r : TimerQueue)
    → IsValid q []
    → IsArmed q
    → act malloc q action ≡ some r
    → IsArmed r
unfolding act
act-IsArmed malloc q (adds when interval) r v armed e x y k =
    elim (Option-cases (add_timer malloc q when interval)) [
      | inl bad ↦ absurd (ground (arith, bad))
      | inr ((i, r'), good) ↦
          let added = add_timer-timerfd malloc q when interval good in
          let same : r' ≡ r = ground (arith, good) in
          let k' : 0 < count x y r'.timers = rw same k in
          let set =
            add_timer-IsArmed q when (malloc q.heap) v.ordered armed x y (rw (← added.1) k') in
          (set.0, rw (← same) (added.0 ∙ set.1), rw (← same) (rw (added.2) set.2))
    ]
act-IsArmed malloc q (cancels a n) r v armed e x y k =
    let kept = cancel_in_loop-timerfd q a n e in
    let set = armed x y (omega (arith, k, kept.1 x y)) in (set.0, kept.0 ∙ set.1, rw (kept.2) set.2)
