-- ===== src/Timers/Tests.antt =====
-- Timers.antt on a concrete queue, and the theorems at it.
use moban.Prelude.{
  ℕ, ◌+◌, ◌≤◌, ◌<◌, ◌≡◌, refl, true, false, none, some, List, [], ◌∷◌, ◌++◌, arith, subst,
}
use moban.Pairs.{PairList, count, place, erase, before, from}
use moban.Timers.{
  Interval, Heap, TimerQueue, find_timer, delete, create, create_timer, restart, add_timer,
  get_expired, reset, Action, adds, cancels, act, handle_read,
}
use moban.Timers.Invariant.{occurrences, IsValid, IsFresh, create-IsValid, add_timer-IsValid}
use moban.Timers.Expired.{IsAddressed, get_expired-IsValid, get_expired-Due}
use moban.Timers.Handler.{handle_read-IsValid}
use moban.Timers.Renewal.{renewed, timed, reset-renewed}
use moban.Timers.Armed.{IsTimely, IsArmed, handle_read-IsArmed}

-- An allocator that never gives an address twice while it is in use.
abbrev sum_malloc : Heap → ℕ
sum_malloc [] = 1
sum_malloc ((a, t) ∷ h) = a + sum_malloc h

above_all : (a : ℕ) (h : Heap) → sum_malloc h ≤ a → find_timer a h ≡ none
unfolding find_timer
above_all a [] le = refl
above_all a ((b, t) ∷ h) le = ground (arith, above_all a h, positive h)
  where
    positive : (h : Heap) → 0 < sum_malloc h
    positive [] = omega arith
    positive ((a, t) ∷ h) = omega (arith, positive h)

sum_malloc-IsFresh : IsFresh sum_malloc
sum_malloc-IsFresh h = above_all (sum_malloc h) h (omega arith)

abbrev every_100 : Interval
every_100 = record { positive = true; micros = 100 }

abbrev once : Interval
once = record { positive = false; micros = 0 }

abbrev one : TimerQueue
one = record {
  timers = (100, 1) ∷ [];
  active_timers = (1, 1) ∷ [];
  calling_expired_timers = false;
  canceling_timers = [];
  timerfd = some 100;
  clock = 0;
  heap = (1, create_timer 100 every_100 0) ∷ [];
  num_created = 1;
}

abbrev two : TimerQueue
two = record one {
  timers = (100, 1) ∷ (200, 2) ∷ [];
  active_timers = (1, 1) ∷ (2, 2) ∷ [];
  heap = (2, create_timer 200 once 1) ∷ (1, create_timer 100 every_100 0) ∷ [];
  num_created = 2;
}

added_one : add_timer sum_malloc (create 0 0) 100 every_100 ≡ some ((1, 1), one)
unfolding add_timer create find_timer count place
added_one = refl

added_two : add_timer sum_malloc one 200 once ≡ some ((2, 2), two)
unfolding add_timer create_timer find_timer count place
added_two = refl

one-IsValid : IsValid one []
one-IsValid =
    let done =
      add_timer-IsValid sum_malloc sum_malloc-IsFresh (create 0 0) [] 100 every_100
        (create-IsValid 0 0) in
    let e : done.0 ≡ one = cc (done.1, added_one) in subst (λ q. IsValid q []) e done.2

two-IsValid : IsValid two []
two-IsValid =
    let done = add_timer-IsValid sum_malloc sum_malloc-IsFresh one [] 200 once one-IsValid in
    let e : done.0 ≡ two = cc (done.1, added_two) in subst (λ q. IsValid q []) e done.2

-- The first timer cancels the second one and itself, and adds another.
abbrev callback : ℕ → List Action
callback n = cancels 2 2 ∷ cancels 1 1 ∷ adds 300 once ∷ []

abbrev after : TimerQueue
after = record {
  timers = (300, 2) ∷ [];
  active_timers = (2, 3) ∷ [];
  calling_expired_timers = false;
  canceling_timers = (1, 1) ∷ [];
  timerfd = some 300;
  clock = 0;
  heap = (2, create_timer 300 once 2) ∷ [];
  num_created = 3;
}

handled : handle_read sum_malloc callback two 150 ≡ some after
unfolding handle_read create_timer find_timer delete count place erase before from restart
handled = refl

handle_read-IsValid_example :
    (r : TimerQueue) × (handle_read sum_malloc callback two 150 ≡ some r) × IsValid r []
handle_read-IsValid_example =
    handle_read-IsValid sum_malloc sum_malloc-IsFresh callback two 150 two-IsValid

two-IsAddressed : IsAddressed two
unfolding count
two-IsAddressed w a h = ground arith

get_expired-Due_example :
    (expired : PairList) × (r : TimerQueue) × (get_expired two 150 ≡ some (expired, r))
    × (expired ++ r.timers ≡ (100, 1) ∷ (200, 2) ∷ [])
    × ((w a : ℕ) → 0 < count w a expired → w ≤ 150)
    × ((w a : ℕ) → 0 < count w a r.timers → 150 < w)
get_expired-Due_example = get_expired-Due two 150 two-IsValid two-IsAddressed

abbrev one_expired : TimerQueue
one_expired = record two { timers = (200, 2) ∷ []; active_timers = (2, 2) ∷ [] }

taken : get_expired two 150 ≡ some ((100, 1) ∷ [], one_expired)
unfolding get_expired create_timer find_timer count erase before from
taken = refl

one_expired-IsValid : IsValid one_expired ((100, 1) ∷ [])
unfolding before
one_expired-IsValid =
    let done = get_expired-IsValid two 150 two-IsValid in
    let e : done.0 ≡ one_expired = cc (done.1, taken) in
    subst (λ q. IsValid q ((100, 1) ∷ [])) e done.2

reset-renewed_example :
    (r : TimerQueue) × (reset one_expired 150 ((100, 1) ∷ []) ≡ some r)
    × (find_timer 1 r.heap ≡ renewed 150 1 [] (create_timer 100 every_100 0))
    × ((x : ℕ) → count x 1 r.timers ≡ timed x (renewed 150 1 [] (create_timer 100 every_100 0)))
unfolding occurrences find_timer
reset-renewed_example =
    reset-renewed one_expired 150 ((100, 1) ∷ []) 1 (create_timer 100 every_100 0)
      one_expired-IsValid refl refl

after-IsTimely : IsTimely after
unfolding count
after-IsTimely w a h = ground arith

handle_read-IsArmed_example : IsArmed after
handle_read-IsArmed_example =
    handle_read-IsArmed sum_malloc sum_malloc-IsFresh callback two 150 after two-IsValid handled
      after-IsTimely

one-IsArmed : IsArmed one
unfolding count
one-IsArmed w a h = (100, refl, ground arith)

added : act sum_malloc one (adds 200 once) ≡ some two
unfolding act create_timer find_timer count place
added = refl
