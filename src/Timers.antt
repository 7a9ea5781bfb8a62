-- ===== src/Timers.antt =====
-- plugins/Muduo/muduo/net/TimerQueue.cpp and Timer.cpp, in the thread of the loop. Times are
-- microseconds since the epoch. The heap of timers is explicit, because the code frees timers and
-- an address can come back.
pub mod Invariant
pub mod Expired
pub mod Handler
pub mod Renewal
pub mod Armed
pub mod Tests
use moban.Prelude.{
  ℕ, suc, ◌+◌, ◌-◌, ◌*◌, ◌/◌, ◌%◌, ◌^◌, Bool, true, false, not, ◌&&◌, ◌||◌, Option, none, some,
  List, [], ◌∷◌, ◌>>=◌, ltb, ◌==◌, if◌then◌else◌, length,
}
use moban.Pairs.{PairList, lt_pair, count, contains, place, erase, before, from}

-- A `double` of seconds, by what the code reads of it: the test `> 0.0`, and the microseconds
-- that `add_time` adds.
pub record Interval : Type 0 where
  pub positive : Bool
  pub micros : ℕ

pub record Timer : Type 0 where
  pub expiration : ℕ
  pub interval : Interval
  pub repeat : Bool
  pub sequence : ℕ

-- The live timers by their addresses.
abbrev pub Heap : Type 0
Heap = List (ℕ × Timer)

unfoldable pub find_timer : ℕ → Heap → Option Timer
find_timer a [] = none
find_timer a ((b, t) ∷ h) = if a == b then some t else find_timer a h

unfoldable pub delete : ℕ → Heap → Heap
delete a [] = []
delete a ((b, t) ∷ h) = if a == b then delete a h else (b, t) ∷ delete a h

pub record TimerQueue : Type 0 where
  -- Entries are an expiration and an address, active timers an address and a sequence number.
  pub timers : PairList
  pub active_timers : PairList
  pub calling_expired_timers : Bool
  pub canceling_timers : PairList
  -- When the timer descriptor fires, and what is not a member: the time that `resetTimerfd` reads, the heap
  -- and `Timer::numCreated_`.
  pub timerfd : Option ℕ
  pub clock : ℕ
  pub heap : Heap
  pub num_created : ℕ

-- The queue after its construction; timers of other queues have `num_created` numbers already.
unfoldable pub create : (clock num_created : ℕ) → TimerQueue
create clock num_created = record {
  timers = [];
  active_timers = [];
  calling_expired_timers = false;
  canceling_timers = [];
  timerfd = none;
  clock = clock;
  heap = [];
  num_created = num_created;
}

unfoldable pub create_timer : ℕ → Interval → ℕ → Timer
create_timer when interval num_created = record {
  expiration = when;
  interval = interval;
  repeat = interval.positive;
  sequence = suc num_created;
}

-- `Timestamp::invalid()` is the epoch.
unfoldable pub restart : ℕ → Timer → Timer
restart now t = record t { expiration = if t.repeat then now + (t.interval).micros else 0 }

-- The microseconds of `howMuchTimeFromNow`.
abbrev pub how_much_time_from_now : ℕ → ℕ → ℕ
how_much_time_from_now when now = if ltb (when - now) 100 then 100 else when - now

-- `resetTimerfd`: the descriptor fires once the pause from the time of the clock is over.
abbrev pub reset_timerfd : TimerQueue → ℕ → TimerQueue
reset_timerfd q when = record q { timerfd = some (q.clock + how_much_time_from_now when q.clock) }

abbrev pub earliest_changed : ℕ → PairList → Bool
earliest_changed when [] = true
earliest_changed when ((w, a) ∷ s) = ltb when w

-- `assert(timers_.size() == activeTimers_.size())`; `none` is a failed assertion or a read of a
-- timer that is not live.
unfoldable pub same_size : TimerQueue → Option TimerQueue
same_size q = if length q.timers == length q.active_timers then some q else none

-- `insert`, with its two assertions on the results of the sets.
unfoldable pub insert : TimerQueue → ℕ → Timer → Option (Bool × TimerQueue)
unfolding same_size
insert q address t = do
  q ← same_size q
  let changed = earliest_changed t.expiration q.timers
  if contains t.expiration address q.timers || contains address t.sequence q.active_timers
      then none
      else (do
        q' ← same_size record q {
          timers = place t.expiration address q.timers;
          active_timers = place address t.sequence q.active_timers;
        }
        some (changed, q'))

unfoldable pub add_timer_in_loop : TimerQueue → ℕ → Option TimerQueue
unfolding insert
add_timer_in_loop q address = do
  t ← find_timer address q.heap
  r ← insert q address t
  some (if r.0 then reset_timerfd r.1 t.expiration else r.1)

-- `addTimer`: `malloc` is the allocator behind `new`. The identifier is the address with
-- the sequence number.
unfoldable pub add_timer : (Heap → ℕ) → TimerQueue → ℕ → Interval → Option ((ℕ × ℕ) × TimerQueue)
unfolding add_timer_in_loop create_timer
add_timer malloc q when interval = do
  let t = create_timer when interval q.num_created
  let address = malloc q.heap
  q' ←
      add_timer_in_loop record q { heap = (address, t) ∷ q.heap; num_created = suc q.num_created }
        address
  some ((address, t.sequence), q')

unfoldable pub cancel_in_loop : TimerQueue → ℕ → ℕ → Option TimerQueue
unfolding same_size
cancel_in_loop q address sequence = do
  q ← same_size q
  if contains address sequence q.active_timers
      then (do
        t ← find_timer address q.heap
        if count t.expiration address q.timers == 1
            then same_size record q {
              timers = erase t.expiration address q.timers;
              active_timers = erase address sequence q.active_timers;
              heap = delete address q.heap;
            }
            else none)
      else same_size (
          if q.calling_expired_timers
          then record q {
            canceling_timers =
                if contains address sequence q.canceling_timers
                then q.canceling_timers
                else place address sequence q.canceling_timers;
          }
          else q)

-- The loop of `getExpired` that takes the expired timers out of `activeTimers_`.
unfoldable pub retire : TimerQueue → PairList → Option TimerQueue
retire q [] = some q
retire q ((w, address) ∷ expired) = do
  t ← find_timer address q.heap
  if count address t.sequence q.active_timers == 1
      then retire record q { active_timers = erase address t.sequence q.active_timers } expired
      else none

-- UINTPTR_MAX
abbrev pub last_address : ℕ
last_address = 2 ^ 64 - 1

unfoldable pub get_expired : TimerQueue → ℕ → Option (PairList × TimerQueue)
unfolding same_size retire
get_expired q now = do
  q ← same_size q
  let expired = before now last_address q.timers
  q ← retire record q { timers = from now last_address q.timers } expired
  q ← same_size q
  some (expired, q)

-- The loop of `reset`.
unfoldable pub rearm : TimerQueue → ℕ → PairList → Option TimerQueue
unfolding insert restart
rearm q now [] = some q
rearm q now ((w, address) ∷ expired) = do
  t ← find_timer address q.heap
  if t.repeat && not (contains address t.sequence q.canceling_timers)
      then (do
        let t' = restart now t
        r ← insert record q { heap = (address, t') ∷ q.heap } address t'
        rearm r.1 now expired)
      else rearm record q { heap = delete address q.heap } now expired

-- The end of `reset`: a time is valid if it is after the epoch.
unfoldable pub arm_next : TimerQueue → PairList → Option TimerQueue
arm_next q [] = some q
arm_next q ((w, address) ∷ _) = do
  t ← find_timer address q.heap
  some (if ltb 0 t.expiration then reset_timerfd q t.expiration else q)

unfoldable pub reset : TimerQueue → ℕ → PairList → Option TimerQueue
unfolding rearm arm_next
reset q now expired = do q ← rearm q now expired; arm_next q q.timers

-- What the callback of a timer does to the queue.
pub data Action : Type 0 where
  adds : (when : ℕ) (interval : Interval) → Action
  cancels : (address sequence : ℕ) → Action

unfoldable pub act : (Heap → ℕ) → TimerQueue → Action → Option TimerQueue
unfolding add_timer cancel_in_loop
act malloc q (adds when interval) = do r ← add_timer malloc q when interval; some r.1
act malloc q (cancels address sequence) = cancel_in_loop q address sequence

unfoldable pub run : (Heap → ℕ) → TimerQueue → List Action → Option TimerQueue
unfolding act
run malloc q [] = some q
run malloc q (a ∷ actions) = do q ← act malloc q a; run malloc q actions

-- The loop over the expired timers; `callback` says what the callback of each one does.
unfoldable pub run_expired :
    (Heap → ℕ) → (ℕ → List Action) → TimerQueue → PairList → Option TimerQueue
unfolding run
run_expired malloc callback q [] = some q
run_expired malloc callback q ((w, address) ∷ expired) = do
  t ← find_timer address q.heap
  q ← run malloc q (callback t.sequence)
  run_expired malloc callback q expired

-- The descriptor has fired, and is armed again only by `resetTimerfd`.
unfoldable pub handle_read : (Heap → ℕ) → (ℕ → List Action) → TimerQueue → ℕ → Option TimerQueue
unfolding get_expired run_expired reset
handle_read malloc callback q now = do
  r ← get_expired record q { timerfd = none } now
  q ←
      run_expired malloc callback
        record r.1 { calling_expired_timers = true; canceling_timers = [] } r.0
  reset record q { calling_expired_timers = false } now r.0
