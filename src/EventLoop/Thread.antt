-- ===== src/EventLoop/Thread.antt =====
-- plugins/Muduo/muduo/net/EventLoopThread.cpp: a thread that runs a loop on its stack, and the owner
-- that ends it. The steps of the two come in any order.
pub mod Sound
pub mod Ending
pub mod Alive
pub mod Tests
use moban.Prelude.{Bool, true, false, Option, none, some, List, [], ◌∷◌, if◌then◌else◌, ◌>>=◌}
use moban.EventLoop.{
  EventLoop, Phase, outside, polling, handling, running, enter_loop, quit_from_outside, wakeup,
}
use moban.EventLoop

-- `threadFunc`: up to `loop.loop()`, in it, or behind its end, where the loop is destroyed.
pub data ThreadPhase : Type 0 where
  starting : ThreadPhase
  looping : ThreadPhase
  returned : ThreadPhase

-- The owner, in `~EventLoopThread`: before `loop->quit()`, between its flag and its wakeup, before
-- `join`, and behind it.
pub data OwnerPhase : Type 0 where
  owning : OwnerPhase
  quitting : OwnerPhase
  joining : OwnerPhase
  joined : OwnerPhase

pub record EventLoopThread : Type 0 where
  pub thread : ThreadPhase
  pub owner : OwnerPhase
  -- `loop_` is set.
  pub published : Bool
  pub loop : EventLoop

unfoldable pub create : EventLoopThread
unfolding EventLoop.create
create = record { thread = starting; owner = owning; published = false; loop = EventLoop.create }

-- `startLoop` and the destructor wait for `loop_`; `none` while they wait.
unfoldable pub start_loop : EventLoopThread → Option EventLoop
start_loop t = if t.published then some t.loop else none

-- Whether `loop()` has come back.
unfoldable pub after_loop : Phase → ThreadPhase
after_loop outside = returned
after_loop polling = looping
after_loop handling = looping
after_loop (running fs) = looping

with_loop : EventLoopThread → EventLoop → EventLoopThread
unfolding after_loop
with_loop t l = record t { loop = l; thread = after_loop l.phase }

enter : ThreadPhase → EventLoopThread → EventLoopThread
unfolding with_loop enter_loop
enter starting t = if t.published then with_loop t (enter_loop t.loop) else t
enter looping t = t
enter returned t = t

moved : EventLoopThread → Option EventLoop → EventLoopThread
unfolding with_loop
moved t none = t
moved t (some l) = with_loop t l

move : ThreadPhase → EventLoopThread → EventLoop.Event → EventLoopThread
unfolding moved EventLoop.step
move starting t e = t
move looping t e = moved t (EventLoop.step t.loop e)
move returned t e = t

-- `none` is the use of a loop that has been destroyed.
on_loop : ThreadPhase → EventLoopThread → Option EventLoopThread
on_loop starting t = some t
on_loop looping t = some t
on_loop returned t = none

quit_by : OwnerPhase → EventLoopThread → Option EventLoopThread
unfolding on_loop quit_from_outside
quit_by owning t =
    let quit = on_loop t.thread (record t { owner = quitting; loop = quit_from_outside t.loop }) in
    if t.published then quit else some t
quit_by quitting t = some t
quit_by joining t = some t
quit_by joined t = some t

wake_by : OwnerPhase → EventLoopThread → Option EventLoopThread
unfolding on_loop wakeup
wake_by owning t = some t
wake_by quitting t = on_loop t.thread (record t { owner = joining; loop = wakeup t.loop })
wake_by joining t = some t
wake_by joined t = some t

join_by : OwnerPhase → ThreadPhase → EventLoopThread → EventLoopThread
join_by joining returned t = record t { owner = joined }
join_by o p t = t

pub data Event : Type 0 where
  -- The thread sets `loop_`, calls `loop.loop()`, or makes a step in it.
  publishes : Event
  enters : Event
  moves : EventLoop.Event → Event
  -- The owner calls `loop->quit()`, in two steps, and joins the thread.
  quits : Event
  wakes : Event
  joins : Event

-- A step that has to wait leaves the state as it is.
unfoldable pub step : EventLoopThread → Event → Option EventLoopThread
unfolding enter move quit_by wake_by join_by
step t publishes = some record t { published = true }
step t enters = some (enter t.thread t)
step t (moves e) = some (move t.thread t e)
step t quits = quit_by t.owner t
step t wakes = wake_by t.owner t
step t joins = some (join_by t.owner t.thread t)

unfoldable pub execute : EventLoopThread → List Event → Option EventLoopThread
unfolding step
execute t [] = some t
execute t (e ∷ es) = do u ← step t e; execute u es
