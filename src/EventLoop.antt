-- ===== src/EventLoop.antt =====
-- plugins/Muduo/muduo/net/EventLoop.cpp: the loop, the functors that wait for it, and the wakeups.
-- A functor is a number. The calls of other threads come between the steps of the loop, and such a
-- thread adds its functor and wakes the loop in two steps.
pub mod Wakeups
pub mod Order
pub mod RoundRobin
pub mod Thread
pub mod Turn
pub mod Tests
use moban.Prelude.{
  ℕ, zero, suc, ◌+◌, ◌-◌, ◌==◌, Bool, true, false, Option, none, some, List, [], ◌∷◌, ◌++◌, ◌>>=◌,
  if◌then◌else◌,
}

-- Outside `loop`, in `poll`, in the handlers of the active channels, or in `doPendingFunctors`
-- with the functors that it took and has not run.
pub data Phase : Type 0 where
  outside : Phase
  polling : Phase
  handling : Phase
  running : List ℕ → Phase

pub record EventLoop : Type 0 where
  pub phase : Phase
  pub quit : Bool
  pub started : Bool
  pub calling_pending_functors : Bool
  pub pending_functors : List ℕ
  -- The count of the event descriptor, and the threads that still have to write to it.
  pub wakeup_fd : ℕ
  pub wakers : ℕ
  -- The functors queued so far and those run, in order.
  pub queued : List ℕ
  pub executed : List ℕ

unfoldable pub create : EventLoop
create = record {
  phase = outside;
  quit = false;
  started = false;
  calling_pending_functors = false;
  pending_functors = [];
  wakeup_fd = 0;
  wakers = 0;
  queued = [];
  executed = [];
}

-- `while (!quit_)`
unfoldable pub test_quit : EventLoop → EventLoop
test_quit l = record l { phase = if l.quit then outside else polling }

unfoldable pub enter_loop : EventLoop → EventLoop
unfolding test_quit
enter_loop l = test_quit record l { quit = if l.started then false else l.quit; started = true }

unfoldable pub push : EventLoop → ℕ → EventLoop
push l cb = record l {
  pending_functors = l.pending_functors ++ cb ∷ [];
  queued = l.queued ++ cb ∷ [];
}

-- `queueInLoop` in the thread of the loop.
unfoldable pub queue_in_loop : EventLoop → ℕ → EventLoop
unfolding push
queue_in_loop l cb =
    let l' = push l cb in
    if l.calling_pending_functors then record l' { wakeup_fd = suc l.wakeup_fd } else l'

-- `queueInLoop` and `quit` in another thread, up to the wakeup.
unfoldable pub queue_from_outside : EventLoop → ℕ → EventLoop
unfolding push
queue_from_outside l cb = record (push l cb) { wakers = suc l.wakers }

unfoldable pub quit_from_outside : EventLoop → EventLoop
quit_from_outside l = record l { quit = true; wakers = suc l.wakers }

unfoldable pub wakeup : EventLoop → EventLoop
wakeup l = record l { wakeup_fd = suc l.wakeup_fd; wakers = l.wakers - 1 }

-- `doPendingFunctors` up to its loop.
unfoldable pub swap_functors : EventLoop → EventLoop
swap_functors l = record l {
  calling_pending_functors = true;
  phase = running l.pending_functors;
  pending_functors = [];
}

unfoldable pub end_functors : EventLoop → EventLoop
unfolding test_quit
end_functors l = test_quit record l { calling_pending_functors = false }

pub data Event : Type 0 where
  -- The thread of the loop calls `loop`, returns from `poll`, reads the event descriptor as one of
  -- the handlers, goes on to the functors, runs one, or ends them.
  enters : Event
  polled : Event
  reads : Event
  swaps : Event
  runs : Event
  ends : Event
  -- A handler or a functor calls `queueInLoop` or `quit`; or the thread does before `loop`.
  queues : ℕ → Event
  quits : Event
  queues_early : ℕ → Event
  -- Another thread queues a functor, quits, or wakes the loop.
  queues_other : ℕ → Event
  quits_other : Event
  wakes : Event

-- `none` is an event that cannot come in the phase.
step_in : Phase → EventLoop → Event → Option EventLoop
step_in outside l enters = some (enter_loop l)
step_in outside l (queues_early cb) = some (queue_in_loop l cb)
step_in polling l polled = some record l { phase = handling }
step_in handling l reads = some record l { wakeup_fd = 0 }
step_in handling l swaps = some (swap_functors l)
step_in handling l (queues cb) = some (queue_in_loop l cb)
step_in handling l quits = some record l { quit = true }
step_in (running (f ∷ fs)) l runs =
    some record l { phase = running fs; executed = l.executed ++ f ∷ [] }
step_in (running []) l ends = some (end_functors l)
step_in (running fs) l (queues cb) = some (queue_in_loop l cb)
step_in (running fs) l quits = some record l { quit = true }
step_in p l (queues_other cb) = some (queue_from_outside l cb)
step_in p l quits_other = some (quit_from_outside l)
step_in p l wakes = if l.wakers == 0 then none else some (wakeup l)
step_in p l e = none

unfoldable pub step : EventLoop → Event → Option EventLoop
unfolding step_in enter_loop queue_in_loop queue_from_outside quit_from_outside wakeup swap_functors
    end_functors
step l e = step_in l.phase l e

unfoldable pub execute : EventLoop → List Event → Option EventLoop
unfolding step
execute l [] = some l
execute l (e ∷ es) = do m ← step l e; execute m es
