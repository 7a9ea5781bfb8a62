-- ===== src/EventLoop/Thread/Tests.antt =====
-- EventLoopThread on short histories, and the theorems there.
use moban.EventLoop.Thread.{
  returned, looping, owning, quitting, EventLoopThread, create, Event, publishes, enters, moves,
  quits, wakes, execute,
}
use moban.EventLoop.Thread.Alive.{WokenLate, execute-Alive}
use moban.EventLoop.Thread.Ending.{IsOwn, Ends, thread-Ends}
use moban.EventLoop.{polling}
use moban.EventLoop
use moban.Prelude.{◌≡◌, ◌≢◌, ◌⊎◌, refl, true, false, none, some, List, [], ◌∷◌}

-- The owner quits while the loop polls.
abbrev history : List Event
history = publishes ∷ enters ∷ quits ∷ moves EventLoop.polled ∷ []

execute-Alive_example :
    ((t : EventLoopThread) × (execute create history ≡ some t)
      × (t.owner ≡ owning → t.thread ≢ returned))
    ⊎ ((execute create history ≡ none) × WokenLate create history)
execute-Alive_example = execute-Alive history (tt, (tt, (tt, (tt, tt))))

-- The thread sees the flag before it polls, and the wakeup comes too late.
woken_late : execute create (publishes ∷ quits ∷ enters ∷ wakes ∷ []) ≡ none
unfolding execute create
woken_late = refl

abbrev asked_to_quit : EventLoopThread
asked_to_quit = record {
  thread = looping;
  owner = quitting;
  published = true;
  loop = record {
    phase = polling;
    quit = true;
    started = true;
    calling_pending_functors = false;
    pending_functors = [];
    wakeup_fd = 0;
    wakers = 1;
    queued = [];
    executed = [];
  };
}

asked_reached : execute create (publishes ∷ enters ∷ quits ∷ []) ≡ some asked_to_quit
unfolding execute create
asked_reached = refl

quitting_ne : quitting ≢ owning
quitting_ne h = cc

thread-Ends_example : (rest : List Event) × IsOwn rest × Ends asked_to_quit rest
thread-Ends_example =
    thread-Ends (publishes ∷ enters ∷ quits ∷ []) asked_to_quit asked_reached quitting_ne
