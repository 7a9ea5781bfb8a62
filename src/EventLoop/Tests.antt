-- ===== src/EventLoop/Tests.antt =====
-- EventLoop.antt on a short interleaving, and the theorems there.
use moban.Prelude.{ℕ, ◌≡◌, refl, true, false, some, List, [], ◌∷◌, ◌++◌}
use moban.EventLoop.{
  EventLoop, polling, create, Event, enters, polled, reads, swaps, runs, ends, queues, queues_other,
  wakes, execute,
}
use moban.EventLoop.Wakeups.{IsValid, all_timely, create-IsValid, wakeups-IsValid, left}
use moban.EventLoop.Order.{execute-IsOrdered, requested}

-- Another thread queues 1 and wakes the loop, and 1 queues 2 when it is run.
abbrev history : List Event
history = enters ∷ queues_other 1 ∷ wakes ∷ polled ∷ reads ∷ swaps ∷ runs ∷ queues 2 ∷ ends ∷ []

abbrev afterwards : EventLoop
afterwards = record {
  phase = polling;
  quit = false;
  started = true;
  calling_pending_functors = false;
  pending_functors = 2 ∷ [];
  wakeup_fd = 1;
  wakers = 0;
  queued = 1 ∷ 2 ∷ [];
  executed = 1 ∷ [];
}

reached : execute create history ≡ some afterwards
unfolding execute create
reached = refl

wakeups-IsValid_example : IsValid afterwards
unfolding all_timely
wakeups-IsValid_example = wakeups-IsValid create afterwards history refl create-IsValid reached

execute-IsOrdered_example :
    requested history
    ≡ afterwards.executed ++ (left afterwards.phase ++ afterwards.pending_functors)
execute-IsOrdered_example = execute-IsOrdered afterwards history reached

abbrev others : List ℕ
others = 12 ∷ 13 ∷ []
