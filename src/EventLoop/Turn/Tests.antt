-- ===== src/EventLoop/Turn/Tests.antt =====
-- A turn of the loop where a channel takes itself away, and the theorem there.
use moban.EventLoop.Turn.{Poller, contains, Operation, updates, removes, turn, poll, remove_channel}
use moban.EventLoop.Turn.Handled.{found, Disturbed, turn-Handled}
use moban.Prelude.{
  ℕ, ◌<◌, ◌≡◌, ◌⊎◌, ◌++◌, ◌==◌, if◌then◌else◌, refl, false, none, some, List, [], ◌∷◌, arith,
  length,
}

abbrev poller : Poller
poller = record {
  events_size = 2;
  channels = 5 ∷ 6 ∷ 7 ∷ [];
  active_channels = [];
  current_active_channel = none;
  event_handling = false;
  handled = [];
}

abbrev ready : List ℕ
ready = 6 ∷ 5 ∷ []

-- 6 takes itself away and adds 9; 5 takes away 7, which is not active.
abbrev handler : ℕ → List Operation
handler c = if c == 6 then removes 6 ∷ updates 9 ∷ [] else removes 7 ∷ []

turn-Handled_example :
    ((q : Poller) × (turn poller (some ready) handler ≡ some q)
      × (q.handled ≡ poller.handled ++ found ready)
      × (length ready < q.events_size))
    ⊎ ((turn poller (some ready) handler ≡ none) × Disturbed ready ready handler)
unfolding contains
turn-Handled_example =
    turn-Handled poller ready handler (omega arith) (omega arith) (refl, (refl, tt))
      (refl, (refl, tt))

-- A handler that takes away a channel which is still to be handled is stopped.
stopped : turn poller (some ready) (λ c. removes 5 ∷ []) ≡ none
unfolding turn poll remove_channel
stopped = refl
