-- ===== src/EventLoop/Turn.antt =====
-- One turn of `EventLoop::loop` in plugins/Muduo/muduo/net/EventLoop.cpp, with `poll` of
-- EpollPoller.cpp beside it: the channels that are ready are handled, and their handlers add channels
-- to the poller and take them away. A channel is a number.
pub mod Handler
pub mod Handled
pub mod Tests
use moban.Prelude.{
  ℕ, ◌+◌, ◌*◌, ◌==◌, Bool, true, false, not, ◌&&◌, ◌||◌, Option, none, some, List, [], ◌∷◌, ◌++◌,
  if◌then◌else◌, ◌>>=◌, leb, ltb, length,
}

pub record Poller : Type 0 where
  -- `events_.size()`
  pub events_size : ℕ
  pub channels : List ℕ
  pub active_channels : List ℕ
  pub current_active_channel : Option ℕ
  pub event_handling : Bool
  -- The channels that were handled, and whether the poller had them then.
  pub handled : List (ℕ × Bool)

unfoldable pub create : Poller
create = record {
  events_size = 16;
  channels = [];
  active_channels = [];
  current_active_channel = none;
  event_handling = false;
  handled = [];
}

unfoldable pub contains : ℕ → List ℕ → Bool
contains c [] = false
contains c (d ∷ ds) = c == d || contains c ds

unfoldable pub without : ℕ → List ℕ → List ℕ
without c [] = []
without c (d ∷ ds) = if c == d then without c ds else d ∷ without c ds

-- `updateChannel`, where the channel asks for something.
unfoldable pub update_channel : Poller → ℕ → Poller
unfolding contains
update_channel p c = if contains c p.channels then p else record p { channels = c ∷ p.channels }

is_current : Option ℕ → ℕ → Bool
is_current none c = false
is_current (some d) c = d == c

-- `removeChannel`; `none` where its assertion fails.
unfoldable pub remove_channel : Poller → ℕ → Option Poller
unfolding is_current contains without
remove_channel p c =
    let gone : Poller = record p { channels = without c p.channels } in
    if p.event_handling
    then (if is_current p.current_active_channel c || not (contains c p.active_channels)
        then some gone
        else none)
    else some gone

-- `fillActiveChannel`; `none` where its assertion fails.
unfoldable pub fill_active_channel : Poller → List ℕ → Option Poller
fill_active_channel p ready =
    if leb (length ready) p.events_size
    then some record p { active_channels = p.active_channels ++ ready }
    else none

-- `poll`, with the channels that `epoll_wait` reports, or `none` for its error. The list of events
-- grows where it was filled.
unfoldable pub poll : Poller → Option (List ℕ) → Option Poller
unfolding fill_active_channel
poll p none = some p
poll p (some ready) =
    let filled = do
      q ← fill_active_channel p ready
      some (
          if length ready == p.events_size then record q { events_size = p.events_size * 2 } else q)
    in if ltb 0 (length ready) then filled else some p

-- What a handler does with the poller.
pub data Operation : Type 0 where
  updates : ℕ → Operation
  removes : ℕ → Operation

unfoldable pub operate : Poller → List Operation → Option Poller
operate p [] = some p
operate p (updates c ∷ os) = operate (update_channel p c) os
operate p (removes c ∷ os) = do q ← remove_channel p c; operate q os

handle_all : Poller → List ℕ → (ℕ → List Operation) → Option Poller
handle_all p [] handler = some p
handle_all p (c ∷ cs) handler = do
  q ←
      operate
        (record p {
          current_active_channel = some c;
          handled = p.handled ++ (c, contains c p.channels) ∷ [];
        })
        (handler c)
  handle_all q cs handler

-- The turn up to `doPendingFunctors`.
unfoldable pub turn : Poller → Option (List ℕ) → (ℕ → List Operation) → Option Poller
unfolding handle_all operate
turn p answer handler = do
  q ← poll (record p { active_channels = [] }) answer
  r ← handle_all (record q { event_handling = true }) q.active_channels handler
  some record r { current_active_channel = none; event_handling = false }
