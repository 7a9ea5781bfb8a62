-- ===== src/Connection/Life.antt =====
-- TcpConnection.cpp: the life of a connection, from `connectEstablished` to `connnectDestroyed`. The
-- poller reports only what the kernel watches, and the loop runs the functors in order.
pub mod Channels
pub mod Quiet
pub mod Protocol
pub mod Invariant
pub mod Open
pub mod Ended
pub mod Polled
pub mod Laws
pub mod Tests
use moban.Connection.{
  Connection, Functor, Written, Call, connection_callback, create, connect_established,
  connect_destroyed, handle_close,
}
use moban.Connection.Transfer.{send, shutdown, force_close, handle_read, handle_write, run_functor}
use moban.Buffer.{ReadvResult}
use moban.Channel.{
  Events, Ready, Callback, close_callback, error_callback, read_callback, write_callback,
  handle_event,
}
use moban.Prelude.{
  not, ◌&&◌, ◌||◌, ℕ, Bool, true, false, Option, none, some, List, [], ◌∷◌, Bytes, ◌>>=◌,
  if◌then◌else◌,
}

-- What the user may call: `send` in the thread of the loop or in another, the rest in the thread of the loop.
-- `shutdown` and `forceClose` test the state and then set it without a lock, so a call of theirs in another
-- thread, where the loop may close the connection in between, is not one step.
pub data UserCall : Type 0 where
  sends : (in_loop : Bool) → Bytes → Written → UserCall
  shuts : UserCall
  forces : UserCall
  sets_write_complete : UserCall
  sets_high_water : ℕ → UserCall

pub data Event : Type 0 where
  -- The poller reports the bits, with what a read and a write then give, and what the user calls
  -- when told of the message.
  polled : Ready → ReadvResult → Written → List UserCall → Event
  -- The loop runs the first functor that waits.
  runs : Written → Event
  -- The user calls something between the events.
  calls : UserCall → Event
  -- The owner lets go of the connection.
  destroys : Event

-- `setWriteCompleteCallback` and `setHighWaterMarkCallback`.
unfoldable pub set_write_complete_callback : Connection → Connection
set_write_complete_callback c = record c { on_write_complete = true }

unfoldable pub set_high_water_mark_callback : Connection → ℕ → Connection
set_high_water_mark_callback c n = record c { on_high_water = true; high_water = n }

unfoldable pub act : Connection → UserCall → Option Connection
unfolding set_write_complete_callback set_high_water_mark_callback
act c (sends in_loop message w) = send in_loop c message w
act c shuts = some (shutdown true c)
act c forces = some (force_close c)
act c sets_write_complete = some (set_write_complete_callback c)
act c (sets_high_water n) = some (set_high_water_mark_callback c n)

unfoldable pub act_all : Connection → List UserCall → Option Connection
act_all c [] = some c
act_all c (u ∷ us) = do c' ← act c u; act_all c' us

-- The bits that epoll reports of an entry: those it asks for, an error or a hang-up. `KReadEvent`
-- does not ask for POLLRDHUP, and epoll does not report POLLNVAL.
unfoldable pub reported : Option Events → Ready → Bool
reported none r = false
reported (some e) r =
    (not r.pollin || e.reading)
    && ((not r.pollpri || e.reading)
        && ((not r.pollout || e.writing) && (not r.pollrdhup && not r.pollnval)))

-- The callbacks that the constructor gives the channel.
unfoldable pub dispatch :
    List Callback → Connection → ReadvResult → Written → List UserCall → Option Connection
dispatch [] c r w us = some c
dispatch (close_callback ∷ ks) c r w us = do c' ← handle_close c; dispatch ks c' r w us
dispatch (error_callback ∷ ks) c r w us = dispatch ks c r w us
dispatch (read_callback ∷ ks) c r w us = do
  c' ← handle_read c r
  c'' ← act_all c' us
  dispatch ks c'' r w us
dispatch (write_callback ∷ ks) c r w us = do c' ← handle_write c w; dispatch ks c' r w us

unfoldable pub run_first : Connection → List Functor → Written → Option Connection
unfolding run_functor
run_first c [] w = some c
run_first c (f ∷ fs) w = run_functor (record c { pending = fs }) f w

-- `none` is a failed assertion.
unfoldable pub step : Connection → Event → Option Connection
unfolding reported dispatch run_first act_all act
step c (polled b r w us) =
    if reported c.channel.watched b then dispatch (handle_event true true b) c r w us else some c
step c (runs w) = run_first c c.pending w
step c (calls u) = act c u
step c destroys = connect_destroyed c

unfoldable pub execute : Connection → List Event → Option Connection
unfolding step
execute c [] = some c
execute c (e ∷ es) = do c' ← step c e; execute c' es

-- A connection from its beginning.
unfoldable pub live : List Event → Option Connection
unfolding execute
live es = do c ← connect_established create; execute c es
