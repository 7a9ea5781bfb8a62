-- ===== src/Connection.antt =====
-- plugins/Muduo/muduo/net/TcpConnection.cpp: one connection, in the thread of its loop. What
-- `::write` answers is an argument; what the kernel has taken is kept in `wire`, and the callbacks
-- that are called in `calls`.
pub mod Transfer
pub mod Stream
pub mod Drain
pub mod Histories
pub mod Life
pub mod Tests
use moban.Prelude.{
  ℕ, ◌+◌, ◌-◌, Bool, true, false, not, ◌&&◌, ◌||◌, Bytes, Option, none, some, List, [], ◌∷◌, ◌++◌,
  ◌==◌, leb, ltb, if◌then◌else◌, length, take, drop, ◌>>=◌,
}
use moban.Buffer.{
  Buffer, new, append, retrieve, retrieve_all, retrieve_all_as_string, readable_bytes, read_fd,
  ReadvResult,
}
use moban.Buffer.Layout.{contents}
use moban.Channel.{Channel}
use moban.Channel

-- `KDisconnected`, `KConnecting`, `KConnected`, `KDisconnecting`.
pub data State : Type 0 where
  disconnected : State
  connecting : State
  connected : State
  disconnecting : State

-- What waits in the queue of the loop.
pub data Functor : Type 0 where
  write_complete : Functor
  high_water_mark : ℕ → Functor
  send_in_loop : Bytes → Functor
  shutdown_in_loop : Functor
  force_close_in_loop : Functor

-- What the connection calls at once: the user's callbacks, its owner's, and the socket's shutdown.
pub data Call : Type 0 where
  connection_callback : State → Call
  message_callback : Call
  close_callback : Call
  shutdown_write : Call

pub data Errno : Type 0 where
  would_block : Errno
  broken_pipe : Errno
  connection_reset : Errno
  other_error : Errno

-- The answer of `::write`: the bytes taken, 0 where it returns 0 or less, and `errno`.
pub record Written : Type 0 where
  pub count : ℕ
  pub errno : Errno

pub record Connection : Type 0 where
  pub state : State
  pub channel : Channel
  pub input : Buffer
  pub output : Buffer
  pub high_water : ℕ
  pub on_write_complete : Bool
  pub on_high_water : Bool
  pub pending : List Functor
  pub calls : List Call
  pub wire : Bytes

unfoldable pub create : Connection
unfolding Channel.create
create = record {
  state = connecting;
  channel = Channel.create;
  input = new;
  output = new;
  high_water = 0;
  on_write_complete = false;
  on_high_water = false;
  pending = [];
  calls = [];
  wire = [];
}

unfoldable pub is_connected : Connection → Bool
is_connected c = elim c.state [
  | connected ↦ true
  | disconnected ↦ false
  | connecting ↦ false
  | disconnecting ↦ false
]

unfoldable pub is_disconnected : Connection → Bool
is_disconnected c = elim c.state [
  | disconnected ↦ true
  | connected ↦ false
  | connecting ↦ false
  | disconnecting ↦ false
]

-- Connected, or disconnecting.
unfoldable pub is_open : Connection → Bool
is_open c = elim c.state [
  | connected ↦ true
  | disconnecting ↦ true
  | connecting ↦ false
  | disconnected ↦ false
]

is_connecting : Connection → Bool
is_connecting c = elim c.state [
  | connecting ↦ true
  | connected ↦ false
  | disconnected ↦ false
  | disconnecting ↦ false
]

unfoldable pub queue_in_loop : Connection → Functor → Connection
queue_in_loop c f = record c { pending = c.pending ++ f ∷ [] }

unfoldable pub call : Connection → Call → Connection
call c k = record c { calls = c.calls ++ k ∷ [] }

unfoldable pub set_state : Connection → State → Connection
set_state c s = record c { state = s }

-- `connectEstablished`; `none` where an assertion fails.
unfoldable pub connect_established : Connection → Option Connection
unfolding is_connecting set_state call
connect_established c =
    if is_connecting c
    then (do
      ch ← Channel.enable_reading c.channel
      some (call (record c { state = connected; channel = ch }) (connection_callback connected)))
    else none

unfoldable pub connect_destroyed : Connection → Option Connection
unfolding is_connected call
connect_destroyed c = do
  c' ←
      if is_connected c
      then (do
        ch ← Channel.disable_all c.channel
        some (
            call (record c { state = disconnected; channel = ch })
              (connection_callback disconnected)))
      else some c
  ch ← Channel.remove c'.channel
  some (record c' { channel = ch })

unfoldable pub handle_close : Connection → Option Connection
unfolding is_open call
handle_close c =
    if is_open c
    then (do
      ch ← Channel.disable_all c.channel
      some (
          call
            (call (record c { state = disconnected; channel = ch })
              (connection_callback disconnected))
            close_callback))
    else none

unfoldable pub shutdown_loop : Connection → Connection
unfolding call
shutdown_loop c = if Channel.is_writing c.channel then c else call c shutdown_write
