-- ===== src/Connector.antt =====
-- plugins/Muduo/muduo/net/Connector.cpp, in the thread of its loop: the socket that is being
-- connected, the retries, and the work that is left with the loop.
pub mod Laws
pub mod Tests
use moban.Prelude.{
  ℕ, suc, ◌+◌, ◌-◌, ◌*◌, ◌==◌, Bool, true, false, ◌||◌, Option, none, some, List, [], ◌∷◌, ◌++◌,
  ◌>>=◌, ltb, if◌then◌else◌,
}

pub data States : Type 0 where
  disconnected : States
  connecting_state : States
  connected : States

pub record Connector : Type 0 where
  pub connect : Bool
  pub state : States
  pub retry_delay_ms : ℕ
  -- The socket of `channel_`, and whether the poller watches it.
  pub channel : Option ℕ
  pub watched : Bool
  -- The timers that will call `startInLoop`, and the queued calls of `resetChannel`.
  pub timers : ℕ
  pub resets : ℕ
  -- The sockets created, closed, and given to `newConnectionCallback_`.
  pub created : List ℕ
  pub closed : List ℕ
  pub handed : List ℕ

abbrev pub init_retry_delay_ms : ℕ
init_retry_delay_ms = 500

abbrev pub max_retry_delay_ms : ℕ
max_retry_delay_ms = 30000

unfoldable pub create : Connector
create = record {
  connect = false;
  state = disconnected;
  retry_delay_ms = init_retry_delay_ms;
  channel = none;
  watched = false;
  timers = 0;
  resets = 0;
  created = [];
  closed = [];
  handed = [];
}

unfoldable pub next_delay : ℕ → ℕ
next_delay d = if ltb (d * 2) max_retry_delay_ms then d * 2 else max_retry_delay_ms

unfoldable pub retry : Connector → ℕ → Connector
unfolding next_delay
retry c sockfd =
    let c' : Connector = record c { closed = sockfd ∷ c.closed; state = disconnected } in
    if c.connect
    then record c' { timers = suc c.timers; retry_delay_ms = next_delay c.retry_delay_ms }
    else c'

-- `none` is a failed assertion.
abbrev with_no_channel : Option ℕ → Connector → Option Connector
with_no_channel none c = some c
with_no_channel (some fd) c = none

unfoldable pub connecting : Connector → ℕ → Option Connector
connecting c sockfd =
    with_no_channel c.channel
      record c { state = connecting_state; channel = some sockfd; watched = true }

-- How `connect` sorts the values of `errno`, here of Linux: EINPROGRESS and EISCONN; then EAGAIN,
-- EADDRINUSE, EADDRNOTAVAIL, ECONNREFUSED and ENETUNREACH.
abbrev pub is_under_way : ℕ → Bool
is_under_way e = e == 0 || e == 115 || e == 106

abbrev pub is_retried : ℕ → Bool
is_retried e = e == 11 || e == 98 || e == 99 || e == 111 || e == 101

-- `sockfd` is the new socket, and `save_error` is zero or `errno` after `connect`.
unfoldable pub do_connect : Connector → (sockfd save_error : ℕ) → Option Connector
unfolding connecting retry
do_connect c sockfd save_error =
    let c' : Connector = record c { created = sockfd ∷ c.created } in
    if is_under_way save_error
    then connecting c' sockfd
    else some (
        if is_retried save_error
        then retry c' sockfd
        else record c' { closed = sockfd ∷ c'.closed })

abbrev is_disconnected : States → Bool
is_disconnected disconnected = true
is_disconnected connecting_state = false
is_disconnected connected = false

unfoldable pub start_in_loop : Connector → (sockfd save_error : ℕ) → Option Connector
unfolding do_connect
start_in_loop c sockfd save_error =
    if is_disconnected c.state
    then (if c.connect then do_connect c sockfd save_error else some c)
    else none

unfoldable pub start : Connector → (sockfd save_error : ℕ) → Option Connector
unfolding start_in_loop
start c sockfd save_error =
    if c.connect then some c else start_in_loop record c { connect = true } sockfd save_error

unfoldable pub restart : Connector → (sockfd save_error : ℕ) → Option Connector
unfolding start_in_loop
restart c sockfd save_error =
    start_in_loop
      record c { state = disconnected; retry_delay_ms = init_retry_delay_ms; connect = true } sockfd
      save_error

-- The channel stays until the loop runs `resetChannel`.
unfoldable pub remove_and_reset_channel : Connector → Option (ℕ × Connector)
remove_and_reset_channel c = do
  sockfd ← c.channel
  some (sockfd, record c { watched = false; resets = suc c.resets })

unfoldable pub reset_channel : Connector → Connector
reset_channel c = record c { channel = none; resets = c.resets - 1 }

stop_in_state : States → Connector → Option Connector
stop_in_state disconnected c = some c
stop_in_state connecting_state c = do
  r ← remove_and_reset_channel record c { state = disconnected }
  some record r.1 { closed = r.0 ∷ (r.1).closed }
stop_in_state connected c = some c

unfoldable pub stop : Connector → Option Connector
unfolding stop_in_state remove_and_reset_channel
stop c = stop_in_state c.state record c { connect = false }

-- `SO_ERROR` of the socket, and whether it is connected to itself.
handle_write_in_state : States → Connector → ℕ → Bool → Option Connector
handle_write_in_state disconnected c so_error is_self = some c
handle_write_in_state connected c so_error is_self = none
handle_write_in_state connecting_state c so_error is_self = do
  r ← remove_and_reset_channel c
  let c' : Connector = record r.1 { state = connected }
  some (
      if so_error == 0
      then (if is_self
          then retry r.1 r.0
          else if c.connect
          then record c' { handed = r.0 ∷ c'.handed }
          else record c' { closed = r.0 ∷ c'.closed })
      else retry r.1 r.0)

unfoldable pub handle_write : Connector → ℕ → Bool → Option Connector
unfolding handle_write_in_state remove_and_reset_channel retry
handle_write c so_error is_self = handle_write_in_state c.state c so_error is_self

handle_error_in_state : States → Connector → Option Connector
handle_error_in_state disconnected c = none
handle_error_in_state connected c = none
handle_error_in_state connecting_state c = do r ← remove_and_reset_channel c; some (retry r.1 r.0)

unfoldable pub handle_error : Connector → Option Connector
unfolding handle_error_in_state remove_and_reset_channel retry
handle_error c = handle_error_in_state c.state c
