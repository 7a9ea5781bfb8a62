-- ===== src/TcpClient/Histories.antt =====
-- A client over time. An event is one round of the loop: a handler or a call, and then the functors
-- that wait, which are the connector's `resetChannel`.
use moban.Connector.{Connector}
use moban.Connector
use moban.TcpClient.{
  TcpConnection, TcpClient, Result, ok, ◌>>=◌, with_connector, start, disconnect, stop,
  enable_retry, remove_connection, handle_write,
}
use moban.Prelude.{ℕ, ◌-◌, ◌==◌, Bool, Option, none, some, List, [], ◌∷◌, Bytes, if◌then◌else◌}

pub data Event : Type 0 where
  starts : (sockfd save_error : ℕ) → Event
  disconnects : Event
  stops : Event
  enables_retry : Event
  writable : (so_error : ℕ) → (is_self : Bool) → (peer : Bytes) → Event
  fails : Event
  -- A timer of the connector.
  fires : (sockfd save_error : ℕ) → Event
  -- The first connection that has not closed does.
  closes : (sockfd save_error : ℕ) → Event

-- The client, and its connections that have not closed.
pub record History : Type 0 where
  pub client : TcpClient
  pub alive : List TcpConnection

unfoldable pub flush : TcpClient → TcpClient
unfolding Connector.reset_channel
flush c =
    let k = c.connector in
    record c { connector = if k.resets == 0 then k else Connector.reset_channel k }

unfoldable pub stay : List TcpConnection → Result TcpClient → Result History
unfolding flush
stay cs r = do c ← r; ok record { client = flush c; alive = cs }

with_arrived : Option TcpConnection → List TcpConnection → List TcpConnection
with_arrived none cs = cs
with_arrived (some conn) cs = conn ∷ cs

unfoldable pub arrive :
    List TcpConnection → Result (TcpClient × Option TcpConnection) → Result History
unfolding flush with_arrived
arrive cs r = do p ← r; ok record { client = flush p.0; alive = with_arrived p.1 cs }

unfoldable pub fire : TcpClient → (sockfd save_error : ℕ) → Result TcpClient
unfolding with_connector Connector.start_in_loop
fire c sockfd save_error =
    let k = c.connector in
    let started =
      with_connector c
        (Connector.start_in_loop (record k { timers = k.timers - 1 }) sockfd save_error) in
    if k.timers == 0 then ok c else started

unfoldable pub close_first :
    TcpClient → List TcpConnection → (sockfd save_error : ℕ) → Result History
unfolding stay remove_connection
close_first c [] sockfd save_error = ok record { client = c; alive = [] }
close_first c (conn ∷ cs) sockfd save_error = stay cs (remove_connection c conn sockfd save_error)

-- The poller reports events of a watched socket only.
unfoldable pub step : History → Event → Result History
unfolding stay arrive fire close_first start disconnect stop enable_retry handle_write
    with_connector
step h (starts sockfd save_error) = stay h.alive (start h.client sockfd save_error)
step h disconnects = stay h.alive (ok (disconnect h.client))
step h stops = stay h.alive (stop h.client)
step h enables_retry = stay h.alive (ok (enable_retry h.client))
step h (writable so_error is_self peer) =
    if h.client.connector.watched
    then arrive h.alive (handle_write h.client so_error is_self peer)
    else ok h
step h fails =
    if h.client.connector.watched
    then stay h.alive (with_connector h.client (Connector.handle_error h.client.connector))
    else ok h
step h (fires sockfd save_error) = stay h.alive (fire h.client sockfd save_error)
step h (closes sockfd save_error) = close_first h.client h.alive sockfd save_error

unfoldable pub execute : History → List Event → Result History
unfolding step
execute h [] = ok h
execute h (e ∷ es) = do h' ← step h e; execute h' es
