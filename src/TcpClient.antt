-- ===== src/TcpClient.antt =====
-- plugins/Muduo/muduo/net/TcpClient.cpp, in the thread of its loop: the connection that a client has,
-- over the Connector that makes it. What the client asks of its connections is recorded, in order.
pub mod Histories
pub mod Phases
pub mod Laws
pub mod Reconnect
pub mod Tests
use moban.Prelude.{
  ℕ, suc, ◌==◌, Bool, true, false, ◌&&◌, Option, none, some, List, [], ◌∷◌, ◌++◌, if◌then◌else◌,
  Bytes, take, ltb, length,
}
use moban.Connector.{Connector}
use moban.Connector
use moban.TcpServer.Names.{id_text}

-- A connection: its number tells the objects apart.
pub record TcpConnection : Type 0 where
  pub number : ℕ
  pub name : Bytes
  pub sockfd : ℕ

pub data Call : Type 0 where
  connect_established : TcpConnection → Call
  shutdown : TcpConnection → Call
  connect_destroyed : TcpConnection → Call
  -- The close callback no longer refers to the client.
  set_close_callback : TcpConnection → Call
  force_close : TcpConnection → Call
  -- A timer of one second holds the connector.
  keep_connector : Call

pub record TcpClient : Type 0 where
  pub connector : Connector
  pub name : Bytes
  pub retry : Bool
  pub connect : Bool
  pub next_conn_id : ℕ
  pub connection : Option TcpConnection
  pub calls : List Call

-- An assertion fails in the connector or in the client, or the number of connections overflows.
pub data Result (A : Type 0) : Type 0 where
  ok : A → Result A
  connector_fails : Result A
  client_fails : Result A
  overflows : Result A

infixl 5 ◌>>=◌
abbrev pub ◌>>=◌ : {A B : Type 0} → Result A → (A → Result B) → Result B
ok a >>= f = f a
connector_fails >>= f = connector_fails
client_fails >>= f = client_fails
overflows >>= f = overflows

unfoldable pub create : Bytes → TcpClient
unfolding Connector.create
create name = record {
  connector = Connector.create;
  name = name;
  retry = false;
  connect = false;
  next_conn_id = 1;
  connection = none;
  calls = [];
}

-- What the connector has done.
unfoldable pub with_connector : TcpClient → Option Connector → Result TcpClient
with_connector c none = connector_fails
with_connector c (some k) = ok record c { connector = k }

unfoldable pub call : TcpClient → Call → TcpClient
call c k = record c { calls = c.calls ++ k ∷ [] }

-- `connect`; the last two are the new socket and the answer of `connect(2)`, if one is made.
unfoldable pub start : TcpClient → (sockfd save_error : ℕ) → Result TcpClient
unfolding with_connector
start c sockfd save_error =
    with_connector (record c { connect = true }) (Connector.start c.connector sockfd save_error)

shutdown_if : Option TcpConnection → TcpClient → TcpClient
unfolding call
shutdown_if none c = c
shutdown_if (some conn) c = call c (shutdown conn)

unfoldable pub disconnect : TcpClient → TcpClient
unfolding shutdown_if
disconnect c = shutdown_if c.connection (record c { connect = false })

unfoldable pub stop : TcpClient → Result TcpClient
unfolding with_connector
stop c = with_connector (record c { connect = false }) (Connector.stop c.connector)

unfoldable pub enable_retry : TcpClient → TcpClient
enable_retry c = record c { retry = true }

abbrev pub int32_max : ℕ
int32_max = 2147483647

-- `newConnection`: the name has the text of the peer's address and the number, cut to `buf`.
unfoldable pub new_connection :
    TcpClient → (sockfd : ℕ) → (peer : Bytes) → Result (TcpClient × TcpConnection)
unfolding call
new_connection c sockfd peer =
    let conn : TcpConnection = record {
      number = c.next_conn_id;
      name = c.name ++ take 31 (peer ++ b'#' ∷ id_text c.next_conn_id);
      sockfd = sockfd;
    } in
    let c' : TcpClient = record c { next_conn_id = suc c.next_conn_id; connection = some conn } in
    if c.next_conn_id == int32_max then overflows else ok (call c' (connect_established conn), conn)

is_same : Option TcpConnection → TcpConnection → Bool
is_same none conn = false
is_same (some old) conn = old.number == conn.number

-- `removeConnection`; the last two are for `connect(2)`, if the connector is started again.
unfoldable pub remove_connection :
    TcpClient → TcpConnection → (sockfd save_error : ℕ) → Result TcpClient
unfolding is_same call with_connector
remove_connection c conn sockfd save_error =
    let c' = call (record c { connection = none }) (connect_destroyed conn) in
    let again = with_connector c' (Connector.restart c'.connector sockfd save_error) in
    if is_same c.connection conn
    then if c.retry && c.connect then again else ok c'
    else client_fails

destroy_with : Option TcpConnection → Bool → TcpClient → Result TcpClient
unfolding call with_connector
destroy_with (some conn) unique c =
    let c' = call c (set_close_callback conn) in
    ok (if unique then call c' (force_close conn) else c')
destroy_with none unique c = with_connector (call c keep_connector) (Connector.stop c.connector)

-- `~TcpClient`: whether the client has the last reference to its connection.
unfoldable pub destroy : TcpClient → (unique : Bool) → Result TcpClient
unfolding destroy_with
destroy c unique = destroy_with c.connection unique c

take_over : TcpClient → List ℕ → (peer : Bytes) → Result (TcpClient × Option TcpConnection)
unfolding new_connection
take_over c [] peer = ok (c, none)
take_over c (sockfd ∷ rest) peer = do r ← new_connection c sockfd peer; ok (r.0, some r.1)

connector_wrote :
    TcpClient → Option Connector → (peer : Bytes) → Result (TcpClient × Option TcpConnection)
unfolding take_over
connector_wrote c none peer = connector_fails
connector_wrote c (some k) peer =
    let c' : TcpClient = record c { connector = k } in
    if ltb (length c.connector.handed) (length k.handed)
    then take_over c' k.handed peer
    else ok (c', none)

-- The connector's channel is writable. Its constructor argument `newConnectionCallback_` is the
-- client's `newConnection`, which it calls with the socket that it hands over.
unfoldable pub handle_write :
    TcpClient
    → (so_error : ℕ) → (is_self : Bool) → (peer : Bytes) → Result (TcpClient × Option TcpConnection)
unfolding connector_wrote
handle_write c so_error is_self peer =
    connector_wrote c (Connector.handle_write c.connector so_error is_self) peer
