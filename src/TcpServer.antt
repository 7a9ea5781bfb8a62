-- ===== src/TcpServer.antt =====
-- plugins/Muduo/muduo/net/TcpServer.cpp: the map of connections. What the loop of a connection gets
-- to do is recorded, in order.
pub mod Names
pub mod Connections
pub mod Calls
pub mod Stages
pub mod Steps
pub mod Dealing
pub mod Lives
pub mod Tests
use moban.Prelude.{
  ℕ, zero, suc, ◌+◌, Bool, true, false, ◌&&◌, Option, none, some, List, [], ◌∷◌, ◌++◌, ◌>>=◌,
  if◌then◌else◌, ◌==◌, Bytes, codes, take, map,
}
use moban.EventLoop.RoundRobin
use moban.EventLoop.RoundRobin.{EventLoopThreadPool, get_next_loop}
use moban.TcpServer.Names.{id_text, equals}

-- What the server reads of a connection: its name, its descriptor and the loop it was given.
pub record TcpConnection : Type 0 where
  pub name : Bytes
  pub sockfd : ℕ
  pub io_loop : Option ℕ

pub data Call : Type 0 where
  connect_established : TcpConnection → Call
  connect_destroyed : TcpConnection → Call

pub record TcpServer : Type 0 where
  pub name : Bytes
  pub hostport : Bytes
  pub thread_pool : EventLoopThreadPool
  pub started : Bool
  pub listening : Bool
  pub next_conn_id : ℕ
  pub connections : List (Bytes × TcpConnection)
  pub calls : List Call

abbrev pub entry : TcpConnection → Bytes × TcpConnection
entry c = (c.name, c)

unfoldable pub create : (name hostport : Bytes) → EventLoopThreadPool → TcpServer
create name hostport pool = record {
  name = name;
  hostport = hostport;
  thread_pool = pool;
  started = false;
  listening = false;
  next_conn_id = 1;
  connections = [];
  calls = [];
}

unfoldable pub set_thread_num : ℕ → TcpServer → TcpServer
set_thread_num n s = record s { thread_pool = RoundRobin.set_thread_num n s.thread_pool }

listen : TcpServer → TcpServer
listen s = if s.listening then s else record s { listening = true }

-- In the thread of the loop: the threads are started once, and the acceptor listens. `none` is the failure of an assertion
-- of the pool.
unfoldable pub start : (ℕ → ℕ) → TcpServer → Option TcpServer
unfolding listen
start start_loop s = if s.started then some (listen s) else (do
  p ← RoundRobin.start start_loop s.thread_pool
  some (listen (record s { started = true; thread_pool = p })))

-- `erase(key)` of the map, and the number of the elements that it takes out.
unfoldable pub erase : Bytes → List (Bytes × TcpConnection) → List (Bytes × TcpConnection)
erase key [] = []
erase key ((k, c) ∷ rest) = if equals key k then erase key rest else (k, c) ∷ erase key rest

unfoldable pub count : Bytes → List (Bytes × TcpConnection) → ℕ
count key [] = 0
count key ((k, c) ∷ rest) = if equals key k then suc (count key rest) else count key rest

-- The name of the connection number `id`: the text is cut to the 31 characters that fit into `buf`.
unfoldable pub conn_name : (name hostport : Bytes) → ℕ → Bytes
conn_name name hostport id = name ++ take 31 (hostport ++ b':' ∷ id_text id)

abbrev pub int_max : ℕ
int_max = 2147483647

-- `none` is the overflow of `nextConnId_`.
unfoldable pub new_connection : TcpServer → (sockfd : ℕ) → Option (TcpServer × TcpConnection)
new_connection s sockfd =
    let picked = get_next_loop s.thread_pool in
    let key = conn_name s.name s.hostport s.next_conn_id in
    let conn : TcpConnection = record { name = key; sockfd = sockfd; io_loop = picked.0 } in
    let s' : TcpServer = record s {
      thread_pool = picked.1;
      next_conn_id = suc s.next_conn_id;
      connections = entry conn ∷ erase key s.connections;
      calls = s.calls ++ connect_established conn ∷ [];
    } in
    if s.next_conn_id == int_max then none else some (s', conn)

-- `none` is the failure of `assert(n == 1)`.
unfoldable pub remove_connection_in_loop : TcpServer → TcpConnection → Option TcpServer
remove_connection_in_loop s conn =
    let s' : TcpServer = record s {
      connections = erase conn.name s.connections;
      calls = s.calls ++ connect_destroyed conn ∷ [];
    } in
    if count conn.name s.connections == 1 then some s' else none

-- The destructor, with the walk of `for` over the map: each connection that is left ends in its loop.
unfoldable pub destruct :
    (List (Bytes × TcpConnection) → List (Bytes × TcpConnection)) → TcpServer → TcpServer
destruct walk s = record s {
  connections = [];
  calls = s.calls ++ map (λ v. connect_destroyed v.1) (walk s.connections);
}

-- In the loop of the server: the acceptor hands over a descriptor, or the functor runs that
-- `removeConnection` gave to the loop for the connection at a place of `alive`. Between the close of a
-- connection, in its own loop, and that functor nothing here changes.
pub data Event : Type 0 where
  accepts : ℕ → Event
  removes : ℕ → Event

-- The server, and the connections whose removal has not run.
pub record History : Type 0 where
  pub server : TcpServer
  pub alive : List TcpConnection

unfoldable pub at : ℕ → List TcpConnection → Option TcpConnection
at i [] = none
at zero (c ∷ cs) = some c
at (suc i) (c ∷ cs) = at i cs

unfoldable pub without : ℕ → List TcpConnection → List TcpConnection
without i [] = []
without zero (c ∷ cs) = cs
without (suc i) (c ∷ cs) = c ∷ without i cs

unfoldable pub accepted : History → Option (TcpServer × TcpConnection) → Option History
accepted h none = none
accepted h (some (s, conn)) = some record { server = s; alive = conn ∷ h.alive }

unfoldable pub removed : History → ℕ → Option TcpConnection → Option History
unfolding remove_connection_in_loop without
removed h i none = some h
removed h i (some conn) = do
  s ← remove_connection_in_loop h.server conn
  some record { server = s; alive = without i h.alive }

-- There is nothing to remove behind the end of `alive`.
unfoldable pub step : History → Event → Option History
unfolding new_connection at accepted removed
step h (accepts sockfd) = accepted h (new_connection h.server sockfd)
step h (removes i) = removed h i (at i h.alive)

unfoldable pub execute : History → List Event → Option History
unfolding step
execute h [] = some h
execute h (e ∷ es) = do h' ← step h e; execute h' es
