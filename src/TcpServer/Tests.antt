-- ===== src/TcpServer/Tests.antt =====
-- TcpServer.antt on a short history, and the theorem there.
use moban.EventLoop.RoundRobin
use moban.TcpServer.Dealing.{Dealt, start-Dealt}
use moban.Prelude.{◌≡◌, refl, Option, none, some, List, [], ◌∷◌, Bytes, codes, arith, suc, true}
use moban.EventLoop.RoundRobin.{EventLoopThreadPool, fresh, get_next_loop}
use moban.TcpServer.{
  TcpConnection, History, Event, accepts, removes, create, execute, conn_name, count, erase,
  TcpServer, start, set_thread_num,
}
use moban.TcpServer.Names.{equals, id_text, digits}

abbrev pool : EventLoopThreadPool
pool = fresh 9 2 1 (2 ∷ [])

abbrev address : Bytes
address = codes "10.0.0.1:80"

-- Three connections come, and the second and then the first are removed.
abbrev history : List Event
history = accepts 5 ∷ accepts 6 ∷ accepts 7 ∷ removes 1 ∷ removes 1 ∷ removes 4 ∷ []

abbrev third : TcpConnection
third = record { name = codes "ftp10.0.0.1:80:3"; sockfd = 7; io_loop = some 1 }

alive_of : Option History → List TcpConnection
alive_of none = []
alive_of (some h) = h.alive

only_third :
    alive_of (execute record { server = create (codes "ftp") address pool; alive = [] } history)
    ≡ third ∷ []
unfolding alive_of create execute count equals conn_name id_text digits erase get_next_loop
only_third = refl

-- With an address of 21 characters the last digit of the number 1000000000 is cut off.
names_collide :
    conn_name (codes "ftp") (codes "255.255.255.255:65535") 1000000000
    ≡ conn_name (codes "ftp") (codes "255.255.255.255:65535") 1000000001
unfolding conn_name id_text digits
names_collide = refl

start-Dealt_example :
    (s : TcpServer) × (h : History) × (start
        (λ i. suc i)
        (set_thread_num 2 (create (codes "ftp") address (RoundRobin.create 9)))
      ≡ some s)
    × (start (λ i. suc i) s ≡ some s)
    × (s.listening ≡ true)
    × (execute record { server = s; alive = [] } history ≡ some h)
    × Dealt (codes "ftp") address 9 (λ i. suc i) 2 h.alive
start-Dealt_example =
    start-Dealt (codes "ftp") address 9 2 (λ i. suc i) history (omega arith) (omega arith)
