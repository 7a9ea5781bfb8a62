-- ===== src/TcpServer/Dealing.antt =====
-- From the constructor through `setThreadNum` and `start`: which loop each connection is given.
use moban.TcpServer.{
  TcpConnection, TcpServer, History, Event, accepts, removes, create, set_thread_num, start,
  conn_name, without, step, execute,
}
use moban.TcpServer.Connections.{Descending, IsValid, accepts-IsValid, removes-IsValid}
use moban.TcpServer.Steps.{made, accepts_lem, removes_lem}
use moban.EventLoop.RoundRobin
use moban.EventLoop.RoundRobin.{
  EventLoopThreadPool, get_next_loop, after_calls, deal, running, get_next_loop-deal,
}
use moban.Prelude.{
  ℕ, zero, suc, ◌+◌, ◌≤◌, ◌<◌, ◌≡◌, refl, ap, ◌∙◌, subst, true, inl, inr, some, List, [], ◌∷◌,
  Bytes, length, arith,
}

-- Each connection has the number `k + 1` for some `k`, and the loop that is due at the call number `k`.
pub Dealt :
    (name hostport : Bytes) (base : ℕ) (start_loop : ℕ → ℕ) (n : ℕ) → List TcpConnection → Type 0
Dealt name hostport base f n [] = Unit
Dealt name hostport base f n (c ∷ cs) =
    ((k : ℕ) × (c.name ≡ conn_name name hostport (suc k)) × (c.io_loop ≡ some (deal base f n k)))
    × Dealt name hostport base f n cs

module _ (name hostport : Bytes) (short : length hostport ≤ 21) (base : ℕ) (f : ℕ → ℕ) (n : ℕ) where
  Dealt-without :
      (i : ℕ) (cs : List TcpConnection)
      → Dealt name hostport base f n cs
      → Dealt name hostport base f n (without i cs)
  unfolding Dealt without
  Dealt-without i [] d = tt
  Dealt-without zero (c ∷ cs) (x, d) = d
  Dealt-without (suc i) (c ∷ cs) (x, d) = (x, Dealt-without i cs d)

  InTurn : History → Type 0
  InTurn h =
      (k : ℕ) × (h.server.next_conn_id ≡ suc k)
      × (h.server.thread_pool ≡ after_calls k (running base f n))
      × Dealt name hostport base f n h.alive

  accepts-InTurn :
      (h h' : History) (sockfd : ℕ)
      → h.server.next_conn_id < 1000000000
      → IsValid name hostport short h
      → step h (accepts sockfd) ≡ some h'
      → InTurn h
      → InTurn h'
  unfolding IsValid InTurn Dealt after_calls
  accepts-InTurn h h' sockfd b (en, eh, ec, d) e (k, ek, ep, ds) =
      let named_so : (made h sockfd).name ≡ conn_name name hostport (suc k) =
        rw en (rw eh (rw ek refl)) in
      let due : (made h sockfd).io_loop ≡ some (deal base f n k) =
        ap (λ p. (get_next_loop p).0) ep ∙ get_next_loop-deal base n k f in
      subst InTurn (accepts_lem h h' sockfd b e)
        (suc k, ap suc ek, ap (λ p. (get_next_loop p).1) ep, ((k, named_so, due), ds))

  removes-InTurn : (h h' : History) (i : ℕ) → step h (removes i) ≡ some h' → InTurn h → InTurn h'
  unfolding InTurn
  removes-InTurn h h' i e (k, ek, ep, ds) = elim (removes_lem h h' i e) [
    | inl same ↦ subst InTurn same (k, ek, ep, ds)
    | inr (c, there, same) ↦ subst InTurn same (k, ek, ep, Dealt-without i h.alive ds)
  ]

  run :
      (es : List Event) (h : History)
      → h.server.next_conn_id + length es < 1000000000
      → IsValid name hostport short h
      → InTurn h
      → (h' : History) × (execute h es ≡ some h') × InTurn h'
  unfolding execute
  run [] h b v t = (h, refl, t)
  run (accepts fd ∷ es) h b v t =
      let (h1, e1, v1, l) = accepts-IsValid name hostport short h fd (omega arith) v in
      rw e1 (run es h1 (omega arith) v1 (accepts-InTurn h h1 fd (omega arith) v e1 t))
  run (removes i ∷ es) h b v t =
      let (h1, e1, v1, l) = removes-IsValid name hostport short h i (omega arith) v in
      rw e1 (run es h1 (omega arith) v1 (removes-InTurn h h1 i e1 t))

-- A server that was told to have `n` threads starts them and listens, and a second `start` changes
-- nothing. After any connections and removals, fewer than 999999999, each one in the map has the number
-- `k + 1` for some `k` and the loop of the thread number `k % n`, or the loop of the server if `n` is 0.
-- The text of the server's address has at most 21 characters.
pub start-Dealt :
    (name hostport : Bytes) (base n : ℕ) (start_loop : ℕ → ℕ) (es : List Event)
    → length hostport ≤ 21
    → length es < 999999999
    → (s : TcpServer) × (h : History) × (start start_loop
          (set_thread_num n (create name hostport (RoundRobin.create base)))
        ≡ some s)
      × (start start_loop s ≡ some s)
      × (s.listening ≡ true)
      × (execute record { server = s; alive = [] } es ≡ some h)
      × Dealt name hostport base start_loop n h.alive
unfolding create set_thread_num start RoundRobin.create RoundRobin.set_thread_num RoundRobin.start
    IsValid Descending InTurn Dealt after_calls
start-Dealt name hostport base n f es short few =
    let s : TcpServer = record {
      name = name;
      hostport = hostport;
      thread_pool = running base f n;
      started = true;
      listening = true;
      next_conn_id = 1;
      connections = [];
      calls = [];
    } in
    let (h, e, (k, ek, ep, ds)) =
      run name hostport short base f n es record { server = s; alive = [] } (omega arith)
        (refl, refl, refl, tt) (0, refl, refl, tt) in
    (s, h, refl, refl, refl, e, ds)
