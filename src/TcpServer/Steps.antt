-- ===== src/TcpServer/Steps.antt =====
-- What a step of a server's history leads to.
use moban.TcpServer.{
  TcpConnection, History, accepts, removes, connect_established, connect_destroyed, conn_name,
  accepted, removed, int_max, new_connection, remove_connection_in_loop, at, without, step, entry,
  erase, count,
}
use moban.EventLoop.RoundRobin.{get_next_loop}
use moban.Prelude.{
  ℕ, suc, ◌<◌, ◌==◌, ◌≡◌, ◌⊎◌, refl, false, Bool-cases, Option-cases, inl, inr, none, some, [], ◌∷◌,
  ◌++◌, arith,
}

abbrev pub made : History → ℕ → TcpConnection
made h sockfd = record {
  name = conn_name h.server.name h.server.hostport h.server.next_conn_id;
  sockfd = sockfd;
  io_loop = (get_next_loop h.server.thread_pool).0;
}

abbrev pub after_accept : History → ℕ → History
after_accept h sockfd = record {
  server = record h.server {
    thread_pool = (get_next_loop h.server.thread_pool).1;
    next_conn_id = suc h.server.next_conn_id;
    connections = entry (made h sockfd) ∷ erase (made h sockfd).name h.server.connections;
    calls = h.server.calls ++ connect_established (made h sockfd) ∷ [];
  };
  alive = made h sockfd ∷ h.alive;
}

abbrev pub after_close : History → ℕ → TcpConnection → History
after_close h i c = record {
  server = record h.server {
    connections = erase c.name h.server.connections;
    calls = h.server.calls ++ connect_destroyed c ∷ [];
  };
  alive = without i h.alive;
}

pub accepts_lem :
    (h h' : History) (sockfd : ℕ)
    → h.server.next_conn_id < 1000000000
    → step h (accepts sockfd) ≡ some h'
    → after_accept h sockfd ≡ h'
unfolding step new_connection accepted
accepts_lem h h' sockfd b e =
    let no : (h.server.next_conn_id == int_max) ≡ false = ground arith in
    let runs : step h (accepts sockfd) ≡ some (after_accept h sockfd) = rw no refl in cc

pub removes_lem :
    (h h' : History) (i : ℕ)
    → step h (removes i) ≡ some h'
    → (h ≡ h') ⊎ ((c : TcpConnection) × (at i h.alive ≡ some c) × (after_close h i c ≡ h'))
unfolding step removed remove_connection_in_loop
removes_lem h h' i e = elim (Option-cases (at i h.alive)) [
  | inl nothing ↦ let runs : step h (removes i) ≡ some h = rw nothing refl in inl (cc)
  | inr (c, there) ↦ elim (Bool-cases (count c.name h.server.connections == 1)) [
    | inl one ↦
        let runs : step h (removes i) ≡ some (after_close h i c) = rw there (rw one refl) in
        inr (c, there, cc)
    | inr other ↦ let fails : step h (removes i) ≡ none = rw there (rw other refl) in absurd (cc)
  ]
]
