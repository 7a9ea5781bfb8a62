-- ===== src/TcpServer/Lives.antt =====
-- What each connection of a server is told from its beginning to the end of the server.
use moban.TcpServer.Steps.{made, accepts_lem, removes_lem}
use moban.TcpServer.Stages.{id_name, At, accepted-Stage, closed-Stage}
use moban.TcpServer.Calls.{named}
use moban.TcpServer.{TcpConnection, History, Event, accepts, removes, step, execute}
use moban.TcpServer.Connections.{IsValid, accepts-IsValid, removes-IsValid}
use moban.Prelude.{
  ℕ, ◌+◌, ◌≤◌, ◌<◌, ◌≡◌, refl, subst, inl, inr, some, List, [], ◌∷◌, map, Bytes, length, arith,
}

-- The walk over a map meets the connections of each name as the map has them.
abbrev pub Walks : (List (Bytes × TcpConnection) → List (Bytes × TcpConnection)) → Type 0
Walks walk =
    (key : Bytes) (m : List (Bytes × TcpConnection))
    → named key (map (λ v. v.1) (walk m)) ≡ named key (map (λ v. v.1) m)

module _ (name hostport : Bytes) (short : length hostport ≤ 21) where
  abbrev Told : History → Type 0
  Told h =
      (id : ℕ)
      → 0 < id
      → id < 1000000000
      → At name hostport short id h.server.next_conn_id h.alive h.server.calls

  accepts-Told :
      (h h' : History) (sockfd : ℕ)
      → h.server.next_conn_id < 1000000000
      → IsValid name hostport short h
      → step h (accepts sockfd) ≡ some h'
      → Told h
      → Told h'
  unfolding IsValid
  accepts-Told h h' sockfd b (en, eh, ec, d) e t =
      let next = h.server.next_conn_id in
      let named_so : (made h sockfd).name ≡ id_name name hostport short next = rw en (rw eh refl) in
      subst Told (accepts_lem h h' sockfd b e) (λ id p q.
        accepted-Stage name hostport short id next (made h sockfd) h.alive h.server.calls q b
          named_so (t id p q))

  removes-Told :
      (h h' : History) (i : ℕ)
      → h.server.next_conn_id < 1000000000
      → IsValid name hostport short h
      → step h (removes i) ≡ some h'
      → Told h
      → Told h'
  unfolding IsValid
  removes-Told h h' i b (en, eh, ec, d) e t = elim (removes_lem h h' i e) [
    | inl same ↦ subst Told same t
    | inr (c, there, same) ↦ subst Told same (λ id p q.
        closed-Stage name hostport short id h.server.next_conn_id i c h.alive h.server.calls q
          (omega arith) d there (t id p q))
  ]

  run :
      (es : List Event) (h : History)
      → h.server.next_conn_id + length es < 1000000000
      → IsValid name hostport short h
      → Told h
      → (h' : History) × (execute h es ≡ some h') × IsValid name hostport short h' × Told h'
  unfolding execute
  run [] h b v t = (h, refl, v, t)
  run (accepts fd ∷ es) h b v t =
      let (h1, e1, v1, l) = accepts-IsValid name hostport short h fd (omega arith) v in
      rw e1 (run es h1 (omega arith) v1 (accepts-Told h h1 fd (omega arith) v e1 t))
  run (removes i ∷ es) h b v t =
      let (h1, e1, v1, l) = removes-IsValid name hostport short h i (omega arith) v in
      rw e1 (run es h1 (omega arith) v1 (removes-Told h h1 i (omega arith) v e1 t))
