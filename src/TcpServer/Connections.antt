-- ===== src/TcpServer/Connections.antt =====
-- The map of connections against the connections whose removal has not run.
use moban.TcpServer.{
  TcpConnection, History, Event, accepts, removes, create, erase, count, conn_name, accepted,
  removed, int_max, new_connection, remove_connection_in_loop, at, without, step, execute, entry,
}
use moban.TcpServer.Names.{
  equals, equals_refl, equals_sound, id_text, id_text-injective, length-id_text,
}
use moban.EventLoop.RoundRobin.{EventLoopThreadPool, get_next_loop}
use moban.Prelude.{
  ℕ, zero, suc, ◌+◌, ◌≤◌, ◌<◌, ◌==◌, ◌≡◌, ◌≢◌, refl, sym, ap, ◌∙◌, subst, true, false, Bool-cases,
  Option-cases, inl, inr, some, List, [], ◌∷◌, ◌++◌, map, Bytes, length, length-append, take-all,
  drop, drop-append, arith,
}

append_cancel : (xs ys zs : Bytes) → xs ++ ys ≡ xs ++ zs → ys ≡ zs
append_cancel xs ys zs h =
    sym (drop-append (length xs) xs ys refl)
    ∙ ap (drop (length xs)) h
    ∙ drop-append (length xs) xs zs refl

module _ (name hostport : Bytes) (short : length hostport ≤ 21) where
  uncut :
      (id : ℕ)
      → id < 1000000000
      → conn_name name hostport id ≡ name ++ (hostport ++ b':' ∷ id_text id)
  unfolding conn_name
  uncut id h =
      ap (λ t. name ++ t)
        (take-all 31 (hostport ++ b':' ∷ id_text id)
          (omega (arith, length-append hostport (b':' ∷ id_text id), length-id_text id h)))

  conn_name-injective :
      (a b : ℕ)
      → a < 1000000000
      → b < 1000000000
      → conn_name name hostport a ≡ conn_name name hostport b
      → a ≡ b
  conn_name-injective a b ha hb h =
      let whole : name ++ (hostport ++ b':' ∷ id_text a) ≡ name ++ (hostport ++ b':' ∷ id_text b) =
        sym (uncut a ha) ∙ h ∙ uncut b hb in
      let texts = append_cancel hostport _ _ (append_cancel name _ _ whole) in
      id_text-injective a b ha hb (ap (drop 1) texts)

  pub differ :
      (a b : ℕ)
      → a ≢ b
      → a < 1000000000
      → b < 1000000000
      → equals (conn_name name hostport a) (conn_name name hostport b) ≡ false
  differ a b ne ha hb =
      elim (Bool-cases (equals (conn_name name hostport a) (conn_name name hostport b))) [
        | inl e ↦ absurd (ne (conn_name-injective a b ha hb (equals_sound _ _ e)))
        | inr e ↦ e
      ]

  -- Connections with the numbers below `n` that go down, each with the name of its number.
  unfoldable pub Descending : ℕ → List TcpConnection → Type 0
  Descending n [] = Unit
  Descending n (c ∷ cs) =
      (id : ℕ) × (c.name ≡ conn_name name hostport id) × (id < n) × Descending id cs

  raise : (m n : ℕ) (cs : List TcpConnection) → m ≤ n → Descending m cs → Descending n cs
  unfolding Descending
  raise m n [] l d = tt
  raise m n (c ∷ cs) l (id, e, below, d) = (id, e, omega arith, d)

  absent :
      (id n : ℕ) (cs : List TcpConnection)
      → n ≤ id
      → id < 1000000000
      → Descending n cs
      → (count (conn_name name hostport id) (map entry cs) ≡ 0)
        × (erase (conn_name name hostport id) (map entry cs) ≡ map entry cs)
  unfolding Descending count erase
  absent id n [] l b d = (refl, refl)
  absent id n (c ∷ cs) l b (i, e, below, d) =
      let no : equals (conn_name name hostport id) c.name ≡ false =
        ap (equals (conn_name name hostport id)) e ∙ differ id i (omega arith) b (omega arith) in
      let rest = absent id i cs (omega arith) b d in rw no (rest.0, ap (λ t. entry c ∷ t) rest.1)

  Removed : ℕ → ℕ → List TcpConnection → TcpConnection → Type 0
  Removed n i cs c =
      (id : ℕ) × (c.name ≡ conn_name name hostport id)
      × (id < n)
      × (count c.name (map entry cs) ≡ 1)
      × (erase c.name (map entry cs) ≡ map entry (without i cs))
      × Descending n (without i cs)

  present :
      (n i : ℕ) (cs : List TcpConnection) (c : TcpConnection)
      → n ≤ 1000000000
      → Descending n cs
      → at i cs ≡ some c
      → Removed n i cs c
  unfolding Removed Descending count erase at without
  present n i [] c b d h = absurd (ground arith)
  present n zero (x ∷ cs) c b (id, e, below, d) h =
      let gone : (count x.name (map entry cs) ≡ 0) × (erase x.name (map entry cs) ≡ map entry cs) =
        rw e (absent id id cs (omega arith) (omega arith) d) in
      let same : x ≡ c = cc in
      let yes = equals_refl x.name in
      subst (Removed n zero (x ∷ cs)) same
        (id, e, below, rw yes (ap suc gone.0), rw yes gone.1, raise id n cs (omega arith) d)
  present n (suc i) (x ∷ cs) c b (id, e, below, d) h =
      let (j, ej, lower, one, rest, d') = present id i cs c (omega arith) d h in
      let no : equals c.name x.name ≡ false =
        rw ej (rw e (differ j id (omega arith) (omega arith) (omega arith))) in
      (j, ej, omega arith, rw no one, rw no (ap (λ t. entry x ∷ t) rest), (id, e, below, d'))

  -- The map has exactly the connections whose removal has not run, under the names of their numbers.
  unfoldable pub IsValid : History → Type 0
  IsValid h =
      (h.server.name ≡ name)
      × (h.server.hostport ≡ hostport)
      × (h.server.connections ≡ map entry h.alive)
      × Descending h.server.next_conn_id h.alive

  abbrev pub Steps : History → Event → Type 0
  Steps h e =
      (h' : History) × (step h e ≡ some h')
      × IsValid h'
      × (h'.server.next_conn_id ≤ suc h.server.next_conn_id)

  pub accepts-IsValid :
      (h : History) (sockfd : ℕ)
      → h.server.next_conn_id < 1000000000
      → IsValid h
      → Steps h (accepts sockfd)
  unfolding IsValid step new_connection accepted Descending
  accepts-IsValid h sockfd b (en, eh, ec, d) =
      let id = h.server.next_conn_id in
      let conn : TcpConnection = record {
        name = conn_name h.server.name h.server.hostport id;
        sockfd = sockfd;
        io_loop = (get_next_loop h.server.thread_pool).0;
      } in
      let no : (id == int_max) ≡ false = ground arith in
      let gone : erase (conn_name h.server.name h.server.hostport id) h.server.connections
          ≡ map entry h.alive =
        rw en (rw eh (rw ec (absent id id h.alive (omega arith) b d).1)) in
      rw no (
        _,
        refl,
        (en, eh, ap (λ t. entry conn ∷ t) gone, (id, rw en (rw eh refl), omega arith, d)),
        omega arith,
      )

  pub removes-IsValid :
      (h : History) (i : ℕ) → h.server.next_conn_id < 1000000000 → IsValid h → Steps h (removes i)
  unfolding IsValid Removed step removed remove_connection_in_loop
  removes-IsValid h i b (en, eh, ec, d) = elim (Option-cases (at i h.alive)) [
    | inl e ↦ rw e (h, refl, (en, eh, ec, d), omega arith)
    | inr (c, e) ↦
        let (j, ej, lower, one, rest, d') =
          present h.server.next_conn_id i h.alive c (omega arith) d e in
        let once : (count c.name h.server.connections == 1) ≡ true = rw ec (rw one refl) in
        let gone : erase c.name h.server.connections ≡ map entry (without i h.alive) = rw ec rest in
        rw e (rw once (_, refl, (en, eh, gone, d'), omega arith))
  ]

  run :
      (es : List Event) (h : History)
      → h.server.next_conn_id + length es < 1000000000
      → IsValid h
      → (h' : History) × (execute h es ≡ some h') × IsValid h'
  unfolding execute
  run [] h b v = (h, refl, v)
  run (accepts fd ∷ es) h b v =
      let (h1, e1, v1, l) = accepts-IsValid h fd (omega arith) v in
      rw e1 (run es h1 (omega arith) v1)
  run (removes i ∷ es) h b v =
      let (h1, e1, v1, l) = removes-IsValid h i (omega arith) v in
      rw e1 (run es h1 (omega arith) v1)

-- When the text of a server's address has at most 21 characters and fewer than 999999999 events come:
-- whatever connections come and are removed, in whatever order, `assert(n == 1)` does not fail, and in
-- the end the map has exactly the connections whose removal has not run, each under its name.
pub execute-Exact :
    (name hostport : Bytes) (pool : EventLoopThreadPool) (es : List Event)
    → length hostport ≤ 21
    → length es < 999999999
    → (h : History) × (execute record { server = create name hostport pool; alive = [] } es
        ≡ some h)
      × (h.server.connections ≡ map entry h.alive)
unfolding create IsValid Descending
execute-Exact name hostport pool es short few =
    let fresh : History = record { server = create name hostport pool; alive = [] } in
    let (h, e, v) = run name hostport short es fresh (omega arith) (refl, refl, refl, tt) in
    (h, e, v.2)
