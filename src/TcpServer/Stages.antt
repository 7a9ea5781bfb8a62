-- ===== src/TcpServer/Stages.antt =====
-- How a new connection and a removal change the stages of all connections.
use moban.TcpServer.Calls.{of, named, of-other, of-same, named-without, Stage, begin, keep, finish}
use moban.TcpServer.{
  TcpConnection, Call, connect_established, connect_destroyed, conn_name, at, without,
}
use moban.TcpServer.Names.{equals, equals_refl}
use moban.TcpServer.Connections.{Descending, differ}
use moban.Prelude.{
  ℕ, zero, suc, ◌≤◌, ◌<◌, ◌==◌, ◌≡◌, ◌≢◌, refl, sym, ap, ◌∙◌, subst, true, false, Bool-cases, inl,
  inr, some, List, [], ◌∷◌, ◌++◌, Bytes, length, arith,
}

module _ (name hostport : Bytes) (short : length hostport ≤ 21) where
  abbrev pub id_name : ℕ → Bytes
  id_name id = conn_name name hostport id

  named-absent :
      (id n : ℕ) (cs : List TcpConnection)
      → n ≤ id
      → id < 1000000000
      → Descending name hostport short n cs
      → named (id_name id) cs ≡ []
  unfolding Descending named
  named-absent id n [] l b d = refl
  named-absent id n (c ∷ cs) l b (i, e, below, d) =
      let no : equals (id_name id) c.name ≡ false =
        ap (equals (id_name id)) e
        ∙ differ name hostport short id i (omega arith) b (omega arith) in
      rw no (named-absent id i cs (omega arith) b d)

  -- The connection that is removed is the only one with its name.
  Only : ℕ → ℕ → List TcpConnection → TcpConnection → Type 0
  Only n i cs c =
      (j : ℕ) × (c.name ≡ id_name j)
      × (j < n)
      × (named c.name cs ≡ c ∷ [])
      × (named c.name (without i cs) ≡ [])

  named-Only :
      (n i : ℕ) (cs : List TcpConnection) (c : TcpConnection)
      → n ≤ 1000000000
      → Descending name hostport short n cs
      → at i cs ≡ some c
      → Only n i cs c
  unfolding Only Descending named at without
  named-Only n i [] c b d h = absurd (ground arith)
  named-Only n zero (x ∷ cs) c b (id, e, below, d) h =
      let gone : named x.name cs ≡ [] =
        rw e (named-absent id id cs (omega arith) (omega arith) d) in
      let same : x ≡ c = cc in
      let yes = equals_refl x.name in
      subst (Only n zero (x ∷ cs)) same (id, e, below, rw yes (ap (λ r. x ∷ r) gone), gone)
  named-Only n (suc i) (x ∷ cs) c b (id, e, below, d) h =
      let (j, ej, lower, one, rest) = named-Only id i cs c (omega arith) d h in
      let no : equals c.name x.name ≡ false =
        rw ej (rw e (differ name hostport short j id (omega arith) (omega arith) (omega arith))) in
      (j, ej, omega arith, rw no one, rw no rest)

  abbrev pub At : ℕ → ℕ → List TcpConnection → List Call → Type 0
  At id next alive calls = Stage id next (named (id_name id) alive) (of (id_name id) calls)

  pub accepted-Stage :
      (id next : ℕ) (c : TcpConnection) (cs : List TcpConnection) (calls : List Call)
      → id < 1000000000
      → next < 1000000000
      → c.name ≡ id_name next
      → At id next cs calls
      → At id (suc next) (c ∷ cs) (calls ++ connect_established c ∷ [])
  unfolding named
  accepted-Stage id next c cs calls b bn e s = elim (Bool-cases (id == next)) [
    | inl t ↦
        let same : id ≡ next = ground arith in
        let yes : equals (id_name id) c.name ≡ true = rw (e, same) (equals_refl (id_name next)) in
        rw (yes, of-same (id_name id) calls (connect_established c) yes) (begin c same s)
    | inr t ↦
        let ne : id ≢ next = ground arith in
        let no : equals (id_name id) c.name ≡ false =
          rw e (differ name hostport short id next ne b bn) in
        rw (no, of-other (id_name id) calls (connect_established c) no) (keep ne s)
  ]

  pub closed-Stage :
      (id next i : ℕ) (c : TcpConnection) (cs : List TcpConnection) (calls : List Call)
      → id < 1000000000
      → next ≤ 1000000000
      → Descending name hostport short next cs
      → at i cs ≡ some c
      → At id next cs calls
      → At id next (without i cs) (calls ++ connect_destroyed c ∷ [])
  unfolding Only
  closed-Stage id next i c cs calls b bn d h s =
      let (j, ej, lower, one, rest) = named-Only next i cs c bn d h in
      elim (Bool-cases (id == j)) [
        | inl t ↦
            let eq : id ≡ j = ground arith in
            let same : id_name id ≡ c.name = ap id_name eq ∙ sym ej in
            let yes : equals (id_name id) c.name ≡ true = rw same (equals_refl c.name) in
            let s' : Stage id next (c ∷ []) (of (id_name id) calls) =
              subst (λ l. Stage id next l (of (id_name id) calls)) (ap (λ k. named k cs) same ∙ one)
                s in
            let gone : named (id_name id) (without i cs) ≡ [] =
              ap (λ k. named k (without i cs)) same ∙ rest in
            rw (gone, of-same (id_name id) calls (connect_destroyed c) yes) (finish s')
        | inr t ↦
            let no : equals (id_name id) c.name ≡ false =
              rw ej (differ name hostport short id j (ground arith) b (omega arith)) in
            rw
              (
                named-without (id_name id) i cs c h no,
                of-other (id_name id) calls (connect_destroyed c) no,
              )
              s
      ]
