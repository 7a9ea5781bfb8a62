-- ===== src/TcpClient/Reconnect.antt =====
-- Whether a client that has lost its connection makes it again.
use moban.TcpClient.{
  TcpConnection, Result, ok, connector_fails, create, int32_max, start, stop, remove_connection,
}
use moban.TcpClient.Histories.{Event, History, starts, stops, closes, execute}
use moban.TcpClient.Phases.{Phase, idle, trying, waiting, joined, left}
use moban.TcpClient.Laws.{AllGoing, execute-Phase}
use moban.Connector.{Connector, connected, is_under_way, is_retried}
use moban.Connector
use moban.Prelude.{
  ℕ, ◌<◌, ◌≡◌, refl, sym, ◌∙◌, subst, true, Bool-cases, inl, inr, some, List, [], ◌∷◌, Bytes,
  length, ◌==◌, ◌&&◌, if◌then◌else◌, arith,
}

-- The connection closes, and the user calls `connect`.
abbrev pub again : (fd e fd' e' : ℕ) → List Event
again fd e fd' e' = closes fd e ∷ starts fd' e' ∷ []

abbrev pub Creates : History → (fd e fd' e' : ℕ) → Type 0
Creates h fd e fd' e' =
    (h' : History) × (execute h (again fd e fd' e') ≡ ok h')
    × (h'.client.connector.created ≡ (
        if h.client.retry && h.client.connect
        then fd ∷ h.client.connector.created
        else h.client.connector.created))

joined-Creates :
    (h : History) (conn : TcpConnection) (fd e fd' e' : ℕ)
    → Phase h
    → h.client.connection ≡ some conn
    → Creates h fd e fd' e'
unfolding execute remove_connection start Connector.restart Connector.start
joined-Creates h conn fd e fd' e' (idle c k) s = absurd (cc)
joined-Creates h conn fd e fd' e' (trying c k sockfd) s = absurd (cc)
joined-Creates h conn fd e fd' e' (waiting c k b) s = absurd (cc)
joined-Creates h conn fd e fd' e' (left c k) s = absurd (cc)
joined-Creates h conn fd e fd' e' (joined c k old) s =
    let same : (old.number == old.number) ≡ true = ground arith in
    elim (Bool-cases (c.retry && c.connect)) [
      | inr done ↦ rw (same, done) (_, refl, refl)
      | inl more ↦ elim (Bool-cases (is_under_way e)) [
        | inl u ↦ rw (same, more, u) (_, refl, refl)
        | inr u ↦ elim (Bool-cases (is_retried e)) [
          | inl r ↦ rw (same, more, u, r) (_, refl, refl)
          | inr r ↦ rw (same, more, u, r) (_, refl, refl)
        ]
      ]
    ]

ok-injective : (g h : History) → ◌≡◌ {A = Result History} (ok g) (ok h) → g ≡ h
ok-injective g h e = cc

-- After any history of a client that is never stopped, of fewer than 2^31 - 1 events: when its
-- connection closes and `connect` is called then, exactly one attempt is made, by the closing, if
-- the client was told to retry and to connect, and none at all otherwise: `connect` makes none.
pub closes-starts :
    (name : Bytes) (es : List Event) (h : History) (conn : TcpConnection) (fd e fd' e' : ℕ)
    → AllGoing es
    → length es < int32_max
    → execute record { client = create name; alive = [] } es ≡ ok h
    → h.client.connection ≡ some conn
    → Creates h fd e fd' e'
unfolding create
closes-starts name es h conn fd e fd' e' g b r s =
    let fresh : History = record { client = create name; alive = [] } in
    let (h', q, p) = execute-Phase es fresh g (omega arith) (idle (create name) Connector.create) in
    let same : h' ≡ h = ok-injective h' h (sym q ∙ r) in
    joined-Creates h conn fd e fd' e' (subst Phase same p) s

-- Once it has connected, a client that is stopped and told to connect again fails the assertion that
-- its connector is disconnected, also when the connection has closed.
pub stops-starts :
    (h : History) (fd e : ℕ)
    → h.client.connector.state ≡ connected
    → execute h (stops ∷ starts fd e ∷ []) ≡ connector_fails
unfolding execute start stop Connector.start Connector.stop
stops-starts h fd e s = ground arith
