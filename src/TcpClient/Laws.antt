-- ===== src/TcpClient/Laws.antt =====
-- A client that is not stopped has at most one connection, and no assertion fails.
use moban.TcpClient.{TcpConnection, ok, create, int32_max}
use moban.TcpClient.Histories.{Event, History, execute}
use moban.TcpClient.Phases.{Phase, idle, trying, waiting, joined, left, IsGoing, going}
use moban.Connector
use moban.Prelude.{
  ◌+◌, ◌<◌, ◌≤◌, ◌≡◌, refl, Option, none, some, List, [], ◌∷◌, Bytes, length, arith,
}

abbrev pub AllGoing : List Event → Type 0
AllGoing [] = Unit
AllGoing (e ∷ es) = IsGoing e × AllGoing es

abbrev pub to_list : Option TcpConnection → List TcpConnection
to_list none = []
to_list (some conn) = conn ∷ []

Phase-alive : (h : History) → Phase h → h.alive ≡ to_list h.client.connection
Phase-alive h (idle c k) = refl
Phase-alive h (trying c k sockfd) = refl
Phase-alive h (waiting c k again) = refl
Phase-alive h (joined c k conn) = refl
Phase-alive h (left c k) = refl

pub execute-Phase :
    (es : List Event) (h : History)
    → AllGoing es
    → h.client.next_conn_id + length es ≤ int32_max
    → Phase h
    → (h' : History) × (execute h es ≡ ok h') × Phase h'
unfolding execute
execute-Phase [] h g b p = (h, refl, p)
execute-Phase (e ∷ es) h (g, gs) b p =
    let (h1, e1, p1, l) = going h e g (omega arith) p in
    rw e1 (execute-Phase es h1 gs (omega arith) p1)

-- However connecting, failing, closing and retrying follow one another on a client that is never
-- stopped, with fewer than 2^31 - 1 events: no assertion of the client or of its connector fails, and
-- the connections that have not closed are the one that the client holds, or none.
pub execute-Single :
    (name : Bytes) (es : List Event)
    → AllGoing es
    → length es < int32_max
    → (h : History) × (execute record { client = create name; alive = [] } es ≡ ok h)
      × (h.alive ≡ to_list h.client.connection)
unfolding create
execute-Single name es g b =
    let fresh : History = record { client = create name; alive = [] } in
    let (h, e, p) = execute-Phase es fresh g (omega arith) (idle (create name) Connector.create) in
    (h, e, Phase-alive h p)
