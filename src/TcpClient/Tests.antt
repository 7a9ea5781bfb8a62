-- ===== src/TcpClient/Tests.antt =====
-- TcpClient.antt on short histories, and the theorems there.
use moban.TcpClient.{TcpConnection, ok, create, connect_established}
use moban.TcpClient.Histories.{Event, starts, enables_retry, writable, fires, History, execute}
use moban.TcpClient.Laws.{to_list, execute-Single}
use moban.TcpClient.Reconnect.{Creates, closes-starts}
use moban.TcpServer.Names.{id_text, digits}
use moban.Connector.{Connector, connected}
use moban.Connector
use moban.Prelude.{◌≡◌, refl, true, false, some, List, [], ◌∷◌, codes, arith, none}

abbrev fresh : History
fresh = record { client = create (codes "ftp"); alive = [] }

-- The first attempt is refused, and the retry succeeds.
abbrev up : List Event
up = starts 5 111 ∷ fires 6 115 ∷ writable 0 false (codes "10.0.0.1:21") ∷ []

abbrev first : TcpConnection
first = record { number = 1; name = codes "ftp10.0.0.1:21#1"; sockfd = 6 }

execute-Single_example :
    (h : History) × (execute fresh (enables_retry ∷ up) ≡ ok h)
    × (h.alive ≡ to_list h.client.connection)
execute-Single_example =
    execute-Single (codes "ftp") (enables_retry ∷ up) (tt, (tt, (tt, (tt, tt)))) (omega arith)

-- The client after `up`.
abbrev joined_connector : Connector
joined_connector = record {
  connect = true;
  state = connected;
  retry_delay_ms = 1000;
  channel = none;
  watched = false;
  timers = 0;
  resets = 0;
  created = 6 ∷ 5 ∷ [];
  closed = 5 ∷ [];
  handed = 6 ∷ [];
}

abbrev joined_history : History
joined_history = record {
  client = record {
    connector = joined_connector;
    name = codes "ftp";
    retry = false;
    connect = true;
    next_conn_id = 2;
    connection = some first;
    calls = connect_established first ∷ [];
  };
  alive = first ∷ [];
}

reached : execute fresh up ≡ ok joined_history
unfolding execute create Connector.start Connector.handle_write id_text digits
reached = refl

closes-starts_example : Creates joined_history 7 115 8 115
closes-starts_example =
    closes-starts (codes "ftp") up joined_history first 7 115 8 115 (tt, (tt, (tt, tt)))
      (omega arith) reached refl
