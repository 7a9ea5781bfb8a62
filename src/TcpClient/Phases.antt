-- ===== src/TcpClient/Phases.antt =====
-- The phases of a client that is not stopped, and one step from each.
use moban.Connector.{
  Connector, disconnected, connecting_state, connected, start_in_loop, is_under_way, is_retried,
}
use moban.Connector
use moban.TcpClient.{
  TcpConnection, TcpClient, Result, ok, with_connector, start, disconnect, enable_retry,
  remove_connection, handle_write, int32_max, shutdown, connect_destroyed, connect_established,
}
use moban.TcpClient.Histories.{
  Event, starts, disconnects, stops, enables_retry, writable, fails, fires, closes, History, stay,
  fire, step,
}
use moban.TcpServer.Names.{id_text}
use moban.Prelude.{
  ℕ, suc, ◌≤◌, ◌<◌, ◌≡◌, refl, Bool, true, false, Bool-cases, inl, inr, none, some, [], ◌∷◌, ◌++◌,
  ◌==◌, ◌&&◌, Bytes, length, take, ltb, arith,
}

abbrev bit : Bool → ℕ
bit true = 1
bit false = 0

-- Nothing is under way.
abbrev resting : Connector → Connector
resting k = record k { channel = none; watched = false; resets = 0 }

abbrev pub unconnected : TcpClient → Connector → History
unconnected c k =
    let c' : TcpClient = record c { connector = k; connection = none } in
    record { client = c'; alive = [] }

abbrev pub IsGoing : Event → Type 0
IsGoing (starts fd e) = Unit
IsGoing disconnects = Unit
IsGoing stops = ⊥
IsGoing enables_retry = Unit
IsGoing (writable so_error is_self peer) = Unit
IsGoing fails = Unit
IsGoing (fires fd e) = Unit
IsGoing (closes fd e) = Unit

pub data Phase : History → Type 0 where
  idle :
      (c : TcpClient) (k : Connector)
      → Phase
          (unconnected c (record (resting k) { connect = false; state = disconnected; timers = 0 }))
  trying :
      (c : TcpClient) (k : Connector) (sockfd : ℕ)
      → Phase (
          unconnected c (record k {
            connect = true;
            state = connecting_state;
            channel = some sockfd;
            watched = true;
            timers = 0;
            resets = 0;
          }))
  -- A retry waits, or an attempt has failed for good.
  waiting :
      (c : TcpClient) (k : Connector) (again : Bool)
      → Phase (
          unconnected c
            (record (resting k) { connect = true; state = disconnected; timers = bit again }))
  joined :
      (c : TcpClient) (k : Connector) (conn : TcpConnection)
      → Phase (record {
        client = record c {
          connector = record (resting k) { connect = true; state = connected; timers = 0 };
          connection = some conn;
        };
        alive = conn ∷ [];
      })
  -- The connection has closed, and is not made again.
  left :
      (c : TcpClient) (k : Connector)
      → Phase (unconnected c (record (resting k) { connect = true; state = connected; timers = 0 }))

-- A run that ends in a phase, with at most one new connection behind the number `n`.
abbrev pub Goes : ℕ → Result History → Type 0
Goes n r = (h : History) × (r ≡ ok h) × Phase h × (h.client.next_conn_id ≤ suc n)

-- A socket is closed, and will be tried again.
abbrev refused : Connector → ℕ → Connector
refused k sockfd = record k {
  closed = sockfd ∷ k.closed;
  retry_delay_ms = Connector.next_delay k.retry_delay_ms;
}

-- An attempt to connect, from where none is under way.
attempt :
    (c : TcpClient) (k : Connector) (sockfd save_error : ℕ)
    → Goes c.next_conn_id (
        stay [] (
          with_connector
            (record c { connection = none })
            (start_in_loop
              (record (resting k) { connect = true; state = disconnected; timers = 0 })
              sockfd
              save_error)))
unfolding stay with_connector start_in_loop
attempt c k sockfd save_error =
    let k' : Connector = record k { created = sockfd ∷ k.created } in
    elim (Bool-cases (is_under_way save_error)) [
      | inl u ↦ rw u (_, refl, trying c k' sockfd, omega arith)
      | inr u ↦ elim (Bool-cases (is_retried save_error)) [
        | inl r ↦
            rw (u, r)
              (
                _,
                refl,
                waiting c
                    (record k' {
                      closed = sockfd ∷ k.closed;
                      retry_delay_ms = Connector.next_delay k.retry_delay_ms;
                    })
                    true,
                omega arith,
              )
        | inr r ↦
            rw (u, r)
              (_, refl, waiting c (record k' { closed = sockfd ∷ k.closed }) false, omega arith)
      ]
    ]

-- The events but the closing of a connection and the user's other calls.
starting : (h : History) (fd e : ℕ) → Phase h → Goes h.client.next_conn_id (step h (starts fd e))
unfolding step start Connector.start
starting h fd e (idle c k) = attempt (record c { connect = true }) k fd e
starting h fd e (trying c k sockfd) =
    (_, refl, trying (record c { connect = true }) k sockfd, omega arith)
starting h fd e (waiting c k again) =
    (_, refl, waiting (record c { connect = true }) k again, omega arith)
starting h fd e (joined c k conn) =
    (_, refl, joined (record c { connect = true }) k conn, omega arith)
starting h fd e (left c k) = (_, refl, left (record c { connect = true }) k, omega arith)

disconnecting : (h : History) → Phase h → Goes h.client.next_conn_id (step h disconnects)
unfolding step disconnect
disconnecting h (idle c k) = (_, refl, idle (record c { connect = false }) k, omega arith)
disconnecting h (trying c k sockfd) =
    (_, refl, trying (record c { connect = false }) k sockfd, omega arith)
disconnecting h (waiting c k again) =
    (_, refl, waiting (record c { connect = false }) k again, omega arith)
disconnecting h (joined c k conn) =
    let c' : TcpClient = record c { connect = false; calls = c.calls ++ shutdown conn ∷ [] } in
    (_, refl, joined c' k conn, omega arith)
disconnecting h (left c k) = (_, refl, left (record c { connect = false }) k, omega arith)

enabling : (h : History) → Phase h → Goes h.client.next_conn_id (step h enables_retry)
unfolding step enable_retry
enabling h (idle c k) = (_, refl, idle (record c { retry = true }) k, omega arith)
enabling h (trying c k sockfd) = (_, refl, trying (record c { retry = true }) k sockfd, omega arith)
enabling h (waiting c k again) = (_, refl, waiting (record c { retry = true }) k again, omega arith)
enabling h (joined c k conn) = (_, refl, joined (record c { retry = true }) k conn, omega arith)
enabling h (left c k) = (_, refl, left (record c { retry = true }) k, omega arith)

firing : (h : History) (fd e : ℕ) → Phase h → Goes h.client.next_conn_id (step h (fires fd e))
unfolding step fire
firing h fd e (idle c k) = (_, refl, idle c k, omega arith)
firing h fd e (trying c k sockfd) = (_, refl, trying c k sockfd, omega arith)
firing h fd e (waiting c k true) = attempt c k fd e
firing h fd e (waiting c k false) = (_, refl, waiting c k false, omega arith)
firing h fd e (joined c k conn) = (_, refl, joined c k conn, omega arith)
firing h fd e (left c k) = (_, refl, left c k, omega arith)

failing : (h : History) → Phase h → Goes h.client.next_conn_id (step h fails)
unfolding step with_connector Connector.handle_error
failing h (idle c k) = (_, refl, idle c k, omega arith)
failing h (trying c k sockfd) = (_, refl, waiting c (refused k sockfd) true, omega arith)
failing h (waiting c k again) = (_, refl, waiting c k again, omega arith)
failing h (joined c k conn) = (_, refl, joined c k conn, omega arith)
failing h (left c k) = (_, refl, left c k, omega arith)

joining :
    (h : History) (so_error : ℕ) (is_self : Bool) (peer : Bytes)
    → h.client.next_conn_id < int32_max
    → Phase h
    → Goes h.client.next_conn_id (step h (writable so_error is_self peer))
unfolding step handle_write Connector.handle_write
joining h so_error is_self peer b (idle c k) = (_, refl, idle c k, omega arith)
joining h so_error is_self peer b (waiting c k again) = (_, refl, waiting c k again, omega arith)
joining h so_error is_self peer b (joined c k conn) = (_, refl, joined c k conn, omega arith)
joining h so_error is_self peer b (left c k) = (_, refl, left c k, omega arith)
joining h so_error is_self peer b (trying c k sockfd) = elim (Bool-cases (so_error == 0)) [
  | inr bad ↦ rw (bad, same) (_, refl, waiting c (refused k sockfd) true, omega arith)
  | inl good ↦ elim (Bool-cases is_self) [
    | inl self ↦ rw (good, self, same) (_, refl, waiting c (refused k sockfd) true, omega arith)
    | inr other ↦
        rw (good, other, more, fits)
          (
            _,
            refl,
            joined
                (record c {
                  next_conn_id = suc c.next_conn_id;
                  calls = c.calls ++ connect_established conn ∷ [];
                })
                (record k { handed = sockfd ∷ k.handed }) conn,
            omega arith,
          )
  ]
]
  where
    conn : TcpConnection
    conn = record {
      number = c.next_conn_id;
      name = c.name ++ take 31 (peer ++ b'#' ∷ id_text c.next_conn_id);
      sockfd = sockfd;
    }

    same : ltb (length k.handed) (length k.handed) ≡ false
    same = ground arith

    more : ltb (length k.handed) (suc (length k.handed)) ≡ true
    more = ground arith

    fits : (c.next_conn_id == int32_max) ≡ false
    fits = ground arith

closing : (h : History) (fd e : ℕ) → Phase h → Goes h.client.next_conn_id (step h (closes fd e))
unfolding step remove_connection Connector.restart
closing h fd e (idle c k) = (_, refl, idle c k, omega arith)
closing h fd e (trying c k sockfd) = (_, refl, trying c k sockfd, omega arith)
closing h fd e (waiting c k again) = (_, refl, waiting c k again, omega arith)
closing h fd e (left c k) = (_, refl, left c k, omega arith)
closing h fd e (joined c k conn) =
    let same : (conn.number == conn.number) ≡ true = ground arith in
    let c' : TcpClient = record c { calls = c.calls ++ connect_destroyed conn ∷ [] } in
    elim (Bool-cases (c.retry && c.connect)) [
      | inl again ↦
          rw (same, again)
            (attempt c' (record k { retry_delay_ms = Connector.init_retry_delay_ms }) fd e)
      | inr done ↦ rw (same, done) (_, refl, left c' k, omega arith)
    ]

-- Every event but `stops`.
pub going :
    (h : History) (e : Event)
    → IsGoing e
    → h.client.next_conn_id < int32_max
    → Phase h
    → Goes h.client.next_conn_id (step h e)
going h (starts fd e) g b p = starting h fd e p
going h disconnects g b p = disconnecting h p
going h stops g b p = absurd g
going h enables_retry g b p = enabling h p
going h (writable so_error is_self peer) g b p = joining h so_error is_self peer b p
going h fails g b p = failing h p
going h (fires fd e) g b p = firing h fd e p
going h (closes fd e) g b p = closing h fd e p
