-- ===== src/Connection/Life/Tests.antt =====
-- A short life of a connection, and the theorem there.
use moban.Connection.Transfer.{handle_read, send, shutdown, handle_write}
use moban.Connection.{
  Connection, Written, would_block, Call, connection_callback, message_callback, shutdown_write,
  close_callback, connected, disconnected, connect_established, create, connect_destroyed,
}
use moban.Connection.Life.{Event, polled, calls, destroys, sends, shuts, live}
use moban.Connection.Life.Invariant.{Stays}
use moban.Connection.Life.Laws.{DestroyedEarly, live-Lives}
use moban.Buffer.{received, read_fd, new, retrieve, append}
use moban.Channel.{
  Ready, handle_event, enable_reading, is_writing, enable_writing, disable_writing, disable_all,
  remove,
}
use moban.Prelude.{◌≡◌, ◌⊎◌, refl, true, false, none, List, [], ◌∷◌, codes, Option, some}

abbrev quiet : Ready
quiet = record {
  pollin = false;
  pollpri = false;
  pollout = false;
  pollerr = false;
  pollhup = false;
  pollnval = false;
  pollrdhup = false;
}

abbrev nothing : Written
nothing = record { count = 0; errno = would_block }

-- A message comes and is answered, which has to wait; the user shuts down; the peer closes; and the
-- owner lets go of the connection.
abbrev conversation : List Event
conversation =
    polled (record quiet { pollin = true }) (received (codes "hi")) nothing
      (sends true (codes "hello") nothing ∷ shuts ∷ [])
    ∷ polled (record quiet { pollout = true }) (received [])
        (record { count = 5; errno = would_block }) []
    ∷ polled (record quiet { pollin = true; pollhup = true }) (received []) nothing []
    ∷ destroys
    ∷ []

live-Lives_example :
    Stays (live conversation) ⊎ ((live conversation ≡ none) × DestroyedEarly conversation)
live-Lives_example = live-Lives conversation (refl, (refl, (refl, (tt, tt))))

said : Option Connection → List Call
said none = []
said (some c) = c.calls

said-conversation :
    said (live conversation)
    ≡ connection_callback connected
      ∷ message_callback
      ∷ shutdown_write
      ∷ connection_callback disconnected
      ∷ close_callback
      ∷ []
unfolding said live connect_established create enable_reading handle_event handle_read read_fd send
    is_writing new enable_writing shutdown handle_write retrieve append disable_writing disable_all
    connect_destroyed remove
said-conversation = refl

-- `~TcpServer` destroys a connection that is disconnecting.
destroyed_early : live (calls shuts ∷ destroys ∷ []) ≡ none
unfolding live connect_established create enable_reading connect_destroyed shutdown is_writing
    remove
destroyed_early = refl
