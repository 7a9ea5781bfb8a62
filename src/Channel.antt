-- ===== src/Channel.antt =====
-- plugins/Muduo/muduo/net/Channel.cpp and EpollPoller.cpp: what a channel asks for, what the kernel
-- watches for it, and the callbacks that an event runs. `channels_` and the kernel's set are seen
-- through one file descriptor, since both are keyed by it.
pub mod Watching
pub mod Tests
use moban.Prelude.{
  ℕ, Bool, true, false, not, ◌&&◌, ◌||◌, Option, none, some, List, [], ◌∷◌, ◌++◌, if◌then◌else◌,
  ◌>>=◌,
}

-- `events_`: the bits of `KReadEvent`, which stand together, and of `KWriteEvent`.
pub record Events : Type 0 where
  pub reading : Bool
  pub writing : Bool

-- `index_`: `KNew`, `KAdded`, `KDeleted`.
pub data Index : Type 0 where
  fresh : Index
  added : Index
  deleted : Index

pub record Channel : Type 0 where
  pub events : Events
  pub index : Index
  -- The descriptor is a key of `channels_`.
  pub listed : Bool
  -- The entry of the epoll set.
  pub watched : Option Events

-- `EPOLL_CTL_ADD`, `EPOLL_CTL_MOD`, `EPOLL_CTL_DEL`.
pub data Operation : Type 0 where
  add : Operation
  modify : Operation
  delete : Operation

unfoldable pub none_event : Events
none_event = record { reading = false; writing = false }

unfoldable pub is_none_event : Channel → Bool
is_none_event c = not c.events.reading && not c.events.writing

unfoldable pub is_writing : Channel → Bool
is_writing c = c.events.writing

-- A channel as it is made.
unfoldable pub create : Channel
unfolding none_event
create = record { events = none_event; index = fresh; listed = false; watched = none }

-- `EPollPoller::update`: `epoll_ctl` refuses to add an entry that is there, and to change or delete
-- one that is not. A refusal to add or change ends the process, one to delete is logged.
unfoldable pub control : Operation → Channel → Option Channel
control add c = elim c.watched [
  | none ↦ some (record c { watched = some c.events })
  | some old ↦ none
]
control modify c = elim c.watched [
  | none ↦ none
  | some old ↦ some (record c { watched = some c.events })
]
control delete c = some (record c { watched = none })

-- `EPollPoller::updateChannel`; `none` where an assertion fails or the process ends.
unfoldable pub update : Channel → Option Channel
unfolding control is_none_event
update c = elim c.index [
  | fresh ↦ if c.listed then none else control add (record c { listed = true; index = added })
  | deleted ↦ if c.listed then control add (record c { index = added }) else none
  | added ↦
      if is_none_event c
      then (do c' ← control delete c; some (record c' { index = deleted }))
      else control modify c
]

unfoldable pub enable_reading : Channel → Option Channel
unfolding update
enable_reading c = update (record c { events = record (c.events) { reading = true } })

unfoldable pub enable_writing : Channel → Option Channel
unfolding update
enable_writing c = update (record c { events = record (c.events) { writing = true } })

unfoldable pub disable_writing : Channel → Option Channel
unfolding update
disable_writing c = update (record c { events = record (c.events) { writing = false } })

unfoldable pub disable_all : Channel → Option Channel
unfolding update none_event
disable_all c = update (record c { events = none_event })

-- `Channel::remove` and `EPollPoller::removeChannel`.
unfoldable pub remove : Channel → Option Channel
unfolding is_none_event control
remove c =
    if is_none_event c
    then (do
      c' ← elim c.index [
        | added ↦ control delete (record c { listed = false })
        | fresh ↦ some (record c { listed = false })
        | deleted ↦ some (record c { listed = false })
      ]
      some (record c' { index = fresh }))
    else none

-- `revents_`: the bits that `handleEventWithGuard` tests.
pub record Ready : Type 0 where
  pub pollin : Bool
  pub pollpri : Bool
  pub pollout : Bool
  pub pollerr : Bool
  pub pollhup : Bool
  pub pollnval : Bool
  pub pollrdhup : Bool

pub data Callback : Type 0 where
  close_callback : Callback
  error_callback : Callback
  read_callback : Callback
  write_callback : Callback

unfoldable pub when : Bool → Callback → List Callback
when true f = f ∷ []
when false f = []

-- The callbacks that `handleEventWithGuard` runs, in order; all four are set.
unfoldable pub handle_event_with_guard : Ready → List Callback
unfolding when
handle_event_with_guard r =
    when (r.pollhup && not r.pollin) close_callback
    ++ (when (r.pollerr || r.pollnval) error_callback
        ++ (when (r.pollin || (r.pollpri || r.pollrdhup)) read_callback
            ++ when r.pollout write_callback))

-- `handleEvent`: a tied channel runs them only while its owner lives.
unfoldable pub handle_event : (tied alive : Bool) → Ready → List Callback
unfolding handle_event_with_guard
handle_event true false r = []
handle_event true true r = handle_event_with_guard r
handle_event false alive r = handle_event_with_guard r
