-- ===== src/Acceptor.antt =====
-- plugins/Muduo/muduo/net/Acceptor.cpp, with `accept` of socketOps.cpp beside it: connections are
-- taken, and one is dropped where the process has no descriptor left. What the kernel answers is an
-- argument; the descriptors that were opened, closed and given away are kept.
pub mod Laws
pub mod Tests
use moban.Prelude.{
  ℕ, ◌==◌, Bool, true, false, ◌&&◌, ◌||◌, Option, none, some, List, [], ◌∷◌, if◌then◌else◌, ◌>>=◌,
  ltb,
}
use moban.Channel.{Channel}
use moban.Channel

-- The answer of `accept(2)`: a descriptor, or `errno`.
pub data Answer : Type 0 where
  accepted : ℕ → Answer
  refused : ℕ → Answer

abbrev pub emfile : ℕ
emfile = 24

-- The values of `errno`, here of Linux, that `accept` expects: EAGAIN, ECONNABORTED, EINTR, EPROTO,
-- EPERM and EMFILE.
unfoldable pub is_expected : ℕ → Bool
is_expected e = e == 11 || (e == 103 || (e == 4 || (e == 71 || (e == 1 || e == emfile))))

-- `sockets::accept`; `none` where the process ends.
unfoldable pub accept : Answer → Option Answer
unfolding is_expected
accept (accepted fd) = some (accepted fd)
accept (refused e) = if is_expected e then some (refused e) else none

pub record Acceptor : Type 0 where
  pub listening : Bool
  pub accept_channel : Channel
  -- `newConnectionCallback_` is set.
  pub has_callback : Bool
  -- `acceptSocket_`; `none` once its destructor has closed it.
  pub accept_socket : Option ℕ
  -- `none` is -1.
  pub idlefd : Option ℕ
  pub opened : List ℕ
  pub closed : List ℕ
  pub handed : List ℕ

-- The constructor, with the listening socket that `createNonblockingOrDie` gives and what `open` of
-- /dev/null gives; `none` where its assertion fails.
unfoldable pub create : ℕ → Option ℕ → Option Acceptor
unfolding Channel.create
create listener none = none
create listener (some fd) =
    let a : Acceptor = record {
      listening = false;
      accept_channel = Channel.create;
      has_callback = false;
      accept_socket = some listener;
      idlefd = some fd;
      opened = fd ∷ listener ∷ [];
      closed = [];
      handed = [];
    } in
    if ltb 0 fd then some a else none

unfoldable pub set_new_connection_callback : Acceptor → Acceptor
set_new_connection_callback a = record a { has_callback = true }

unfoldable pub listen : Acceptor → Option Acceptor
listen a = do
  ch ← Channel.enable_reading a.accept_channel
  some record a { listening = true; accept_channel = ch }

-- `::close(idlefd_)`, which does nothing for -1.
close_idle : Option ℕ → Acceptor → Acceptor
close_idle none a = a
close_idle (some fd) a = record a { idlefd = none; closed = fd ∷ a.closed }

-- `idlefd_` is the new descriptor, or -1.
hold_idle : Option ℕ → Acceptor → Acceptor
hold_idle none a = record a { idlefd = none }
hold_idle (some fd) a = record a { idlefd = some fd; opened = fd ∷ a.opened }

-- No descriptor is left: the idle one makes room for the connection, which is dropped.
unfoldable pub drop_one : Acceptor → (taken reopened : Option ℕ) → Acceptor
unfolding close_idle hold_idle
drop_one a taken reopened =
    let freed = close_idle a.idlefd a in
    let held = hold_idle taken freed in hold_idle reopened (close_idle held.idlefd held)

handle_answer : Acceptor → Answer → (taken reopened : Option ℕ) → Acceptor
unfolding drop_one
handle_answer a (accepted fd) taken reopened =
    let a' : Acceptor = record a { opened = fd ∷ a.opened } in
    if a.has_callback
    then record a' { handed = fd ∷ a'.handed }
    else record a' { closed = fd ∷ a'.closed }
handle_answer a (refused e) taken reopened = if e == emfile then drop_one a taken reopened else a

-- `handleRead`: the answer of the first `accept`, and of the second and of `open` where they come.
unfoldable pub handle_read : Acceptor → Answer → (taken reopened : Option ℕ) → Option Acceptor
unfolding handle_answer accept
handle_read a first taken reopened = do
  answer ← accept first
  some (handle_answer a answer taken reopened)

-- The destructor of `acceptSocket_`.
close_socket : Option ℕ → Acceptor → Acceptor
close_socket none a = a
close_socket (some fd) a = record a { accept_socket = none; closed = fd ∷ a.closed }

-- The destructor, then those of the members.
unfoldable pub destroy : Acceptor → Option Acceptor
unfolding close_idle close_socket
destroy a = do
  ch ← Channel.disable_all a.accept_channel
  ch' ← Channel.remove ch
  some (close_socket a.accept_socket (close_idle a.idlefd record a { accept_channel = ch' }))
