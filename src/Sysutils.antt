-- ===== src/Sysutils.antt =====
-- example/miniftpd_c/src/sysutils.cpp and str.cpp: reading from a socket, waiting with a timeout,
-- and C strings. A socket is what will come in over it, in pieces; a C string is its bytes.
pub mod Reading
pub mod Lines
pub mod Tests
use moban.Prelude.{
  ℕ, zero, suc, ◌+◌, ◌-◌, ◌/◌, ◌%◌, ◌^◌, ◌==◌, Bool, true, false, ◌&&◌, ◌||◌, Option, none, some,
  List, [], ◌∷◌, ◌++◌, Bytes, codes, ltb, leb, if◌then◌else◌, length, take, drop, get_or, set, inl,
  inr, ◌⊎◌,
}

-- A piece has at least one byte; `signal` interrupts the call that waits. Behind the last one
-- the peer has closed.
pub data Arrival : Type 0 where
  arrived : ℕ → Bytes → Arrival
  signal : Arrival
  broken : ℕ → Arrival

abbrev pub Socket : Type 0
Socket = List Arrival

-- What a read leaves of a piece.
abbrev pub put_back : Bytes → Socket → Socket
put_back [] s = s
put_back (b ∷ bs) s = arrived b bs ∷ s

abbrev pub onto {ℓ} : {A : Type ℓ} → Bytes → Option Bytes × A → Option Bytes × A
onto bs (none, s) = (none, s)
onto bs (some cs, s) = (some (bs ++ cs), s)

-- `readn`: what the buffer gets, where fewer bytes than asked for are the end; `none` is -1.
unfoldable pub readn : ℕ → Socket → Option Bytes × Socket
readn zero s = (some [], s)
readn (suc n) [] = (some [], [])
readn (suc n) (signal ∷ s) = readn (suc n) s
readn (suc n) (broken e ∷ s) = (none, s)
readn (suc n) (arrived b bs ∷ s) =
    let rest = readn (n - length bs) s in
    if leb (length bs) n then onto (b ∷ bs) rest else (some (b ∷ take n bs), put_back (drop n bs) s)

abbrev pub newline : ℕ
newline = b'\n'

-- The position of the first newline.
unfoldable pub find_newline : Bytes → Option ℕ
find_newline [] = none
find_newline (b ∷ bs) =
    let rest = find_newline bs in
    if b == newline then some 0 else elim rest [ none ↦ none | some i ↦ some (suc i) ]

-- `readline` returns a length, has a buffer and leaves a socket; or it returns 0 or -1, or calls
-- `exit`.
pub data LineEnd : Type 0 where
  returned : ℕ → Bytes → Socket → LineEnd
  at_end : LineEnd
  failed : ℕ → LineEnd
  exits : LineEnd

-- One round, on the whole piece `c` of which `peek` fits in the buffer.
abbrev peeked : Option ℕ → Bool → Bytes → Bytes → Socket → LineEnd → LineEnd
peeked (some i) is_full buffer c s next =
    returned (suc i) (buffer ++ take (suc i) c) (put_back (drop (suc i) c) s)
peeked none true buffer c s next = exits
peeked none false buffer c s next = next

unfoldable pub readline : ℕ → Bytes → Socket → LineEnd
unfolding find_newline
readline nleft buffer [] = at_end
readline nleft buffer (signal ∷ s) = readline nleft buffer s
readline nleft buffer (broken e ∷ s) = failed e
readline nleft buffer (arrived b bs ∷ s) =
    let peek = take nleft (b ∷ bs) in
    let next = readline (nleft - length peek) (buffer ++ b ∷ bs) s in
    peeked (find_newline peek) (leb nleft (length peek)) buffer (b ∷ bs) s next

-- Answers of `select`.
pub data Selected : Type 0 where
  interrupted : Selected
  refused : ℕ → Selected
  expired : Selected
  ready_now : Selected

pub data Waited : Type 0 where
  ready : Waited
  timed_out : Waited
  fails : ℕ → Waited
  still_waiting : Waited

-- The loop of `select`, and what `read_timeout` makes of its result.
unfoldable pub select_loop : List Selected → Waited
select_loop [] = still_waiting
select_loop (interrupted ∷ answers) = select_loop answers
select_loop (refused e ∷ answers) = fails e
select_loop (expired ∷ answers) = timed_out
select_loop (ready_now ∷ answers) = ready

unfoldable pub read_timeout : ℕ → List Selected → Waited
unfolding select_loop
read_timeout wait_seconds answers = if wait_seconds == 0 then ready else select_loop answers

-- `connect`: done at once, in progress, or an error.
pub data Connecting : Type 0 where
  at_once : Connecting
  in_progress : Connecting
  impossible : ℕ → Connecting

-- What `connect_timeout` does with the result of the wait; with whether the socket is left in the
-- non-blocking mode. `sockopt` is the answer of `getsockopt`: `none` with `errno`, or `SO_ERROR`.
abbrev connect_waited : Waited → Bool → Bool × ℕ → Waited × Bool
connect_waited ready on (false, e) = (fails e, on)
connect_waited ready on (true, so_error) = (if so_error == 0 then ready else fails so_error, false)
connect_waited timed_out on sockopt = (timed_out, false)
connect_waited (fails e) on sockopt = (fails e, on)
connect_waited still_waiting on sockopt = (still_waiting, on)

unfoldable pub connect_timeout : ℕ → Connecting → List Selected → Bool × ℕ → Waited × Bool
unfolding select_loop
connect_timeout wait_seconds at_once answers sockopt = (timed_out, false)
connect_timeout wait_seconds in_progress answers sockopt =
    connect_waited (select_loop answers) (ltb 0 wait_seconds) sockopt
connect_timeout wait_seconds (impossible e) answers sockopt = (fails e, ltb 0 wait_seconds)

-- The sets of descriptors that `select` can wait on.
pub data Interest : Type 0 where
  to_read : Interest
  to_write : Interest
  on_exception : Interest

-- `write_timeout` gives its descriptor as the third set.
unfoldable pub write_timeout : ℕ → (Interest → List Selected) → Waited
unfolding select_loop
write_timeout wait_seconds answers =
    if wait_seconds == 0 then ready else select_loop (answers on_exception)

-- `accept_timeout`: `accepted` is the new descriptor, or `errno`.
abbrev accept_waited : Waited → Bool × ℕ → Waited ⊎ ℕ
accept_waited ready (true, fd) = inr fd
accept_waited ready (false, e) = inl (fails e)
accept_waited w accepted = inl w

unfoldable pub accept_timeout : ℕ → List Selected → Bool × ℕ → Waited ⊎ ℕ
unfolding select_loop
accept_timeout wait_seconds answers accepted =
    accept_waited (if wait_seconds == 0 then ready else select_loop answers) accepted

-- Answers of `write` and of `fcntl`: `errno`, or the result.
pub data Answer : Type 0 where
  errs : ℕ → Answer
  gives : ℕ → Answer

abbrev pub eintr : ℕ
eintr = 4

-- `writen` of what is left: the pieces written, and whether it returned the count rather than -1;
-- `none` is a call that still runs.
unfoldable pub writen : Bytes → List Answer → List Bytes × Option Bool
writen [] answers = ([], some true)
writen (b ∷ bs) [] = ([], none)
writen (b ∷ bs) (errs e ∷ answers) =
    let rest = writen (b ∷ bs) answers in if e == eintr then rest else ([], some false)
writen (b ∷ bs) (gives zero ∷ answers) = ([], some false)
writen (b ∷ bs) (gives (suc n) ∷ answers) =
    let rest = writen (drop (suc n) (b ∷ bs)) answers in (take (suc n) (b ∷ bs) ∷ rest.0, rest.1)

-- `lock_internal`: the loop of `fcntl`.
unfoldable pub lock_internal : List Answer → Option Answer
lock_internal [] = none
lock_internal (gives n ∷ answers) = some (gives n)
lock_internal (errs e ∷ answers) =
    let rest = lock_internal answers in if e == eintr then rest else some (errs e)

-- `statbuf_get_perms`: the letter of the type, by `mode & S_IFMT`.
unfoldable pub type_letter : ℕ → ℕ
type_letter mode =
    let kind = mode / 2 ^ 12 % 16 in
    if kind == 8
    then b'-'
    else if kind == 4
    then b'd'
    else if kind == 10
    then b'l'
    else if kind == 1
    then b'p'
    else if kind == 12
    then b's'
    else if kind == 2
    then b'c'
    else if kind == 6
    then b'b'
    else b'?'

abbrev pub bit_set : ℕ → ℕ → Bool
bit_set mode i = mode / 2 ^ i % 2 == 1

abbrev pub letter : ℕ → ℕ → ℕ → ℕ
letter mode i c = if bit_set mode i then c else b'-'

-- The letter for execution, with the special bit `i` of the group.
abbrev pub special : ℕ → ℕ → ℕ → ℕ → ℕ → ℕ
special mode x i both only =
    if bit_set mode i
    then (if letter mode x b'x' == b'x' then both else only)
    else letter mode x b'x'

unfoldable pub statbuf_get_perms : ℕ → Bytes
unfolding type_letter
statbuf_get_perms mode =
    type_letter mode
    ∷ letter mode 8 b'r'
    ∷ letter mode 7 b'w'
    ∷ special mode 6 11 b's' b'S'
    ∷ letter mode 5 b'r'
    ∷ letter mode 4 b'w'
    ∷ special mode 3 10 b's' b'S'
    ∷ letter mode 2 b'r'
    ∷ letter mode 1 b'w'
    ∷ special mode 0 9 b't' b'T'
    ∷ []
