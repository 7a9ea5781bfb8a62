-- ===== src/Connection/Transfer.antt =====
-- TcpConnection.cpp: closing, sending and receiving.
use moban.Connection.{
  disconnected, connecting, connected, disconnecting, Functor, write_complete, high_water_mark,
  send_in_loop, shutdown_in_loop, force_close_in_loop, message_callback, Errno, would_block,
  broken_pipe, connection_reset, other_error, Written, Connection, is_connected, is_disconnected,
  is_open, queue_in_loop, call, set_state, handle_close, shutdown_loop,
}
use moban.Prelude.{
  ◌+◌, Bool, true, false, not, ◌&&◌, Bytes, Option, none, some, List, [], ◌∷◌, ◌++◌, ◌==◌, leb, ltb,
  if◌then◌else◌, length, take, drop, ◌>>=◌,
}
use moban.Buffer.{
  Buffer, append, retrieve, retrieve_all, retrieve_all_as_string, readable_bytes, read_fd,
  ReadvResult,
}
use moban.Buffer.Layout.{contents}
use moban.Channel

-- `shutdown`, in the loop's thread, or in another while the loop does not change the state: the test and
-- the set are one step here.
unfoldable pub shutdown : (in_loop : Bool) → Connection → Connection
unfolding is_connected set_state queue_in_loop shutdown_loop
shutdown in_loop c =
    let c' = set_state c disconnecting in
    if is_connected c
    then if in_loop then shutdown_loop c' else queue_in_loop c' shutdown_in_loop
    else c

-- `forceClose`, in the thread of the loop: the test and the set are one step.
unfoldable pub force_close : Connection → Connection
unfolding is_open set_state queue_in_loop
force_close c =
    if is_open c then queue_in_loop (set_state c disconnecting) force_close_in_loop else c

unfoldable pub force_close_loop : Connection → Option Connection
unfolding is_open handle_close
force_close_loop c = if is_open c then handle_close c else some c

unfoldable pub is_disconnecting : Connection → Bool
is_disconnecting c = elim c.state [
  | disconnecting ↦ true
  | connected ↦ false
  | connecting ↦ false
  | disconnected ↦ false
]

waiting : Bool → Functor → List Functor
waiting true f = f ∷ []
waiting false f = []

unfoldable pub queue_if : Bool → Connection → Functor → Connection
unfolding waiting
queue_if set c f = record c { pending = c.pending ++ waiting set f }

-- The output buffer has been emptied.
unfoldable pub drained : Connection → Option Connection
unfolding queue_if is_disconnecting shutdown_loop
drained c = do
  ch ← Channel.disable_writing c.channel
  let c' = queue_if c.on_write_complete (record c { channel = ch }) write_complete in
      some (if is_disconnecting c then shutdown_loop c' else c')

-- `handleWrite`: the kernel takes bytes from the front of the output buffer.
unfoldable pub handle_write : Connection → Written → Option Connection
unfolding drained
handle_write c w =
    let c' = record c {
      output = retrieve c.output w.count;
      wire = c.wire ++ take w.count (contents c.output);
    } in
    if Channel.is_writing c.channel
    then if ltb 0 w.count
      then if readable_bytes c'.output == 0 then drained c' else some c'
      else some c
    else some c

-- `EPIPE` or `ECONNRESET`.
unfoldable pub is_fault : Errno → Bool
is_fault would_block = false
is_fault broken_pipe = true
is_fault connection_reset = true
is_fault other_error = false

-- A write of `sendInLoop` that takes bytes, and the callback where it takes all.
unfoldable pub write_now : Connection → Bytes → Written → Connection
unfolding queue_if
write_now c message w =
    let c' = record c { wire = c.wire ++ take w.count message } in
    queue_if (length message == w.count && c.on_write_complete) c' write_complete

-- The end of `sendInLoop`: what remains is buffered, and the channel waits to write.
unfoldable pub keep_rest : Connection → Bytes → Option Connection
unfolding queue_if
keep_rest c rest =
    let old = readable_bytes c.output in
    let total = old + length rest in
    let over = leb c.high_water total && (ltb old c.high_water && c.on_high_water) in
    let marked = queue_if over c (high_water_mark total) in
    let c' = record marked { output = append c.output rest } in
    if ltb 0 (length rest)
    then if Channel.is_writing c.channel
      then some c'
      else (do ch ← Channel.enable_writing c.channel; some (record c' { channel = ch }))
    else some c

-- `sendInLoop` where nothing is waiting: it writes at once.
unfoldable pub send_idle : Connection → Bytes → Written → Option Connection
unfolding write_now keep_rest is_fault
send_idle c message w =
    if ltb 0 w.count
    then keep_rest (write_now c message w) (drop w.count message)
    else (if is_fault w.errno then some c else keep_rest c message)

-- `sendInLoop`.
unfoldable pub send_loop : Connection → Bytes → Written → Option Connection
unfolding is_disconnected send_idle keep_rest
send_loop c message w =
    if is_disconnected c
    then some c
    else (if not (Channel.is_writing c.channel) && readable_bytes c.output == 0
        then send_idle c message w
        else keep_rest c message)

-- `send` of bytes.
unfoldable pub send : (in_loop : Bool) → Connection → Bytes → Written → Option Connection
unfolding is_connected send_loop queue_in_loop
send in_loop c message w =
    if is_connected c
    then if in_loop then send_loop c message w else some (queue_in_loop c (send_in_loop message))
    else some c

-- `send` of a buffer, which is emptied.
unfoldable pub send_buffer :
    (in_loop : Bool) → Connection → Buffer → Written → Option (Connection × Buffer)
unfolding is_connected send_loop queue_in_loop
send_buffer in_loop c message w =
    let (s, rest) = retrieve_all_as_string message in
    if is_connected c
    then if in_loop
      then (do c' ← send_loop c (contents message) w; some (c', retrieve_all message))
      else some (queue_in_loop c (send_in_loop s), rest)
    else some (c, message)

-- `handleRead`: bytes for the user, the end of the stream, or an error, which is logged.
unfoldable pub handle_read : Connection → ReadvResult → Option Connection
unfolding call handle_close
handle_read c r =
    let (input, n, e) = read_fd c.input r in
    let c' = record c { input = input } in
    elim n [
      | none ↦ some c'
      | some k ↦ if ltb 0 k then some (call c' message_callback) else handle_close c'
    ]

-- One functor of the loop's queue; the callbacks are the user's.
unfoldable pub run_functor : Connection → Functor → Written → Option Connection
unfolding send_loop shutdown_loop force_close_loop
run_functor c write_complete w = some c
run_functor c (high_water_mark n) w = some c
run_functor c (send_in_loop message) w = send_loop c message w
run_functor c shutdown_in_loop w = some (shutdown_loop c)
run_functor c force_close_in_loop w = force_close_loop c
