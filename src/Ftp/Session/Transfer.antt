-- ===== src/Ftp/Session/Transfer.antt =====
-- The transfer of a session: chunks are asked of the disk pool and sent as they come.
use moban.Ftp.Session.{
  Xfer, no_transfer, listing, retrieving, no_link, up, closing, read_at, name_lines, data_send,
  second_force_close, close_data_server_later, submit, Session, Outside, read_chunk_size,
  list_batch_entries, emit, reply, is_connected, is_idle, shutdown_link, abort_transfer, give_up,
  transfer_rejected, send_data_end_reply,
}
use moban.Prelude.{
  ℕ, ◌+◌, Bool, true, false, not, ◌&&◌, ◌||◌, Bytes, List, [], ◌∷◌, ◌==◌, if◌then◌else◌, take,
  codes, suc,
}

unfoldable pub is_empty : Bytes → Bool
is_empty [] = true
is_empty (c ∷ s) = false

unfoldable pub read_failure : Xfer → Bytes
read_failure retrieving = codes "550 read error during transfer"
read_failure listing = codes "550 failed to list directory"
read_failure no_transfer = codes "550 failed to list directory"

unfoldable pub finish : Session → Session
unfolding shutdown_link
finish s = shutdown_link (record s { done = true })

-- `sendChunkReady`, of a chunk of the transfer that runs.
unfoldable pub take_chunk : Session → Bytes → (at_eof io_error : Bool) → Session
unfolding is_empty is_connected read_failure reply abort_transfer give_up finish emit
take_chunk s chunk at_eof io_error =
    if io_error
    then give_up (abort_transfer (reply s (read_failure s.xfer)))
    else (if is_empty chunk && at_eof
        then finish s
        else (if is_connected s.link
            then (if at_eof then finish (emit s (data_send chunk)) else emit s (data_send chunk))
            else s))

-- `sendChunkReady`: a chunk of another generation is dropped.
unfoldable pub send_chunk_ready :
    Session → (generation : ℕ) → Bytes → (at_eof io_error : Bool) → Session
unfolding is_idle take_chunk
send_chunk_ready s generation chunk at_eof io_error =
    if not (generation == s.generation) || is_idle s.xfer
    then s
    else take_chunk s chunk at_eof io_error

unfoldable pub request_read : Session → Outside → Session
unfolding emit transfer_rejected
request_read s o =
    let s' = record s { next_read_offset = s.next_read_offset + read_chunk_size } in
    if o.accepts
    then emit s' (submit (read_at s.generation s.next_read_offset))
    else transfer_rejected s'

unfoldable pub request_names : Session → List Bytes → Bool → Session
unfolding emit transfer_rejected send_chunk_ready
request_names s [] accepts = send_chunk_ready s s.generation [] true false
request_names s (n ∷ ns) accepts =
    if accepts
    then emit s (submit (name_lines s.generation s.long_name_list (n ∷ ns)))
    else transfer_rejected s

-- `requestNextChunk`.
unfoldable pub request_next_chunk : Session → Outside → Session
unfolding request_read request_names is_connected
request_next_chunk s o =
    if is_connected s.link
    then elim s.xfer [
      | no_transfer ↦ s
      | retrieving ↦ request_read s o
      | listing ↦ request_names s (take list_batch_entries o.entries) o.accepts
    ]
    else s

unfoldable pub failed_open : Session → Bytes → Session
unfolding reply give_up
failed_open s text = give_up (reply s text)

-- `xferFd_` and `xferDir_` are assigned, whatever they held.
unfoldable pub put_fd : Session → Bool → Session
put_fd s opened = record s { fd = opened; lost = if s.fd then suc s.lost else s.lost }

unfoldable pub put_dir : Session → Bool → Session
put_dir s opened = record s { dir = opened; lost = if s.dir then suc s.lost else s.lost }

-- `tryStartTransfer`.
unfoldable pub try_start_transfer : Session → Outside → Session
unfolding failed_open request_next_chunk is_connected put_fd put_dir
try_start_transfer s o =
    if is_connected s.link
    then elim s.xfer [
      | no_transfer ↦ s
      | retrieving ↦
          if o.opens
          then request_next_chunk (put_fd s true) o
          else failed_open (put_fd s false) (codes "550 failed to open file")
      | listing ↦
          if o.opens
          then request_next_chunk (put_dir s true) o
          else failed_open (put_dir s false) (codes "550 failed to list directory")
    ]
    else s

-- `handleDataConnected`, of a connection that came up.
unfoldable pub data_connected : Session → Outside → Session
unfolding emit try_start_transfer
data_connected s o = elim s.link [
  | no_link ↦ try_start_transfer (record s { link = up }) o
  | up ↦ emit s second_force_close
  | closing ↦ emit s second_force_close
]

-- `handleDataConnected`, of a connection that went down.
unfoldable pub data_disconnected : Session → Session
unfolding emit reply abort_transfer send_data_end_reply is_idle
data_disconnected s =
    let s' =
      if not (is_idle s.xfer) && not s.done
      then reply (abort_transfer s) (codes "426 connection closed; transfer aborted")
      else send_data_end_reply s in
    emit s' close_data_server_later

-- The callback of the data connection when its buffer is empty.
unfoldable pub write_complete : Session → Outside → Session
unfolding request_next_chunk is_idle
write_complete s o = if is_idle s.xfer then s else request_next_chunk s o
