-- ===== src/Ftp/Session/Closing.antt =====
-- What the transfer of a session does with its descriptors.
use moban.Ftp.Session.{
  Session, Outside, Xfer, no_transfer, listing, retrieving, Link, no_link, up, closing, emit, reply,
  is_idle, is_connected, shutdown_link, force_close_link, abort_transfer, give_up,
  transfer_rejected, send_data_end_reply, end_reply, list_batch_entries, data_send, read_chunk_size,
  cancel_timer, close_data_server_later,
}
use moban.Ftp.Session.Transfer.{
  send_chunk_ready, take_chunk, finish, request_next_chunk, request_read, request_names,
  failed_open, try_start_transfer, data_connected, data_disconnected, write_complete, read_failure,
  is_empty, put_fd, put_dir,
}
use moban.Prelude.{
  ℕ, ◌≡◌, refl, Bool, true, false, not, ◌||◌, ◌&&◌, ◌==◌, if◌then◌else◌, Bytes, List, [], ◌∷◌, take,
  codes, ◌+◌,
}

-- Without a transfer the members hold neither a file nor a directory.
abbrev pub Closed : Session → Type 0
Closed s = is_idle s.xfer ≡ true → (s.fd ≡ false) × (s.dir ≡ false)

pub either : (P : Session → Type 0) (t : Bool) {a b : Session} → P a → P b → P (if t then a else b)
either P true x y = x
either P false x y = y

shutdown_link-Closed : (s : Session) → Closed s → Closed (shutdown_link s)
unfolding shutdown_link emit is_idle
shutdown_link-Closed s h = go s.link
  where
    go : (l : Link) → Closed (shutdown_link (record s { link = l }))
    go no_link = h
    go up = h
    go closing = h

force_close_link-Closed : (s : Session) → Closed s → Closed (force_close_link s)
unfolding force_close_link emit is_idle
force_close_link-Closed s h = go s.link
  where
    go : (l : Link) → Closed (force_close_link (record s { link = l }))
    go no_link = h
    go up = h
    go closing = h

abort_transfer-Closed : (s : Session) → Closed (abort_transfer s)
unfolding abort_transfer
abort_transfer-Closed s h = (refl, refl)

give_up-Closed : (s : Session) → Closed s → Closed (give_up s)
unfolding give_up emit is_idle
give_up-Closed s h = force_close_link-Closed s h

transfer_rejected-Closed : (s : Session) → Closed (transfer_rejected s)
unfolding transfer_rejected
transfer_rejected-Closed s =
    give_up-Closed (abort_transfer (reply s (codes "451 local error in processing")))
      (abort_transfer-Closed (reply s (codes "451 local error in processing")))

take_chunk-Closed :
    (s : Session) (d : Bytes) (at_eof io_error : Bool)
    → Closed s
    → Closed (take_chunk s d at_eof io_error)
unfolding take_chunk finish reply emit is_idle
take_chunk-Closed s d at_eof io_error h =
    let failed = abort_transfer (reply s (read_failure s.xfer)) in
    either Closed io_error
      (give_up-Closed failed (abort_transfer-Closed (reply s (read_failure s.xfer))))
      (either Closed (is_empty d && at_eof) (shutdown_link-Closed (record s { done = true }) h) (
        either Closed (is_connected s.link)
          (either Closed at_eof
            (shutdown_link-Closed (record (emit s (data_send d)) { done = true }) h) h)
          h))

pub send_chunk_ready-Closed :
    (s : Session) (generation : ℕ) (d : Bytes) (at_eof io_error : Bool)
    → Closed s
    → Closed (send_chunk_ready s generation d at_eof io_error)
unfolding send_chunk_ready
send_chunk_ready-Closed s generation d at_eof io_error h =
    either Closed (not (generation == s.generation) || is_idle s.xfer) h
      (take_chunk-Closed s d at_eof io_error h)

request_read-Closed : (s : Session) (o : Outside) → Closed s → Closed (request_read s o)
unfolding request_read emit is_idle
request_read-Closed s o h = either Closed o.accepts h (
    transfer_rejected-Closed (record s { next_read_offset = s.next_read_offset + read_chunk_size }))

request_names-Closed :
    (s : Session) (names : List Bytes) (accepts : Bool)
    → Closed s
    → Closed (request_names s names accepts)
unfolding request_names emit is_idle
request_names-Closed s [] accepts h = send_chunk_ready-Closed s s.generation [] true false h
request_names-Closed s (n ∷ ns) accepts h = either Closed accepts h (transfer_rejected-Closed s)

-- A choice by the transfer, where the branches may use which it is.
at_xfer :
    (P : Session → Type 0) (x : Xfer) {a b c : Session}
    → P a
    → (is_idle x ≡ false → P b)
    → (is_idle x ≡ false → P c)
    → P (elim x [ no_transfer ↦ a | retrieving ↦ b | listing ↦ c ])
unfolding is_idle
at_xfer P no_transfer p q r = p
at_xfer P retrieving p q r = q refl
at_xfer P listing p q r = r refl

-- A session with a transfer may hold descriptors.
pub busy-Closed : (s : Session) → is_idle s.xfer ≡ false → Closed s
busy-Closed s b i = absurd (true_false b i)
  where
    true_false : {t : Bool} → t ≡ false → t ≡ true → ⊥
    true_false b i = cc

request_next_chunk-Closed : (s : Session) (o : Outside) → Closed s → Closed (request_next_chunk s o)
unfolding request_next_chunk
request_next_chunk-Closed s o h =
    either Closed (is_connected s.link)
      (at_xfer Closed s.xfer h (λ b. request_read-Closed s o h)
        (λ b. request_names-Closed s (take list_batch_entries o.entries) o.accepts h))
      h

failed_open-Closed : (s : Session) (text : Bytes) → Closed s → Closed (failed_open s text)
unfolding failed_open reply emit is_idle
failed_open-Closed s text h = give_up-Closed (reply s text) h

pub try_start_transfer-Closed :
    (s : Session) (o : Outside) → Closed s → Closed (try_start_transfer s o)
unfolding try_start_transfer put_fd put_dir
try_start_transfer-Closed s o h =
    either Closed (is_connected s.link)
      (at_xfer Closed s.xfer h
        (λ b.
          either Closed o.opens
            (request_next_chunk-Closed (put_fd s true) o (busy-Closed (put_fd s true) b))
            (failed_open-Closed (put_fd s false) (codes "550 failed to open file")
              (busy-Closed (put_fd s false) b)))
        (λ b.
          either Closed o.opens
            (request_next_chunk-Closed (put_dir s true) o (busy-Closed (put_dir s true) b))
            (failed_open-Closed (put_dir s false) (codes "550 failed to list directory")
              (busy-Closed (put_dir s false) b))))
      h

pub data_connected-Closed : (s : Session) (o : Outside) → Closed s → Closed (data_connected s o)
unfolding data_connected emit is_idle
data_connected-Closed s o h = go s.link
  where
    go : (l : Link) → Closed (data_connected (record s { link = l }) o)
    go no_link = try_start_transfer-Closed (record s { link = up }) o h
    go up = h
    go closing = h

pub data_disconnected-Closed : (s : Session) → Closed (data_disconnected s)
unfolding data_disconnected send_data_end_reply emit reply is_idle
data_disconnected-Closed s =
    either (λ s'. Closed (emit s' close_data_server_later)) (not (is_idle s.xfer) && not s.done)
      (abort_transfer-Closed s) (abort_transfer-Closed (emit (end_reply s) cancel_timer))

pub write_complete-Closed : (s : Session) (o : Outside) → Closed s → Closed (write_complete s o)
unfolding write_complete
write_complete-Closed s o h = either Closed (is_idle s.xfer) h (request_next_chunk-Closed s o h)
