-- ===== src/Ftp/Session/Resources.antt =====
-- The descriptors that the members of a session hold: none without a transfer.
use moban.Ftp.Session.{
  Session, Outside, listing, create, emit, reply, start, is_idle, is_logged_in, close_data_server,
  cancel_timer,
}
use moban.Ftp.Session.Transfer.{send_chunk_ready, data_connected, data_disconnected, write_complete}
use moban.Ftp.Session.Command.{
  handle_command, split_line, pasv_timeout, cmd_user, cmd_pass, cmd_syst, cmd_pwd, cmd_type,
  cmd_pasv, cmd_list, cmd_retr, cmd_quit, require_login, retrieve_file, leads_out, needs_pass,
  begin_retrieval, is_free,
}
use moban.Ftp.Session.Gate.{run_command-either}
use moban.Strings.Case.{to_upper}
use moban.Prelude.{ℕ, refl, Bool, ◌&&◌, if◌then◌else◌, Bytes, List, [], ◌∷◌, codes, add_size}
use moban.Ftp.Session.Closing.{
  Closed, either, send_chunk_ready-Closed, data_connected-Closed, data_disconnected-Closed,
  write_complete-Closed, try_start_transfer-Closed, busy-Closed,
}

-- What can happen to a session.
pub data Event : Type 0 where
  command : Bytes → Outside → Event
  connection_up : Outside → Event
  connection_down : Event
  chunk : ℕ → Bytes → Bool → Bool → Event
  buffer_empty : Outside → Event
  timeout : Event
  server_closed : Event

unfoldable pub step : Session → Event → Session
unfolding handle_command data_connected data_disconnected send_chunk_ready write_complete
    pasv_timeout close_data_server
step s (command line o) = handle_command s line o
step s (connection_up o) = data_connected s o
step s connection_down = data_disconnected s
step s (chunk generation d at_eof io_error) = send_chunk_ready s generation d at_eof io_error
step s (buffer_empty o) = write_complete s o
step s timeout = pasv_timeout s
step s server_closed = close_data_server s

unfoldable pub run : Session → List Event → Session
unfolding step
run s [] = s
run s (e ∷ es) = run (step s e) es

require_login-Closed : (s rest : Session) → Closed s → Closed rest → Closed (require_login s rest)
unfolding require_login reply emit is_idle
require_login-Closed s rest h k = either Closed (is_logged_in s) k h

retrieve_file-Closed :
    (s : Session) (arg : Bytes) (o : Outside) → Closed s → Closed (retrieve_file s arg o)
unfolding retrieve_file reply emit is_idle
retrieve_file-Closed s [] o h = h
retrieve_file-Closed s (c ∷ arg) o h =
    let s1 = emit (begin_retrieval s (c ∷ arg)) cancel_timer in
    let s2 = reply s1 (codes "150 opening BINARY mode data connection") in
    either Closed (leads_out (c ∷ arg)) h
      (either Closed o.regular (try_start_transfer-Closed s2 o (busy-Closed s2 refl)) h)

cmd_list-Closed : (s : Session) (b : Bool) (o : Outside) → Closed s → Closed (cmd_list s b o)
unfolding cmd_list reply emit is_idle
cmd_list-Closed s b o h =
    let s1 = record s {
      generation = add_size s.generation 1;
      xfer = listing;
      long_name_list = b;
    } in
    let s2 = reply (emit s1 cancel_timer) (codes "150 here comes the directory listing") in
    require_login-Closed s _ h
      (either Closed s.data_server (try_start_transfer-Closed s2 o (busy-Closed s2 refl)) h)

handle_command-Closed :
    (s : Session) (line : Bytes) (o : Outside) → Closed s → Closed (handle_command s line o)
unfolding handle_command cmd_user cmd_pass cmd_syst cmd_pwd cmd_type cmd_pasv cmd_retr cmd_quit
    close_data_server reply emit is_idle
handle_command-Closed s line o h =
    let (cmd, arg) = split_line line in
    let server : Closed (if s.data_server then close_data_server s else s) =
      either Closed s.data_server h h in
    run_command-either Closed s (to_upper cmd) arg o h (λ t. either Closed (needs_pass s.login) h h)
      h (require_login-Closed s _ h h) (require_login-Closed s _ h h)
      (require_login-Closed s _ h server) (λ b. cmd_list-Closed s b o h)
      (require_login-Closed s _ h (either Closed s.data_server (retrieve_file-Closed s arg o h) h))
      h h

step-Closed : (s : Session) (e : Event) → Closed s → Closed (step s e)
unfolding step pasv_timeout close_data_server reply emit is_idle
step-Closed s (command line o) h = handle_command-Closed s line o h
step-Closed s (connection_up o) h = data_connected-Closed s o h
step-Closed s connection_down h = data_disconnected-Closed s
step-Closed s (chunk generation d at_eof io_error) h =
    send_chunk_ready-Closed s generation d at_eof io_error h
step-Closed s (buffer_empty o) h = write_complete-Closed s o h
step-Closed s timeout h = either Closed (s.data_server && (is_idle s.xfer && is_free s.link)) h h
step-Closed s server_closed h = h

run-Closed : (s : Session) (es : List Event) → Closed s → Closed (run s es)
unfolding run
run-Closed s [] h = h
run-Closed s (e ∷ es) h = run-Closed (step s e) es (step-Closed s e h)

-- After any sequence of events of a new session, without a transfer its members hold neither a file nor a
-- directory.
pub reachable-Closed : (es : List Event) → Closed (run (start create) es)
unfolding start create reply emit
reachable-Closed es = run-Closed (start create) es (λ h. (refl, refl))
