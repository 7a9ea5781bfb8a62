-- ===== src/Ftp/Session/Command.antt =====
-- The control connection of a session: lines, commands and their gates.
use moban.Ftp.Session.{
  Login, need_user, need_pass, logged_in, listing, retrieving, Link, no_link, up, closing,
  start_server, start_timer, cancel_timer, control_shutdown, control_force_close, Session, Outside,
  emit, reply, is_logged_in, is_idle, close_data_server,
}
use moban.Ftp.Session.Transfer.{try_start_transfer}
use moban.Buffer.{Buffer, find_crlf, retrieve_until, readable_bytes, peek}
use moban.Strings.Case.{same_bytes, to_upper}
use moban.Strings.Split.{find}
use moban.Config.Value.{to_string}
use moban.Prelude.{
  ℕ, zero, suc, ◌+◌, ◌-◌, ◌/◌, ◌%◌, ◌^◌, Bool, true, false, ◌&&◌, ◌||◌, Bytes, none, some, [], ◌∷◌,
  ◌++◌, ◌==◌, ltb, if◌then◌else◌, slice, codes, add_size,
}

abbrev please_login : Bytes
please_login = codes "530 please login with USER and PASS"

-- `requireLogin`, in front of the rest of a command.
unfoldable pub require_login : Session → Session → Session
unfolding is_logged_in reply
require_login s rest = if is_logged_in s then rest else reply s please_login

unfoldable pub cmd_user : Session → Session
unfolding reply
cmd_user s = reply (record s { login = need_pass }) (codes "331 password required")

unfoldable pub needs_pass : Login → Bool
needs_pass need_pass = true
needs_pass need_user = false
needs_pass logged_in = false

unfoldable pub cmd_pass : Session → Session
unfolding needs_pass reply
cmd_pass s =
    if needs_pass s.login
    then reply (record s { login = logged_in }) (codes "230 login successful")
    else reply s (codes "503 login with USER first")

unfoldable pub cmd_syst : Session → Session
unfolding reply
cmd_syst s = reply s (codes "215 UNIX Type: L8")

unfoldable pub cmd_pwd : Session → Session
unfolding require_login reply
cmd_pwd s =
    require_login s (reply s (codes "257 \"" ++ (s.cwd ++ codes "\" is the current directory")))

unfoldable pub cmd_type : Session → Session
unfolding require_login reply
cmd_type s = require_login s (reply s (codes "200 type set to I"))

-- The byte of a number at a place in memory.
unfoldable pub byte_at : ℕ → ℕ → ℕ
byte_at n i = n / 256 ^ i % 256

-- `pasvReply`.
unfoldable pub pasv_reply : (address port : ℕ) → Bytes
unfolding byte_at
pasv_reply address port =
    let shown = λ (n i : ℕ). to_string (byte_at n i) in
    let comma = codes "," in
    codes "227 Entering Passive Mode ("
    ++ (shown address 0
        ++ (comma
            ++ (shown address 1
                ++ (comma
                    ++ (shown address 2
                        ++ (comma
                            ++ (shown address 3
                                ++ (comma
                                    ++ (shown port 0
                                        ++ (comma ++ (shown port 1 ++ codes ")")))))))))))

-- `cmdPasv`; the timer's callback is `pasv_timeout`.
unfoldable pub cmd_pasv : Session → Outside → Session
unfolding require_login reply emit close_data_server pasv_reply
cmd_pasv s o =
    let s1 = if s.data_server then close_data_server s else s in
    let s2 = emit (emit (record s1 { data_server = true }) start_server) start_timer in
    require_login s (reply s2 (pasv_reply o.address o.port))

unfoldable pub is_free : Link → Bool
is_free no_link = true
is_free up = false
is_free closing = false

-- The callback of the timer that `cmdPasv` starts.
unfoldable pub pasv_timeout : Session → Session
unfolding is_free is_idle reply close_data_server
pasv_timeout s =
    if s.data_server && (is_idle s.xfer && is_free s.link)
    then close_data_server (reply s (codes "425 passive mode timed out"))
    else s

unfoldable pub cmd_list : Session → (long_names : Bool) → Outside → Session
unfolding require_login reply emit try_start_transfer
cmd_list s long_names o =
    let s1 = record s {
      generation = add_size s.generation 1;
      xfer = listing;
      long_name_list = long_names;
    } in
    let s2 = reply (emit s1 cancel_timer) (codes "150 here comes the directory listing") in
    require_login s
      (if s.data_server then try_start_transfer s2 o else reply s (codes "425 use PASV first"))

-- A path that leads out of the root, or is empty.
abbrev pub leads_out : Bytes → Bool
leads_out [] = true
leads_out (c ∷ arg) =
    c == b'/' || elim (find (c ∷ arg) (codes "..")) [ none ↦ false | some n ↦ true ]

abbrev pub begin_retrieval : Session → Bytes → Session
begin_retrieval s arg = record s {
  generation = add_size s.generation 1;
  xfer = retrieving;
  file = codes "./" ++ arg;
  next_read_offset = 0;
  done = false;
}

unfoldable pub retrieve_file : Session → Bytes → Outside → Session
unfolding reply emit try_start_transfer
retrieve_file s [] o = reply s (codes "501 no file name given")
retrieve_file s (c ∷ arg) o =
    let s1 = emit (begin_retrieval s (c ∷ arg)) cancel_timer in
    let s2 = reply s1 (codes "150 opening BINARY mode data connection") in
    if leads_out (c ∷ arg)
    then reply s (codes "550 invalid path")
    else (if o.regular then try_start_transfer s2 o else reply s (codes "550 no such file"))

unfoldable pub cmd_retr : Session → Bytes → Outside → Session
unfolding require_login reply retrieve_file
cmd_retr s arg o =
    require_login s
      (if s.data_server then retrieve_file s arg o else reply s (codes "425 use PASV first"))

unfoldable pub cmd_quit : Session → Session
unfolding reply emit
cmd_quit s = emit (reply s (codes "221 bye")) control_shutdown

-- A line in front of its first space, and behind it.
unfoldable pub split_line : Bytes → Bytes × Bytes
split_line [] = ([], [])
split_line (c ∷ line) =
    let rest = split_line line in if c == b' ' then ([], line) else (c ∷ rest.0, rest.1)

unfoldable pub run_command : Session → (cmd arg : Bytes) → Outside → Session
unfolding cmd_user cmd_pass cmd_syst cmd_pwd cmd_type cmd_pasv cmd_list cmd_retr cmd_quit reply
run_command s cmd arg o =
    if same_bytes cmd (codes "USER")
    then cmd_user s
    else (if same_bytes cmd (codes "PASS")
        then cmd_pass s
        else (if same_bytes cmd (codes "SYST")
            then cmd_syst s
            else (if same_bytes cmd (codes "PWD") || same_bytes cmd (codes "XPWD")
                then cmd_pwd s
                else (if same_bytes cmd (codes "TYPE")
                    then cmd_type s
                    else (if same_bytes cmd (codes "PASV")
                        then cmd_pasv s o
                        else (if same_bytes cmd (codes "LIST")
                            then cmd_list s true o
                            else (if same_bytes cmd (codes "NLST")
                                then cmd_list s false o
                                else (if same_bytes cmd (codes "RETR")
                                    then cmd_retr s arg o
                                    else (if same_bytes cmd (codes "QUIT")
                                        then cmd_quit s
                                        else reply s (codes "502 command not implemented"))))))))))

unfoldable pub handle_command : Session → Bytes → Outside → Session
unfolding split_line run_command
handle_command s line o = let (cmd, arg) = split_line line in run_command s (to_upper cmd) arg o

-- The loop of `onMessage`. Every round takes a line, so the number of readable bytes is fuel
-- enough; `outside n` is what is outside while the command that is read at fuel `n` runs.
unfoldable pub on_message_loop : ℕ → Session → Buffer → (ℕ → Outside) → Session × Buffer
unfolding handle_command emit
on_message_loop zero s b outside = (s, b)
on_message_loop (suc fuel) s b outside = elim (find_crlf b) [
  | none ↦ (if ltb 4096 (readable_bytes b) then emit s control_force_close else s, b)
  | some crlf ↦
      let line = slice b.buffer (peek b) (crlf - peek b) in
      let b' = retrieve_until b (crlf + 2) in
      let s' = handle_command s line (outside fuel) in
      if readable_bytes b' == 0 then (s', b') else on_message_loop fuel s' b' outside
]

unfoldable pub on_message : Session → Buffer → (ℕ → Outside) → Session × Buffer
unfolding on_message_loop
on_message s b outside = on_message_loop (readable_bytes b) s b outside
