-- ===== src/Ftp/Session.antt =====
-- ftp_session.h and ftp_session.cpp. What the disk, the pool and the kernel answer to a call is an
-- argument, and what the session does to its connections, its loop and its pool is kept in `effects`.
pub mod Transfer
pub mod Command
pub mod Stream
pub mod Deliveries
pub mod Gate
pub mod Closing
pub mod Resources
pub mod Races
pub mod Tests
use moban.Prelude.{
  ℕ, zero, suc, ◌+◌, Bool, true, false, not, ◌&&◌, ◌||◌, Bytes, Option, none, some, List, [], ◌∷◌,
  ◌++◌, ◌==◌, leb, ltb, if◌then◌else◌, length, take, drop, codes, add_size,
}

-- `State`.
pub data Login : Type 0 where
  need_user : Login
  need_pass : Login
  logged_in : Login

pub data Xfer : Type 0 where
  no_transfer : Xfer
  listing : Xfer
  retrieving : Xfer

-- `dataConn_`: not set, connected, or set and not connected any more.
pub data Link : Type 0 where
  no_link : Link
  up : Link
  closing : Link

-- The work given to the disk pool, with the generation of its transfer.
pub data Job : Type 0 where
  read_at : ℕ → ℕ → Job
  name_lines : ℕ → Bool → List Bytes → Job

pub data Effect : Type 0 where
  reply_line : Bytes → Effect
  data_send : Bytes → Effect
  data_shutdown : Effect
  data_force_close : Effect
  second_force_close : Effect
  close_data_server_later : Effect
  delete_server_later : Effect
  start_server : Effect
  start_timer : Effect
  cancel_timer : Effect
  submit : Job → Effect
  close_file : Effect
  close_dir : Effect
  control_shutdown : Effect
  control_force_close : Effect
  -- A call through a `dataConn_` that is not set; what follows is undefined.
  null_dereference : Effect

pub record Session : Type 0 where
  pub login : Login
  pub cwd : Bytes
  pub data_server : Bool
  pub link : Link
  pub xfer : Xfer
  pub long_name_list : Bool
  pub file : Bytes
  pub fd : Bool
  pub next_read_offset : ℕ
  pub done : Bool
  pub generation : ℕ
  pub dir : Bool
  -- The descriptors that a member held when another was put in its place: no one closes them.
  pub lost : ℕ
  pub effects : List Effect

-- What is outside: whether `open` or `opendir` succeeds, whether the pool takes a task, whether
-- `stat` finds a regular file, the names that `readdir` has left, and the address and the port of the
-- listener, as numbers whose low byte stands first in memory.
pub record Outside : Type 0 where
  pub opens : Bool
  pub accepts : Bool
  pub regular : Bool
  pub entries : List Bytes
  pub address : ℕ
  pub port : ℕ

abbrev pub read_chunk_size : ℕ
read_chunk_size = 65536

abbrev pub list_batch_entries : ℕ
list_batch_entries = 64

unfoldable pub create : Session
create = record {
  login = need_user;
  cwd = codes "/";
  data_server = false;
  link = no_link;
  xfer = no_transfer;
  long_name_list = true;
  file = [];
  fd = false;
  next_read_offset = 0;
  done = false;
  generation = 0;
  dir = false;
  lost = 0;
  effects = [];
}

unfoldable pub emit : Session → Effect → Session
emit s e = record s { effects = s.effects ++ e ∷ [] }

unfoldable pub reply : Session → Bytes → Session
unfolding emit
reply s text = emit s (reply_line text)

unfoldable pub start : Session → Session
unfolding reply
start s = reply s (codes "220 miniftpd ready")

unfoldable pub is_logged_in : Session → Bool
is_logged_in s = elim s.login [ logged_in ↦ true | need_user ↦ false | need_pass ↦ false ]

unfoldable pub is_connected : Link → Bool
is_connected up = true
is_connected closing = false
is_connected no_link = false

unfoldable pub is_idle : Xfer → Bool
is_idle no_transfer = true
is_idle listing = false
is_idle retrieving = false

-- `dataConn_->shutdown()`, which does not look whether there is one.
unfoldable pub shutdown_link : Session → Session
unfolding emit
shutdown_link s = elim s.link [
  | no_link ↦ emit s null_dereference
  | up ↦ emit (record s { link = closing }) data_shutdown
  | closing ↦ emit s data_shutdown
]

-- `dataConn_->forceClose()`, where there is one.
unfoldable pub force_close_link : Session → Session
unfolding emit
force_close_link s = elim s.link [
  | no_link ↦ s
  | up ↦ emit (record s { link = closing }) data_force_close
  | closing ↦ emit s data_force_close
]

-- `abortTransfer`. The callback that it clears does nothing without a transfer.
unfoldable pub abort_transfer : Session → Session
abort_transfer s = record s {
  xfer = no_transfer;
  done = false;
  file = [];
  next_read_offset = 0;
  generation = add_size s.generation 1;
  fd = false;
  dir = false;
  effects =
      s.effects
      ++ ((if s.fd then close_file ∷ [] else []) ++ (if s.dir then close_dir ∷ [] else []));
}

-- `closeDataServer`.
unfoldable pub close_data_server : Session → Session
close_data_server s = record s {
  link = no_link;
  data_server = false;
  effects = s.effects ++ (if s.data_server then delete_server_later ∷ [] else []);
}

-- The end of a transfer that failed: the connection and, later, the server are closed.
unfoldable pub give_up : Session → Session
unfolding force_close_link emit
give_up s = emit (force_close_link s) close_data_server_later

unfoldable pub transfer_rejected : Session → Session
unfolding reply abort_transfer give_up
transfer_rejected s = give_up (abort_transfer (reply s (codes "451 local error in processing")))

unfoldable pub end_reply : Session → Session
unfolding reply
end_reply s = elim s.xfer [
  | listing ↦ reply s (codes "226 list transfer complete")
  | retrieving ↦ reply s (codes "226 transfer complete")
  | no_transfer ↦ s
]

-- `sendDataEndReply`.
unfoldable pub send_data_end_reply : Session → Session
unfolding end_reply emit abort_transfer
send_data_end_reply s = abort_transfer (emit (end_reply s) cancel_timer)
