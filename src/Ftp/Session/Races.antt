-- ===== src/Ftp/Session/Races.antt =====
-- The orders of events that a session meets: late chunks, second connections, a failed open, and a
-- PASV in the middle of a transfer.
use moban.Ftp.Session.{
  Session, Outside, Effect, reply_line, null_dereference, no_transfer, retrieving, logged_in,
  no_link, up, emit, reply, abort_transfer, close_data_server, give_up, force_close_link,
}
use moban.Ftp.Session.Transfer.{
  send_chunk_ready, try_start_transfer, failed_open, data_connected, data_disconnected,
}
use moban.Ftp.Session.Command.{cmd_pasv, begin_retrieval}
use moban.Prelude.{
  ◌<◌, ◌^◌, ◌≡◌, refl, ap, sym, ◌∙◌, Bool, true, false, ◌==◌, Bytes, List, [], ◌∷◌, ◌++◌, codes,
  add_size, arith, append-nil, append_assoc,
}

-- A session in the middle of a retrieval, with a listener.
abbrev pub transferring : Session → Session
transferring s = record s {
  login = logged_in;
  data_server = true;
  link = up;
  xfer = retrieving;
  done = false;
}

-- A chunk that was asked for before the transfer was aborted is dropped, and it is still dropped
-- when the next retrieval has begun. The generation is a 64-bit number.
pub late_chunk :
    (s : Session) (arg : Bytes) (d : Bytes) (at_eof io_error : Bool)
    → s.generation < 2 ^ 64
    → let next = begin_retrieval (close_data_server (abort_transfer s)) arg in
      (send_chunk_ready (abort_transfer s) s.generation d at_eof io_error ≡ abort_transfer s)
      × (send_chunk_ready next s.generation d at_eof io_error ≡ next)
unfolding send_chunk_ready abort_transfer close_data_server
late_chunk s arg d at_eof io_error h =
    let one : (s.generation == add_size s.generation 1) ≡ false = ground arith in
    let two : (s.generation == add_size (add_size s.generation 1) 1) ≡ false = ground arith in
    (rw one refl, rw two refl)

text_of : Effect → List Bytes
text_of (reply_line t) = t ∷ []
text_of e = []

-- The replies among the effects.
unfoldable pub replies : List Effect → List Bytes
unfolding text_of
replies [] = []
replies (e ∷ es) = text_of e ++ replies es

replies-append : (xs ys : List Effect) → replies (xs ++ ys) ≡ replies xs ++ replies ys
unfolding replies
replies-append [] ys = refl
replies-append (e ∷ xs) ys =
    ap (λ t. text_of e ++ t) (replies-append xs ys)
    ∙ sym (append_assoc (text_of e) (replies xs) (replies ys))

replies-emit :
    (s : Session) (e : Effect) → replies ((emit s e).effects) ≡ replies s.effects ++ text_of e
unfolding emit replies
replies-emit s e =
    replies-append s.effects (e ∷ []) ∙ ap (λ t. replies s.effects ++ t) (append-nil (text_of e))

-- A second data connection in the middle of a retrieval is refused, but when it goes down the
-- transfer over the first is aborted, whose connection is still up.
pub second_connection :
    (s : Session) (o : Outside)
    → let s' = data_disconnected (data_connected (transferring s) o) in
      (s'.xfer ≡ no_transfer) × (s'.generation ≡ add_size s.generation 1) × (s'.link ≡ up)
unfolding data_disconnected data_connected emit reply abort_transfer
second_connection s o = (refl, refl, refl)

-- A PASV in the middle of a retrieval forgets the data connection and not the transfer: the empty
-- chunk at the end of the file then shuts a connection that is not set.
pub pasv_in_transfer :
    (s : Session) (o : Outside)
    → let s1 = cmd_pasv (transferring s) o in
      let s2 = send_chunk_ready s1 s.generation [] true false in
      (s1.link ≡ no_link) × (s2.effects ≡ s1.effects ++ null_dereference ∷ [])
unfolding cmd_pasv send_chunk_ready
pasv_in_transfer s o =
    let e : (s.generation == s.generation) ≡ true = ground arith in (refl, rw e refl)

-- A retrieval whose file cannot be opened is answered twice, once when the open fails and once when
-- the data connection, which is closed for it, goes down.
pub failed_retrieval :
    (s : Session) (o : Outside)
    → let s1 =
        try_start_transfer (record (transferring s) { dir = false }) (record o { opens = false }) in
      replies ((data_disconnected s1).effects)
      ≡ replies s.effects
        ++ codes "550 failed to open file" ∷ codes "426 connection closed; transfer aborted" ∷ []
unfolding try_start_transfer failed_open data_disconnected give_up force_close_link replies
failed_retrieval s o = simp (replies-append, append_assoc)
