-- ===== src/Ftp/Session/Tests.antt =====
-- The theorems on sessions, at a session that lists and retrieves.
use moban.Strings.Split.{find}
use moban.Strings.Case.{same_bytes, to_upper, to_upper_ascii}
use moban.Buffer.Contents.{append_lem, new-IsValid, new-Fits}
use moban.Buffer.Layout.{IsValid, contents}
use moban.Buffer.{Buffer, new, append, read_fd, find_crlf, retrieve_until}
use moban.Ftp.Session.Stream.{Reads, on_message-Reads}
use moban.Ftp.Session.Deliveries.{Delivery, deliver, stream, Short, Handled, deliver-new}
use moban.Ftp.Session.{Outside, create, start, is_logged_in}
use moban.Ftp.Session.Command.{handle_command, cmd_retr, on_message}
use moban.Ftp.Session.Gate.{Untouched, Stays, handle_command-Untouched, cmd_retr-Stays}
use moban.Ftp.Session.Closing.{Closed}
use moban.Ftp.Session.Resources.{
  Event, command, connection_up, chunk, connection_down, run, reachable-Closed,
}
use moban.Ftp.Session.Races.{transferring}
use moban.Prelude.{◌≡◌, ◌⊎◌, refl, true, false, List, [], ◌∷◌, codes, arith, ℕ, leb, ltb, ◌≤◌, ◌<◌}

abbrev outside : Outside
outside = record {
  opens = true;
  accepts = true;
  regular = true;
  entries = codes "a.txt" ∷ [];
  address = 16777343;
  port = 53535;
}

abbrev retrieval : List Event
retrieval =
    command (codes "USER ftp") outside
    ∷ command (codes "pass x") outside
    ∷ command (codes "PASV") outside
    ∷ connection_up outside
    ∷ command (codes "RETR a.txt") outside
    ∷ chunk 1 (codes "hello") false false
    ∷ chunk 1 [] true false
    ∷ connection_down
    ∷ []

reachable-Closed_example : Closed (run (start create) retrieval)
reachable-Closed_example = reachable-Closed retrieval

-- A second RETR while the first one runs: the first descriptor is lost, and still open when the transfer and
-- its connection have ended.
abbrev twice : List Event
twice =
    command (codes "USER ftp") outside
    ∷ command (codes "PASS x") outside
    ∷ command (codes "PASV") outside
    ∷ connection_up outside
    ∷ command (codes "RETR a.txt") outside
    ∷ command (codes "RETR a.txt") outside
    ∷ connection_down
    ∷ []

second_retrieval_leaks : (run (start create) twice).lost ≡ 1
unfolding run start create is_logged_in same_bytes to_upper to_upper_ascii find
second_retrieval_leaks = refl

handle_command-Untouched_example :
    Untouched create (handle_command create (codes "RETR a.txt") outside)
unfolding create is_logged_in
handle_command-Untouched_example = handle_command-Untouched create (codes "RETR a.txt") outside refl

cmd_retr-Stays_example :
    Untouched (transferring create) (cmd_retr (transferring create) (codes "../x") outside)
    ⊎ Stays (codes "../x")
cmd_retr-Stays_example = cmd_retr-Stays (transferring create) (codes "../x") outside

abbrev pieces : List Delivery
pieces =
    (codes "US", λ i. outside)
    ∷ (codes "ER ftp\r\nPA", λ i. outside)
    ∷ (codes "SS x\r\n", λ i. outside)
    ∷ []

leb→le : {m n : ℕ} → leb m n ≡ true → m ≤ n
leb→le h = ground arith

ltb→lt : {m n : ℕ} → ltb m n ≡ true → m < n
ltb→lt h = ground arith

pieces-Short : Short create new pieces
unfolding create new read_fd on_message find_crlf retrieve_until
pieces-Short = (
  leb→le refl,
  ltb→lt refl,
  leb→le refl,
  (leb→le refl, ltb→lt refl, leb→le refl, (leb→le refl, ltb→lt refl, leb→le refl, tt)),
)

deliver-new_example : Handled (stream pieces) create (deliver create new pieces)
deliver-new_example = deliver-new create pieces pieces-Short

abbrev filled : Buffer
filled = append new (codes "USER ftp\r\nPASS x\r\nLI")

filled-IsValid : IsValid filled
filled-IsValid =
    (append_lem new (codes "USER ftp\r\nPASS x\r\nLI") new-IsValid.0 (new-Fits 20 (omega arith))).0

on_message-Reads_example : Reads (contents filled) create (on_message create filled (λ i. outside))
on_message-Reads_example = on_message-Reads create filled (λ i. outside) filled-IsValid
