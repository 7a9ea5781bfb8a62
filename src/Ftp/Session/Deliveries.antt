-- ===== src/Ftp/Session/Deliveries.antt =====
-- The control connection over its whole life: each delivery is read by `readFd` of the connection's input
-- buffer, then `onMessage` runs.
use moban.Ftp.Session.{Session, Outside}
use moban.Ftp.Session.Command.{on_message}
use moban.Ftp.Session.Stream.{Handles, done, next, empty_lacks, not_closed, on_message-Reads}
use moban.Buffer.{Buffer, new, read_fd, received, writeable_bytes, extra_size, cheap_prepend}
use moban.Buffer.Layout.{IsValid, contents}
use moban.Buffer.Contents.{new-IsValid}
use moban.Buffer.Socket.{read_fd_lem}
use moban.Buffer.Lines.{crlf}
use moban.Buffer.Cuts.{Cut, rest, Cut-append, Cut-rest}
use moban.Prelude.{
  ℕ, ◌+◌, ◌^◌, ◌≤◌, ◌<◌, ◌≡◌, ◌≢◌, ap, sym, ◌∙◌, Bytes, List, [], ◌∷◌, ◌++◌, length, append_assoc,
  append-nil, subst,
}

-- The bytes that came, and what is outside while their commands run.
abbrev pub Delivery : Type 0
Delivery = Bytes × (ℕ → Outside)

abbrev pub arrive : Buffer → Bytes → Buffer
arrive b d = (read_fd b (received d)).0

abbrev pub deliver : Session → Buffer → List Delivery → Session × Buffer
deliver s b [] = (s, b)
deliver s b ((d, o) ∷ h) = let (s', b') = on_message s (arrive b d) o in deliver s' b' h

abbrev pub stream : List Delivery → Bytes
stream [] = []
stream ((d, o) ∷ h) = d ++ stream h

-- Each delivery fits into both blocks of `readv`, the vector stays below 2 ^ 63 bytes, and no line is left
-- unfinished with more than 4096 bytes.
abbrev pub Short : Session → Buffer → List Delivery → Type 0
Short s b [] = Unit
Short s b ((d, o) ∷ h) =
    let (s', b') = on_message s (arrive b d) o in
    (length d ≤ writeable_bytes b + extra_size)
    × (length b.buffer + extra_size + cheap_prepend < 2 ^ 63)
    × (length (contents b') ≤ 4096)
    × Short s' b' h

-- The lines of the text were handled in order, and its rest is left.
pub record Handled (text : Bytes) (s : Session) (after : Session × Buffer) : Type 0 where
  pub lines : List Bytes
  pub cut : Cut text lines (contents after.1)
  pub handled : Handles s lines after.0

Handles-append :
    {s t u : Session} {ls ms : List Bytes}
    → Handles s ls t
    → Handles t ms u
    → Handles s (ls ++ ms) u
Handles-append done e = e
Handles-append (next o d) e = next o (Handles-append d e)

deliver-Handled :
    (s : Session) (b : Buffer) (h : List Delivery)
    → IsValid b
    → ((xs ys : Bytes) → contents b ≢ xs ++ (crlf ++ ys))
    → Short s b h
    → Handled (contents b ++ stream h) s (deliver s b h)
deliver-Handled s b [] v lacks k = record {
  lines = [];
  cut = rw (append-nil (contents b)) (rest lacks);
  handled = done;
}
deliver-Handled s b ((d, o) ∷ h) v lacks (fits, small, short, k) =
    let (v', e, n, m) = read_fd_lem b d v fits small in
    let after = on_message s (arrive b d) o in
    let r = on_message-Reads s (arrive b d) o v' in
    let ih = deliver-Handled after.0 after.1 h r.valid (Cut-rest r.cut) k in
    let same : after.0 ≡ r.left = r.closed ∙ not_closed (contents after.1) r.left short in
    let front : Cut (contents b ++ d) r.lines (contents after.1) =
      subst (λ t. Cut t r.lines (contents after.1)) e r.cut in
    record {
      lines = r.lines ++ ih.lines;
      cut = rw (← append_assoc (contents b) d (stream h)) (Cut-append (stream h) front ih.cut);
      handled = Handles-append (subst (Handles s r.lines) (sym same) r.handled) ih.handled;
    }

-- From an empty buffer on, whatever pieces the bytes of a connection come in, the session handles the
-- lines of the whole stream, each once and in order, and the bytes behind the last line end wait in the
-- buffer, while no line is left unfinished with more than 4096 bytes, no delivery is larger than the two
-- blocks of `readv` and the vector stays below 2 ^ 63 bytes.
pub deliver-new :
    (s : Session) (h : List Delivery) → Short s new h → Handled (stream h) s (deliver s new h)
deliver-new s h k =
    let (v, e, w) = new-IsValid in
    let whole =
      deliver-Handled s new h v (λ xs ys. empty_lacks (contents new) xs ys (ap length e)) k in
    subst (λ t. Handled t s (deliver s new h)) (ap (λ t. t ++ stream h) e) whole
