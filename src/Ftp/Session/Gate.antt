-- ===== src/Ftp/Session/Gate.antt =====
-- What a session does before its login, and where RETR may lead.
use moban.Ftp.Session.{Session, Outside, is_logged_in, reply, emit}
use moban.Ftp.Session.Command.{
  require_login, needs_pass, cmd_user, cmd_pass, cmd_syst, cmd_pwd, cmd_type, cmd_pasv, cmd_list,
  cmd_retr, cmd_quit, run_command, handle_command, split_line, leads_out, retrieve_file,
}
use moban.Strings.Case.{same_bytes, to_upper}
use moban.Strings.Split.Laws.{find_lem, Lacks}
use moban.Prelude.{
  ◌==◌, ◌≡◌, ◌≢◌, ◌⊎◌, inl, inr, refl, Bool, true, false, ◌||◌, Bool-cases, Bytes, [], ◌∷◌,
  if◌then◌else◌, codes,
}

-- Nothing of the transfer is changed.
pub record Untouched (s s' : Session) : Type 0 where
  pub same_server : s'.data_server ≡ s.data_server
  pub same_link : s'.link ≡ s.link
  pub same_xfer : s'.xfer ≡ s.xfer
  pub same_file : s'.file ≡ s.file
  pub same_fd : s'.fd ≡ s.fd
  pub same_dir : s'.dir ≡ s.dir
  pub same_generation : s'.generation ≡ s.generation

either : (P : Session → Type 0) (t : Bool) {a b : Session} → P a → P b → P (if t then a else b)
either P true x y = x
either P false x y = y

by_case :
    (P : Session → Type 0) (t : Bool) {a b : Session}
    → (t ≡ true → P a)
    → P b
    → P (if t then a else b)
by_case P true x y = x refl
by_case P false x y = y

same :
    (s s' : Session)
    → s'.data_server ≡ s.data_server
    → s'.link ≡ s.link
    → s'.xfer ≡ s.xfer
    → s'.file ≡ s.file
    → s'.fd ≡ s.fd
    → s'.dir ≡ s.dir
    → s'.generation ≡ s.generation
    → Untouched s s'
same s s' a b c d e f g = record {
  same_server = a;
  same_link = b;
  same_xfer = c;
  same_file = d;
  same_fd = e;
  same_dir = f;
  same_generation = g;
}

require_login-Untouched :
    (s rest : Session) → is_logged_in s ≡ false → Untouched s (require_login s rest)
unfolding require_login reply emit
require_login-Untouched s rest h = rw h (same s _ refl refl refl refl refl refl refl)

cmd_pass-Untouched : (s : Session) → Untouched s (cmd_pass s)
unfolding cmd_pass reply emit
cmd_pass-Untouched s =
    either (Untouched s) (needs_pass s.login) (same s _ refl refl refl refl refl refl refl)
      (same s _ refl refl refl refl refl refl refl)

-- The chain of names that `run_command` compares with, for any property of what it gives.
pub run_command-either :
    (P : Session → Type 0) (s : Session) (cmd arg : Bytes) (o : Outside)
    → P (cmd_user s)
    → (same_bytes cmd (codes "PASS") ≡ true → P (cmd_pass s))
    → P (cmd_syst s)
    → P (cmd_pwd s)
    → P (cmd_type s)
    → P (cmd_pasv s o)
    → ((b : Bool) → P (cmd_list s b o))
    → P (cmd_retr s arg o)
    → P (cmd_quit s)
    → P (reply s (codes "502 command not implemented"))
    → P (run_command s cmd arg o)
unfolding run_command
run_command-either P s cmd arg o user pass syst pwd type pasv list retr quit other =
    let is = λ (t : Bytes). same_bytes cmd t in
    either P (is (codes "USER")) user (
      by_case P (is (codes "PASS")) pass (
        either P (is (codes "SYST")) syst (
          either P (is (codes "PWD") || is (codes "XPWD")) pwd (
            either P (is (codes "TYPE")) type (
              either P (is (codes "PASV")) pasv (
                either P (is (codes "LIST")) (list true) (
                  either P (is (codes "NLST")) (list false) (
                    either P (is (codes "RETR")) retr
                      (either P (is (codes "QUIT")) quit other)))))))))

-- Before the login no line changes the data server, the data connection, the transfer, its file, its
-- descriptors or its generation.
pub handle_command-Untouched :
    (s : Session) (line : Bytes) (o : Outside)
    → is_logged_in s ≡ false
    → Untouched s (handle_command s line o)
unfolding handle_command cmd_user cmd_syst cmd_pwd cmd_type cmd_pasv cmd_list cmd_retr cmd_quit
    reply emit
handle_command-Untouched s line o h =
    let (cmd, arg) = split_line line in
    run_command-either (Untouched s) s (to_upper cmd) arg o
      (same s _ refl refl refl refl refl refl refl) (λ t. cmd_pass-Untouched s)
      (same s _ refl refl refl refl refl refl refl) (require_login-Untouched s _ h)
      (require_login-Untouched s _ h) (require_login-Untouched s _ h)
      (λ b. require_login-Untouched s _ h) (require_login-Untouched s _ h)
      (same s _ refl refl refl refl refl refl refl) (same s _ refl refl refl refl refl refl refl)

require_login-Gated :
    (s rest : Session) → is_logged_in s ≡ false → is_logged_in (require_login s rest) ≡ false
unfolding require_login reply emit is_logged_in
require_login-Gated s rest h = rw h h

-- What a login wants: USER before, and PASS now.
abbrev pub Entered : Session → Bytes → Session → Type 0
Entered s cmd s' =
    (is_logged_in s' ≡ false)
    ⊎ ((needs_pass s.login ≡ true) × (same_bytes cmd (codes "PASS") ≡ true))

cmd_pass-Entered :
    (s : Session) (cmd : Bytes)
    → is_logged_in s ≡ false
    → same_bytes cmd (codes "PASS") ≡ true
    → Entered s cmd (cmd_pass s)
unfolding cmd_pass reply emit is_logged_in
cmd_pass-Entered s cmd h t = elim (Bool-cases (needs_pass s.login)) [
  | inl n ↦ inr (n, t)
  | inr n ↦ inl (rw n h)
]

-- A session that is not logged in stays so, but for a PASS that follows a USER.
pub handle_command-Entered :
    (s : Session) (line : Bytes) (o : Outside)
    → is_logged_in s ≡ false
    → Entered s (to_upper (split_line line).0) (handle_command s line o)
unfolding handle_command cmd_user cmd_syst cmd_pwd cmd_type cmd_pasv cmd_list cmd_retr cmd_quit
    reply emit is_logged_in
handle_command-Entered s line o h =
    let (cmd, arg) = split_line line in
    run_command-either (Entered s (to_upper cmd)) s (to_upper cmd) arg o (inl refl)
      (cmd_pass-Entered s (to_upper cmd) h) (inl h) (inl (require_login-Gated s _ h))
      (inl (require_login-Gated s _ h)) (inl (require_login-Gated s _ h))
      (λ b. inl (require_login-Gated s _ h)) (inl (require_login-Gated s _ h)) (inl h) (inl h)

-- A path below the root: it is not empty, does not begin with a slash, and has no "..".
abbrev pub Stays : Bytes → Type 0
Stays [] = ⊥
Stays (c ∷ arg) = ((c == b'/') ≡ false) × Lacks (codes "..") (c ∷ arg)

leads_out-Stays : (arg : Bytes) → leads_out arg ≡ false → Stays arg
leads_out-Stays [] h = absurd (cc)
leads_out-Stays (c ∷ arg) h = elim (Bool-cases (c == b'/')) [
  | inl t ↦ absurd (true_false (rw t at h))
  | inr t ↦ elim (find_lem (c ∷ arg) (codes "..")) [
    | inl (e, l) ↦ (t, l)
    | inr (n, e, f) ↦ absurd (true_false (rw (t, e) at h))
  ]
]
  where
    true_false : true ≢ false
    true_false h = cc

retrieve_file-Stays :
    (s : Session) (arg : Bytes) (o : Outside) → Untouched s (retrieve_file s arg o) ⊎ Stays arg
unfolding retrieve_file reply emit
retrieve_file-Stays s [] o = inl (same s _ refl refl refl refl refl refl refl)
retrieve_file-Stays s (c ∷ arg) o = elim (Bool-cases (leads_out (c ∷ arg))) [
  | inl t ↦ inl (rw t (same s _ refl refl refl refl refl refl refl))
  | inr t ↦ inr (leads_out-Stays (c ∷ arg) t)
]

-- RETR changes the transfer only for a path that stays below the root: one that is not empty, does
-- not begin with a slash and has no two dots in a row.
pub cmd_retr-Stays :
    (s : Session) (arg : Bytes) (o : Outside) → Untouched s (cmd_retr s arg o) ⊎ Stays arg
unfolding cmd_retr require_login reply emit
cmd_retr-Stays s arg o =
    let P = λ (s' : Session). Untouched s s' ⊎ Stays arg in
    either P (is_logged_in s)
      (either P s.data_server (retrieve_file-Stays s arg o)
        (inl (same s _ refl refl refl refl refl refl refl)))
      (inl (same s _ refl refl refl refl refl refl refl))
