-- ===== src/Files/Replace.antt =====
-- `write_file` and `write_file_atomic`: the system calls that they make, in their order, with
-- what the kernel answers to each as an argument; `none` is success, and a number is `errno`.
use Prim.Native.String.{String}
use moban.Prelude.{
  ℕ, zero, suc, ◌%◌, ◌==◌, Bool, true, false, Option, none, some, List, [], ◌∷◌, ◌++◌, Bytes, codes,
  map, if◌then◌else◌, ◌&&◌,
}
use moban.Files.Loops.{Result, ok, err, running, Answer, write_all, eio}
use moban.Files.Names.{temp_name}

pub data Call : Type 0 where
  -- lstat, and open with O_CREAT and O_EXCL
  looks : Bytes → Call
  creates : Bytes → Call
  -- open with O_CREAT and O_TRUNC
  truncates : Bytes → Call
  -- On the open descriptor: fstat, fchmod, write, fsync, close.
  inspects : Call
  sets_mode : ℕ → Call
  writes : Bytes → Call
  flushes : Call
  closes : Call
  renames : Bytes → Bytes → Call
  unlinks : Bytes → Call
  syncs_directory : Bytes → Call

-- A computation that makes calls.
abbrev pub M {ℓ} : Type ℓ → Type ℓ
M A = List Call × Result A

abbrev pub after {ℓ} : {A : Type ℓ} → List Call → M A → M A
after calls m = (calls ++ m.0, m.1)

infixl 5 ◌>>=◌ ◌>>◌
abbrev pub ◌>>=◌ {ℓ κ} : {A : Type ℓ} {B : Type κ} → M A → (A → M B) → M B
(calls, ok a) >>= f = after calls (f a)
(calls, err e action) >>= f = (calls, err e action)
(calls, running) >>= f = (calls, running)

abbrev pub ◌>>◌ {ℓ} : {B : Type ℓ} → M (Unit {0}) → M B → M B
m >> k = m >>= λ _. k

abbrev pub call : Call → Option ℕ → String → M (Unit {0})
call c none action = (c ∷ [], ok tt)
call c (some e) action = (c ∷ [], err e action)

-- The destructors of the scope, when an exception leaves it.
abbrev pub on_exit {ℓ} : {A : Type ℓ} → List Call → M A → M A
on_exit cleanup (calls, ok a) = (calls, ok a)
on_exit cleanup (calls, err e action) = (calls ++ cleanup, err e action)
on_exit cleanup (calls, running) = (calls, running)

unfoldable pub write_content : Bytes → List Answer → M (Unit {0})
write_content content answers =
    let written = write_all content answers in (map writes written.0, written.1)

-- `write_file`. `ScopedFd` closes the descriptor after a failed write, and not a second time
-- after a failed close.
unfoldable pub write_file : Bytes → Bytes → Option ℕ → List Answer → Option ℕ → M (Unit {0})
unfolding write_content
write_file path content open_answer answers close_answer = do
  call (truncates path) open_answer "cannot open file"
  on_exit (closes ∷ []) (write_content content answers)
  call closes close_answer "cannot close file"

-- The kernel's answers to `write_file_atomic`; the functions go by the attempt.
pub record Kernel : Type 0 where
  -- Whether the target is a regular file, with its mode.
  pub target : Option (Bool × ℕ)
  pub pid : ℕ
  pub counter : ℕ → ℕ
  pub random : ℕ → ℕ
  pub opened : ℕ → Option ℕ
  pub created_mode : ℕ × Option ℕ
  pub private_mode : Option ℕ
  pub written : List Answer
  pub final_mode : Option ℕ
  pub flushed : Option ℕ
  -- The device and the inode of the descriptor and of the path, or `errno`.
  pub file_identity : (ℕ × ℕ) × Option ℕ
  pub path_identity : (ℕ × ℕ) × Option ℕ
  pub closed : Option ℕ
  pub renamed : Option ℕ

-- `TargetMode`; `& 0777` keeps the nine lowest bits.
unfoldable pub target_mode : Option (Bool × ℕ) → Option ℕ
target_mode none = none
target_mode (some (true, mode)) = some (mode % 512)
target_mode (some (false, mode)) = none

abbrev pub eexist : ℕ
eexist = 17

-- One round of `CreateTempFile`, and what follows if the name is taken.
abbrev pub create_attempt : Bytes → Option ℕ → M Bytes → M Bytes
create_attempt candidate none next = (creates candidate ∷ [], ok candidate)
create_attempt candidate (some e) next =
    if e == eexist
    then after (creates candidate ∷ []) next
    else (creates candidate ∷ [], err e "cannot create temporary file for")

unfoldable pub create_temp_file : Kernel → Bytes → Bytes → ℕ → ℕ → M Bytes
create_temp_file k directory name attempt zero = ([], err eexist "cannot create temporary file for")
create_temp_file k directory name attempt (suc more) =
    create_attempt
      (directory ++ codes "/" ++ temp_name name k.pid (k.counter attempt) (k.random attempt))
      (k.opened attempt) (create_temp_file k directory name (suc attempt) more)

-- The end of `VerifyTempFile`, after its two calls.
abbrev pub same_file : ℕ × ℕ → ℕ × ℕ → Result (Unit {0})
same_file (dev, ino) (dev', ino') =
    if (dev == dev') && (ino == ino')
    then ok tt
    else err eio "temporary file was replaced while writing"

unfoldable pub verify_temp_file : Kernel → Bytes → M (Unit {0})
verify_temp_file k temp = do
  call inspects (k.file_identity).1 "cannot stat temporary file for"
  call (looks temp) (k.path_identity).1 "cannot stat temporary file for"
  ([], same_file (k.file_identity).0 (k.path_identity).0)

-- The mode of a file that the kernel made, from `fstat`.
abbrev pub inspect_created : ℕ × Option ℕ → M ℕ
inspect_created (mode, none) = (inspects ∷ [], ok (mode % 512))
inspect_created (mode, some e) = (inspects ∷ [], err e "cannot stat temporary file for")

abbrev pub mode_or : Option ℕ → ℕ → ℕ
mode_or none default_mode = default_mode
mode_or (some mode) default_mode = mode

-- From the open temporary file to its check.
unfoldable pub fill_temp_file : Kernel → Bytes → Bytes → M (Unit {0})
unfolding write_content verify_temp_file
fill_temp_file k temp content = do
  default_mode ← inspect_created k.created_mode
  call (sets_mode 384) k.private_mode "cannot set permissions on"
  write_content content k.written
  call (sets_mode (mode_or (target_mode k.target) default_mode)) k.final_mode
      "cannot set permissions on"
  call flushes k.flushed "cannot flush file"
  verify_temp_file k temp

-- `write_file_atomic`; `directory` and `name` are the parent path, or ".", and the file name.
-- An exception unlinks the temporary file and closes its descriptor, if that is still open.
unfoldable pub write_file_atomic : Kernel → (path directory name content : Bytes) → M (Unit {0})
unfolding create_temp_file fill_temp_file
write_file_atomic k path directory name content = do
  temp ← after (looks path ∷ []) (create_temp_file k directory name 0 128)
  on_exit (unlinks temp ∷ closes ∷ []) (fill_temp_file k temp content)
  on_exit (unlinks temp ∷ []) (do
    call closes k.closed "cannot close file"
    call (renames temp path) k.renamed "cannot replace file")
  (syncs_directory directory ∷ [], ok tt)
