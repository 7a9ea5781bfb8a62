-- ===== src/Files/Loops.antt =====
-- The loops of `ReadInto` and `WriteAll`.
use moban.Prelude.{
  ℕ, zero, suc, ◌+◌, ◌≤◌, ◌==◌, ◌≡◌, refl, ap, Bool, true, false, List, [], ◌∷◌, ◌++◌, Bytes, take,
  drop, length, if◌then◌else◌, arith, take-append-drop, length-drop, Bool-cases, inl, inr, sym, ◌∙◌,
  ◌≢◌, append-nil, append_assoc, ◌&&◌, Option, some, none, not,
}
use Prim.Native.String.{String}

-- A function that throws a `system_error` has a code and what it was about to do.
pub data Result {ℓ} (A : Type ℓ) : Type ℓ where
  ok : A → Result A
  err : ℕ → String → Result A
  running : Result A

abbrev pub eintr : ℕ
eintr = 4

abbrev pub eio : ℕ
eio = 5

-- `write`: the number of bytes that it took, or `errno`.
pub data Answer : Type 0 where
  takes : ℕ → Answer
  fails : ℕ → Answer

-- `read`: the bytes that it gave, or `errno`.
pub data Reading : Type 0 where
  gets : Bytes → Reading
  breaks : ℕ → Reading

-- `WriteAll` of what is left of the content: the pieces that were written, and the end.
unfoldable pub write_all : Bytes → List Answer → List Bytes × Result (Unit {0})
write_all [] answers = ([], ok tt)
write_all (b ∷ bs) [] = ([], running)
write_all (b ∷ bs) (fails e ∷ answers) =
    let rest = write_all (b ∷ bs) answers in
    if e == eintr then rest else ([], err e "cannot write file")
write_all (b ∷ bs) (takes zero ∷ answers) = ([], err eio "cannot write file")
write_all (b ∷ bs) (takes (suc n) ∷ answers) =
    let rest = write_all (drop (suc n) (b ∷ bs)) answers in (take (suc n) (b ∷ bs) ∷ rest.0, rest.1)

-- The loop of `ReadInto`, from what was read so far.
unfoldable pub read_loop : Bytes → List Reading → Result Bytes
read_loop sink [] = running
read_loop sink (breaks e ∷ answers) =
    let rest = read_loop sink answers in if e == eintr then rest else err e "cannot read file"
read_loop sink (gets [] ∷ answers) = ok sink
read_loop sink (gets (b ∷ bs) ∷ answers) = read_loop (sink ++ b ∷ bs) answers

-- `ReadInto`, with the answer to `open`; the reserved capacity does not show.
unfoldable pub read_into : Option ℕ → List Reading → Result Bytes
unfolding read_loop
read_into (some e) answers = err e "cannot open file"
read_into none answers = read_loop [] answers

-- `QueryPath`: the predicate's answer, with whether it reported an error; `none` is the lack of
-- memory for the path.
unfoldable pub query_path : Option (Bool × Bool) → Bool
query_path none = false
query_path (some (answer, error)) = answer && not error

-- One step of a directory iterator: an entry, or the error that ended it.
pub data Entry : Type 0 where
  named : Bytes → Entry
  broken : ℕ → Entry

-- The loop of `list_directory`.
unfoldable pub list_entries : List Bytes → List Entry → Result (List Bytes)
list_entries names [] = ok names
list_entries names (named n ∷ entries) = list_entries (names ++ n ∷ []) entries
list_entries names (broken e ∷ entries) = err e "cannot list directory"

abbrev pub enotdir : ℕ
enotdir = 20

-- `list_directory`: the status of the path (whether it is a directory, or an error), the error of
-- opening it, and its entries.
unfoldable pub list_directory : Bool → Option ℕ → Option ℕ → List Entry → Result (List Bytes)
unfolding list_entries
list_directory is_dir (some e) opened entries = err e "cannot list directory"
list_directory false none opened entries = err enotdir "cannot list directory"
list_directory true none (some e) entries = err e "cannot list directory"
list_directory true none none entries = list_entries [] entries

unfoldable pub join_pieces : List Bytes → Bytes
join_pieces [] = []
join_pieces (p ∷ ps) = p ++ join_pieces ps

unfoldable pub interrupts : List Answer → ℕ
interrupts [] = 0
interrupts (takes n ∷ answers) = interrupts answers
interrupts (fails e ∷ answers) = if e == eintr then suc (interrupts answers) else interrupts answers

-- `WriteAll` returns only when it has written the content from its first byte to its last, in
-- order; and it ends after at most one call for each byte and one for each interruption.
pub write_all_lem :
    (content : Bytes) (answers : List Answer)
    → ((write_all content answers).1 ≡ ok tt → join_pieces (write_all content answers).0 ≡ content)
      × (length content + interrupts answers ≤ length answers
          → (write_all content answers).1 ≢ running)
unfolding write_all join_pieces interrupts
write_all_lem [] answers = (λ _. refl, λ _ e. cc)
write_all_lem (b ∷ bs) [] = (λ e. absurd cc, λ h. absurd (omega arith))
write_all_lem (b ∷ bs) (fails e ∷ answers) = elim (Bool-cases (e == eintr)) [
  | inl again ↦
      let rest = write_all_lem (b ∷ bs) answers in rw again (rest.0, λ h. rest.1 (omega (arith, h)))
  | inr other ↦ rw other (λ e. absurd cc, λ _ e. cc)
]
write_all_lem (b ∷ bs) (takes zero ∷ answers) = (λ e. absurd cc, λ _ e. cc)
write_all_lem (b ∷ bs) (takes (suc n) ∷ answers) =
    let rest = write_all_lem (drop n bs) answers in
    (
      λ e. ap (λ l. take (suc n) (b ∷ bs) ++ l) (rest.0 e) ∙ take-append-drop (suc n) (b ∷ bs),
      λ h. rest.1 (omega (arith, length-drop n bs)),
    )

-- Answers that do not end the loop: bytes, or an interruption.
unfoldable pub goes_on : List Reading → Bool
goes_on [] = true
goes_on (breaks e ∷ answers) = (e == eintr) && goes_on answers
goes_on (gets [] ∷ answers) = false
goes_on (gets (b ∷ bs) ∷ answers) = goes_on answers

unfoldable pub received : List Reading → Bytes
received [] = []
received (breaks e ∷ answers) = received answers
received (gets bs ∷ answers) = bs ++ received answers

-- Reading gives all bytes up to the end of the file, in their order, however they are cut and
-- wherever a signal interrupts; and any other error ends it, whatever was read before.
pub read_loop_lem :
    (sink : Bytes) (answers rest : List Reading)
    → goes_on answers ≡ true
    → (read_loop sink (answers ++ gets [] ∷ rest) ≡ ok (sink ++ received answers))
      × ((e : ℕ)
          → e ≢ eintr
          → read_loop sink (answers ++ breaks e ∷ rest) ≡ err e "cannot read file")
unfolding read_loop goes_on received
read_loop_lem sink [] rest h = (ap ok (sym (append-nil sink)), λ e ne. ground (arith, ne))
read_loop_lem sink (breaks c ∷ answers) rest h =
    let again : (c == eintr) ≡ true = ground arith in
    let rest' = read_loop_lem sink answers rest (ground arith) in rw again rest'
read_loop_lem sink (gets [] ∷ answers) rest h = absurd (ground arith)
read_loop_lem sink (gets (b ∷ bs) ∷ answers) rest h =
    let rest' = read_loop_lem (sink ++ b ∷ bs) answers rest h in
    (rest'.0 ∙ ap ok (append_assoc sink (b ∷ bs) (received answers)), rest'.1)
