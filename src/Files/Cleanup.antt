-- ===== src/Files/Cleanup.antt =====
-- `write_file_atomic`: what it leaves behind when it fails.
use moban.Strings.Case.{same_bytes, same_bytes_iff}
use moban.Prelude.{
  ℕ, zero, suc, ◌==◌, ◌≡◌, refl, Bool-cases, inl, inr, Option, none, some, List, [], ◌∷◌, Bytes,
  map, total, total-append, arith, ◌⊎◌, ◌≢◌, if◌then◌else◌, ap, sym, ◌∙◌, ◌++◌,
}
use Prim.Native.String.{String}
use moban.Files.Loops.{ok, err, running, Answer, write_all}
use moban.Files.Replace.{
  Call, looks, creates, truncates, inspects, sets_mode, writes, flushes, closes, renames, unlinks,
  syncs_directory, M, after, call, on_exit, write_content, Kernel, target_mode, eexist,
  create_attempt, create_temp_file, same_file, verify_temp_file, inspect_created, mode_or,
  fill_temp_file, write_file_atomic,
}
use moban.Files.Replace as Replace

unfoldable pub is_close : Call → ℕ
is_close closes = 1
is_close _ = 0

unfoldable pub is_unlink : Call → ℕ
is_unlink (unlinks p) = 1
is_unlink _ = 0

-- An unlink of one path.
unfoldable pub is_unlink_of : Bytes → Call → ℕ
is_unlink_of path (unlinks p) = if same_bytes p path then 1 else 0
is_unlink_of path _ = 0

unfoldable pub is_rename : Call → ℕ
is_rename (renames p q) = 1
is_rename _ = 0

-- A count that leaves out the calls on a file that is being filled.
record IsQuiet (f : Call → ℕ) : Type 0 where
  pub on_looks : (p : Bytes) → f (looks p) ≡ 0
  pub on_creates : (p : Bytes) → f (creates p) ≡ 0
  pub on_inspects : f inspects ≡ 0
  pub on_sets_mode : (m : ℕ) → f (sets_mode m) ≡ 0
  pub on_writes : (b : Bytes) → f (writes b) ≡ 0
  pub on_flushes : f flushes ≡ 0

is_close-IsQuiet : IsQuiet is_close
unfolding is_close
is_close-IsQuiet = record {
  on_looks = λ p. refl;
  on_creates = λ p. refl;
  on_inspects = refl;
  on_sets_mode = λ m. refl;
  on_writes = λ b. refl;
  on_flushes = refl;
}

is_unlink-IsQuiet : IsQuiet is_unlink
unfolding is_unlink
is_unlink-IsQuiet = record {
  on_looks = λ p. refl;
  on_creates = λ p. refl;
  on_inspects = refl;
  on_sets_mode = λ m. refl;
  on_writes = λ b. refl;
  on_flushes = refl;
}

is_unlink_of-IsQuiet : (path : Bytes) → IsQuiet (is_unlink_of path)
unfolding is_unlink_of
is_unlink_of-IsQuiet path = record {
  on_looks = λ p. refl;
  on_creates = λ p. refl;
  on_inspects = refl;
  on_sets_mode = λ m. refl;
  on_writes = λ b. refl;
  on_flushes = refl;
}

is_rename-IsQuiet : IsQuiet is_rename
unfolding is_rename
is_rename-IsQuiet = record {
  on_looks = λ p. refl;
  on_creates = λ p. refl;
  on_inspects = refl;
  on_sets_mode = λ m. refl;
  on_writes = λ b. refl;
  on_flushes = refl;
}

module _ (f : Call → ℕ) where
  -- Nothing of the kind happens in a computation.
  Silent : {A : Type 0} → M A → Type 0
  Silent m = total f m.0 ≡ 0

  Silent->>= :
      {A B : Type 0} (m : M A) (g : A → M B)
      → Silent m
      → ((a : A) → Silent (g a))
      → Silent (Replace.◌>>=◌ m g)
  unfolding Silent
  Silent->>= (calls, ok a) g h k = omega (arith, h, k a, total-append f calls (g a).0)
  Silent->>= (calls, err e action) g h k = h
  Silent->>= (calls, running) g h k = h

  Silent-call : (c : Call) (o : Option ℕ) (action : String) → f c ≡ 0 → Silent (call c o action)
  unfolding Silent total
  Silent-call c none action h = omega (arith, h)
  Silent-call c (some e) action h = omega (arith, h)

  module _ (q : IsQuiet f) where
    total-writes : (pieces : List Bytes) → total f (map writes pieces) ≡ 0
    unfolding total
    total-writes [] = refl
    total-writes (p ∷ ps) = omega (arith, q.on_writes p, total-writes ps)

    Silent-inspect_created : (c : ℕ × Option ℕ) → Silent (inspect_created c)
    unfolding Silent total
    Silent-inspect_created (m, none) = omega (arith, q.on_inspects)
    Silent-inspect_created (m, some e) = omega (arith, q.on_inspects)

    Silent-write_content :
        (content : Bytes) (answers : List Answer) → Silent (write_content content answers)
    unfolding write_content Silent
    Silent-write_content content answers = total-writes (write_all content answers).0

    Silent-verify_temp_file : (k : Kernel) (temp : Bytes) → Silent (verify_temp_file k temp)
    unfolding verify_temp_file Silent total
    Silent-verify_temp_file k temp =
        Silent->>= (call inspects (k.file_identity).1 _) _ (Silent-call _ _ _ q.on_inspects) (λ _.
          Silent->>= (call (looks temp) (k.path_identity).1 _) _
            (Silent-call _ _ _ (q.on_looks temp)) (λ _. refl))

    Silent-fill_temp_file :
        (k : Kernel) (temp content : Bytes) → Silent (fill_temp_file k temp content)
    unfolding fill_temp_file Silent
    Silent-fill_temp_file k temp content =
        Silent->>= (inspect_created k.created_mode) _ (Silent-inspect_created k.created_mode) (λ m.
          Silent->>= (call (sets_mode 384) k.private_mode _) _
            (Silent-call _ _ _ (q.on_sets_mode 384))
            (λ _.
              Silent->>= (write_content content k.written) _
                (Silent-write_content content k.written)
                (λ _.
                  Silent->>= (call (sets_mode (mode_or (target_mode k.target) m)) k.final_mode _) _
                    (Silent-call _ _ _ (q.on_sets_mode _))
                    (λ _.
                      Silent->>= (call flushes k.flushed _) _ (Silent-call _ _ _ q.on_flushes)
                        (λ _. Silent-verify_temp_file k temp)))))

    Silent-create_attempt :
        (candidate : Bytes) (o : Option ℕ) (next : M Bytes)
        → Silent next
        → Silent (create_attempt candidate o next)
    unfolding Silent total
    Silent-create_attempt c none next h = omega (arith, q.on_creates c)
    Silent-create_attempt c (some e) next h = elim (Bool-cases (e == eexist)) [
      | inl taken ↦ rw taken (omega (arith, h, q.on_creates c))
      | inr other ↦ rw other (omega (arith, q.on_creates c))
    ]

    Silent-create_temp_file :
        (k : Kernel) (directory name : Bytes) (attempt more : ℕ)
        → Silent (create_temp_file k directory name attempt more)
    unfolding create_temp_file Silent total
    Silent-create_temp_file k directory name attempt zero = refl
    Silent-create_temp_file k directory name attempt (suc more) =
        Silent-create_attempt _ (k.opened attempt)
          (create_temp_file k directory name (suc attempt) more)
          (Silent-create_temp_file k directory name (suc attempt) more)

-- From the open temporary file on.
abbrev finish :
    M (Unit {0}) → (temp path directory : Bytes) (closed renamed : Option ℕ) → M (Unit {0})
finish filled temp path directory closed renamed =
    Replace.◌>>◌ (on_exit (unlinks temp ∷ closes ∷ []) filled) (
      Replace.◌>>◌
        (on_exit (unlinks temp ∷ []) (
          Replace.◌>>◌ (call closes closed "cannot close file")
            (call (renames temp path) renamed "cannot replace file")))
        (syncs_directory directory ∷ [], ok tt))

finish-failed :
    (filled : M (Unit {0})) (temp path directory : Bytes) (closed renamed : Option ℕ) (e : ℕ)
    (action : String)
    → Silent is_close filled
    → Silent is_unlink filled
    → Silent is_rename filled
    → (finish filled temp path directory closed renamed).1 ≡ err e action
    → (total is_close (finish filled temp path directory closed renamed).0 ≡ 1)
      × (total is_unlink (finish filled temp path directory closed renamed).0 ≡ 1)
      × ((total is_rename (finish filled temp path directory closed renamed).0 ≡ 0)
          ⊎ (renamed ≢ none))
unfolding Silent total is_close is_unlink is_rename
finish-failed (calls, err c a) temp path directory closed renamed e action hc hu hr h = (
  omega (arith, hc, total-append is_close calls (unlinks temp ∷ closes ∷ [])),
  omega (arith, hu, total-append is_unlink calls (unlinks temp ∷ closes ∷ [])),
  inl (omega (arith, hr, total-append is_rename calls (unlinks temp ∷ closes ∷ []))),
)
finish-failed (calls, running) temp path directory closed renamed e action hc hu hr h = absurd cc
finish-failed (calls, ok u) temp path directory none none e action hc hu hr h = absurd cc
finish-failed (calls, ok u) temp path directory (some c) renamed e action hc hu hr h = (
  omega (arith, hc, total-append is_close calls (closes ∷ unlinks temp ∷ [])),
  omega (arith, hu, total-append is_unlink calls (closes ∷ unlinks temp ∷ [])),
  inl (omega (arith, hr, total-append is_rename calls (closes ∷ unlinks temp ∷ []))),
)
finish-failed (calls, ok u) temp path directory none (some c) e action hc hu hr h = (
  omega (arith, hc, total-append is_close calls (closes ∷ renames temp path ∷ unlinks temp ∷ [])),
  omega (arith, hu, total-append is_unlink calls (closes ∷ renames temp path ∷ unlinks temp ∷ [])),
  inr (λ q. cc),
)

whole-failed :
    (made : M Bytes) (path directory : Bytes) (filled : Bytes → M (Unit {0}))
    (closed renamed : Option ℕ) (e : ℕ) (action : String)
    → Silent is_close made
    → Silent is_unlink made
    → Silent is_rename made
    → ((temp : Bytes) → Silent is_close (filled temp))
    → ((temp : Bytes) → Silent is_unlink (filled temp))
    → ((temp : Bytes) → Silent is_rename (filled temp))
    → let m =
        Replace.◌>>=◌
          (after (looks path ∷ []) made)
          (λ temp. finish (filled temp) temp path directory closed renamed) in
      m.1 ≡ err e action
      → (total is_close m.0 ≡ total is_unlink m.0)
        × (((temp : Bytes) → made.1 ≡ ok temp → total is_unlink m.0 ≡ 1))
        × ((total is_rename m.0 ≡ 0) ⊎ (renamed ≢ none))
unfolding Silent total is_close is_unlink is_rename
whole-failed (calls, ok temp) path directory filled closed renamed e action mc mu mr fc fu fr h =
    let rest =
      finish-failed (filled temp) temp path directory closed renamed e action (fc temp) (fu temp)
        (fr temp) h in
    let all = (finish (filled temp) temp path directory closed renamed).0 in
    (
      omega (
        arith,
        mc,
        mu,
        rest.0,
        rest.1,
        total-append is_close calls all,
        total-append is_unlink calls all,
      ),
      λ t k. omega (arith, mu, rest.1, total-append is_unlink calls all),
      elim rest.2 [
        | inl never ↦ inl (omega (arith, mr, never, total-append is_rename calls all))
        | inr failed ↦ inr failed
      ],
    )
whole-failed (calls, err c a) path directory filled closed renamed e action mc mu mr fc fu fr h =
    (omega (arith, mc, mu), λ t k. absurd cc, inl (omega (arith, mr)))
whole-failed (calls, running) path directory filled closed renamed e action mc mu mr fc fu fr h =
    absurd cc

finish-unlinked :
    (filled : M (Unit {0})) (temp path directory : Bytes) (closed renamed : Option ℕ) (e : ℕ)
    (action : String)
    → Silent (is_unlink_of temp) filled
    → (finish filled temp path directory closed renamed).1 ≡ err e action
    → total (is_unlink_of temp) (finish filled temp path directory closed renamed).0 ≡ 1
unfolding Silent total is_unlink_of
finish-unlinked (calls, err c a) temp path directory closed renamed e action hu h =
    let same = (same_bytes_iff temp temp).1 refl in
    ground (arith, hu, same, total-append (is_unlink_of temp) calls (unlinks temp ∷ closes ∷ []))
finish-unlinked (calls, running) temp path directory closed renamed e action hu h = absurd cc
finish-unlinked (calls, ok u) temp path directory none none e action hu h = absurd cc
finish-unlinked (calls, ok u) temp path directory (some c) renamed e action hu h =
    let same = (same_bytes_iff temp temp).1 refl in
    ground (arith, hu, same, total-append (is_unlink_of temp) calls (closes ∷ unlinks temp ∷ []))
finish-unlinked (calls, ok u) temp path directory none (some c) e action hu h =
    let same = (same_bytes_iff temp temp).1 refl in
    ground (
      arith,
      hu,
      same,
      total-append (is_unlink_of temp) calls (closes ∷ renames temp path ∷ unlinks temp ∷ []),
    )

unlinked :
    (made : M Bytes) (path directory : Bytes) (filled : Bytes → M (Unit {0}))
    (closed renamed : Option ℕ) (e : ℕ) (action : String) (temp : Bytes)
    → ((t : Bytes) → Silent (is_unlink_of t) made)
    → ((t : Bytes) → Silent (is_unlink_of t) (filled t))
    → made.1 ≡ ok temp
    → let m =
        Replace.◌>>=◌
          (after (looks path ∷ []) made)
          (λ t. finish (filled t) t path directory closed renamed) in
      m.1 ≡ err e action → total (is_unlink_of temp) m.0 ≡ 1
unfolding Silent total is_unlink_of
unlinked (calls, ok t) path directory filled closed renamed e action temp mu fu k h =
    let same : t ≡ temp = cc in
    let rest = finish-unlinked (filled t) t path directory closed renamed e action (fu t) h in
    let all = (finish (filled t) t path directory closed renamed).0 in
    let here : total (is_unlink_of t) (looks path ∷ (calls ++ all)) ≡ 1 =
      omega (arith, mu t, rest, total-append (is_unlink_of t) calls all) in
    ap (λ u. total (is_unlink_of u) (looks path ∷ (calls ++ all))) (sym same) ∙ here
unlinked (calls, err c a) path directory filled closed renamed e action temp mu fu k h = absurd cc
unlinked (calls, running) path directory filled closed renamed e action temp mu fu k h = absurd cc

-- If `write_file_atomic` throws, the target is not replaced; and if it had made a temporary file,
-- it has closed it once and unlinked that file once, and no other, on every path.
pub write_file_atomic-Clean :
    (k : Kernel) (path directory name content : Bytes) (e : ℕ) (action : String)
    → (write_file_atomic k path directory name content).1 ≡ err e action
    → (total is_close (write_file_atomic k path directory name content).0
        ≡ total is_unlink (write_file_atomic k path directory name content).0)
      × ((temp : Bytes)
          → (create_temp_file k directory name 0 128).1 ≡ ok temp
          → (total is_unlink (write_file_atomic k path directory name content).0 ≡ 1)
            × (total (is_unlink_of temp) (write_file_atomic k path directory name content).0 ≡ 1))
      × ((total is_rename (write_file_atomic k path directory name content).0 ≡ 0)
          ⊎ (k.renamed ≢ none))
unfolding write_file_atomic
write_file_atomic-Clean k path directory name content e action h =
    let made = create_temp_file k directory name 0 128 in
    let whole =
      whole-failed (create_temp_file k directory name 0 128) path directory
        (λ temp. fill_temp_file k temp content) k.closed k.renamed e action
        (Silent-create_temp_file is_close is_close-IsQuiet k directory name 0 128)
        (Silent-create_temp_file is_unlink is_unlink-IsQuiet k directory name 0 128)
        (Silent-create_temp_file is_rename is_rename-IsQuiet k directory name 0 128)
        (λ temp. Silent-fill_temp_file is_close is_close-IsQuiet k temp content)
        (λ temp. Silent-fill_temp_file is_unlink is_unlink-IsQuiet k temp content)
        (λ temp. Silent-fill_temp_file is_rename is_rename-IsQuiet k temp content) h in
    (
      whole.0,
      λ temp e'. (
        whole.1 temp e',
        unlinked made path directory (λ t. fill_temp_file k t content) k.closed k.renamed e action
            temp
            (λ t.
              Silent-create_temp_file (is_unlink_of t) (is_unlink_of-IsQuiet t) k directory name 0
                128)
            (λ t. Silent-fill_temp_file (is_unlink_of t) (is_unlink_of-IsQuiet t) k t content) e' h,
      ),
      whole.2,
    )
