-- ===== src/Files/Laws.antt =====
-- `write_file_atomic`: the order of its calls where it succeeds, and what it leaves where it fails.
use moban.Prelude.{ℕ, ◌%◌, ◌≡◌, refl, Option, none, some, List, [], ◌∷◌, ◌++◌, Bytes, map}
use Prim.Native.String.{String}
use moban.Files.Loops.{ok, write_all}
use moban.Files.Replace.{
  Call, looks, creates, truncates, inspects, sets_mode, writes, flushes, closes, renames, M, call,
  write_content, Kernel, target_mode, eexist, create_attempt, verify_temp_file, inspect_created,
  mode_or,
}
use moban.Files.Replace as Replace

call-calls : (c : Call) (o : Option ℕ) (action : String) → (call c o action).0 ≡ c ∷ []
call-calls c none action = refl
call-calls c (some e) action = refl

call-ok : (c : Call) (o : Option ℕ) (action : String) → (call c o action).1 ≡ ok tt → o ≡ none
call-ok c none action h = refl
call-ok c (some e) action h = absurd cc

-- The calls between the creation of the temporary file and its closing.
unfoldable pub filling : Kernel → Bytes → Bytes → List Call
filling k temp content =
    inspects
    ∷ sets_mode 384
    ∷ (map writes (write_all content k.written).0
        ++ sets_mode (mode_or (target_mode k.target) (k.created_mode.0 % 512))
          ∷ flushes
          ∷ inspects
          ∷ looks temp
          ∷ [])

-- The kernel answered no call on the temporary file with an error.
pub record Granted (k : Kernel) : Type 0 where
  pub created_mode : k.created_mode.1 ≡ none
  pub private_mode : k.private_mode ≡ none
  pub final_mode : k.final_mode ≡ none
  pub flushed : k.flushed ≡ none
  pub file_identity : k.file_identity.1 ≡ none
  pub path_identity : k.path_identity.1 ≡ none
  pub closed : k.closed ≡ none
  pub renamed : k.renamed ≡ none

abbrev moving : Kernel → Bytes → Bytes → M (Unit {0})
moving k temp path =
    Replace.◌>>◌ (call closes k.closed "cannot close file")
      (call (renames temp path) k.renamed "cannot replace file")
