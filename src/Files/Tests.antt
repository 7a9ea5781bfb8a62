-- ===== src/Files/Tests.antt =====
-- Files.antt at concrete answers of the kernel, and the theorems there.
use moban.Prelude.{
  ◌+◌, ◌≤◌, ◌≡◌, ◌≢◌, ◌⊎◌, refl, true, some, none, List, [], ◌∷◌, Bytes, codes, length, total,
}
use moban.Files.Loops.{
  ok, err, running, Answer, takes, fails, Reading, gets, breaks, write_all, join_pieces, interrupts,
  write_all_lem,
}
use moban.Files.Names.{hex_string, hex_digits}
use moban.Files.Replace.{Kernel, create_temp_file, write_file_atomic}
use moban.Files.Cleanup.{is_close, is_unlink, is_rename, write_file_atomic-Clean, is_unlink_of}

abbrev text : Bytes
text = codes "abc"

-- A short write, an interruption, and the rest.
abbrev in_pieces : List Answer
in_pieces = takes 2 ∷ fails 4 ∷ takes 1 ∷ []

pieces : write_all text in_pieces ≡ (codes "ab" ∷ codes "c" ∷ [], ok tt)
unfolding write_all
pieces = refl

write_all_lem_example :
    ((write_all text in_pieces).1 ≡ ok tt → join_pieces (write_all text in_pieces).0 ≡ text)
    × (length text + interrupts in_pieces ≤ length in_pieces
        → (write_all text in_pieces).1 ≢ running)
write_all_lem_example = write_all_lem text in_pieces

abbrev readings : List Reading
readings = gets text ∷ breaks 4 ∷ gets (codes "d") ∷ []

hex : hex_string 48879 ≡ codes "000000000000beef"
unfolding hex_string hex_digits
hex = refl

abbrev kernel : Kernel
kernel = record {
  target = some (true, 33188);
  pid = 12;
  counter = λ i. i;
  random = λ i. 48879;
  opened = λ i. none;
  created_mode = (33188, none);
  private_mode = none;
  written = in_pieces;
  final_mode = none;
  flushed = none;
  file_identity = ((1, 7), none);
  path_identity = ((1, 7), none);
  closed = none;
  renamed = none;
}

-- Another user has put a file of their own in the place of the temporary one.
abbrev replaced : Kernel
replaced = record kernel { path_identity = ((1, 8), none) }

refused :
    (write_file_atomic replaced (codes "d/f") (codes "d") (codes "f") text).1
    ≡ err 5 "temporary file was replaced while writing"
unfolding write_file_atomic write_all
refused = refl

write_file_atomic-Clean_example :
    (total is_close (write_file_atomic replaced (codes "d/f") (codes "d") (codes "f") text).0
      ≡ total is_unlink (write_file_atomic replaced (codes "d/f") (codes "d") (codes "f") text).0)
    × ((temp : Bytes)
        → (create_temp_file replaced (codes "d") (codes "f") 0 128).1 ≡ ok temp
        → (total is_unlink (write_file_atomic replaced (codes "d/f") (codes "d") (codes "f") text).0
            ≡ 1)
          × (total
                (is_unlink_of temp)
                (write_file_atomic replaced (codes "d/f") (codes "d") (codes "f") text).0
              ≡ 1))
    × ((total is_rename (write_file_atomic replaced (codes "d/f") (codes "d") (codes "f") text).0
          ≡ 0)
        ⊎ (kernel.renamed ≢ none))
write_file_atomic-Clean_example =
    write_file_atomic-Clean replaced (codes "d/f") (codes "d") (codes "f") text 5
      "temporary file was replaced while writing" refused
