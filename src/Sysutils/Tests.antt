-- ===== src/Sysutils/Tests.antt =====
-- Sysutils.antt on concrete inputs, and the theorems there.
use moban.Prelude.{ℕ, ◌≤◌, ◌≡◌, refl, Bool, true, List, [], ◌∷◌, ◌++◌, codes, take, drop, arith}
use moban.Sysutils.{
  arrived, signal, Socket, find_newline, returned, readline, Selected, interrupted, ready_now,
  statbuf_get_perms,
}
use moban.Sysutils.Reading.{bytes_of, is_sound}
use moban.Sysutils.Lines.{readline_lem}

-- "ab", a signal, then "c", a newline and "d".
abbrev in_pieces : Socket
in_pieces = arrived 97 (98 ∷ []) ∷ signal ∷ arrived 99 (10 ∷ 100 ∷ []) ∷ []

readline_lem_example :
    (n : ℕ) × (s' : Socket) × (readline 80 [] in_pieces
      ≡ returned n ([] ++ take 4 (bytes_of in_pieces)) s')
    × (bytes_of s' ≡ drop 4 (bytes_of in_pieces))
    × (n ≤ 4)
unfolding is_sound bytes_of find_newline
readline_lem_example = readline_lem 80 [] in_pieces 3 refl refl (omega arith)

abbrev no_error : Bool × ℕ
no_error = (true, 0)

abbrev answers : List Selected
answers = interrupted ∷ ready_now ∷ []

perms : statbuf_get_perms 35309 ≡ codes "-rwsr-xr-x"
unfolding statbuf_get_perms
perms = refl
