-- ===== src/CStrings/Tests.antt =====
-- CStrings.antt on concrete inputs.
use moban.Prelude.{◌≡◌, refl, Bytes, codes, ◌++◌, [], ◌∷◌}
use moban.CStrings.{str_trim_crlf, str_split}

abbrev line : Bytes
line = codes "PWD" ++ 13 ∷ 10 ∷ []

trimmed : str_trim_crlf line ≡ codes "PWD"
unfolding str_trim_crlf
trimmed = refl

split_command : str_split (codes "CWD a") 32 ≡ (codes "CWD", codes "a")
unfolding str_split
split_command = refl
