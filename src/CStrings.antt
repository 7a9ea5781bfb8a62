-- ===== src/CStrings.antt =====
-- example/miniftpd_c/src/str.cpp. A C string is its bytes before the NUL.
pub mod Laws
pub mod Tests
use moban.Prelude.{
  ℕ, zero, suc, ◌+◌, ◌-◌, ◌==◌, Bool, true, false, ◌&&◌, ◌||◌, Option, none, some, List, [], ◌∷◌,
  ◌++◌, Bytes, ltb, leb, if◌then◌else◌, length, take, drop, get_or, map,
}

abbrev pub is_crlf : ℕ → Bool
is_crlf c = c == b'\r' || c == b'\n'

-- The loop over `len`: the length that is left.
unfoldable pub trim_loop : Bytes → ℕ → ℕ
trim_loop str zero = 0
trim_loop str (suc len) =
    let rest = trim_loop str len in if is_crlf (get_or str len 0) then rest else suc len

unfoldable pub str_trim_crlf : Bytes → Bytes
unfolding trim_loop
str_trim_crlf str = take (trim_loop str (length str)) str

-- `find` of a character.
unfoldable pub find_char : Bytes → ℕ → Option ℕ
find_char [] c = none
find_char (b ∷ bs) c =
    let rest = find_char bs c in
    if b == c then some 0 else elim rest [ none ↦ none | some i ↦ some (suc i) ]

abbrev pub split_at : Bytes → Option ℕ → Bytes × Bytes
split_at str none = ([], str)
split_at str (some pos) = (take pos str, drop (suc pos) str)

unfoldable pub str_split : Bytes → ℕ → Bytes × Bytes
unfolding find_char
str_split str c = split_at str (find_char str c)

-- `isspace` in the "C" locale.
abbrev pub is_space : ℕ → Bool
is_space c = c == b' ' || leb 9 c && leb c 13

unfoldable pub str_all_space : Bytes → Bool
str_all_space [] = true
str_all_space (c ∷ cs) = if is_space c then str_all_space cs else false

abbrev pub upper : ℕ → ℕ
upper c = if leb b'a' c && leb c b'z' then c - 32 else c

unfoldable pub str_upper : Bytes → Bytes
str_upper [] = []
str_upper (c ∷ cs) = upper c ∷ str_upper cs
