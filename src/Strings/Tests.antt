-- ===== src/Strings/Tests.antt =====
-- The theorems on texts, at short texts.
use moban.Strings.{ok}
use moban.Strings.Trim.{trim, is_ascii_whitespace}
use moban.Strings.Case.{to_lower, starts_with, to_lower_ascii}
use moban.Strings.Split.{split, join}
use moban.Strings.Split.Laws.{AllLack, join-split}
use moban.Strings.Number.{parsed}
use moban.Strings.Number.Floats.{
  Libc, parse_double, looks_like_hex_literal, looks_like_non_finite_literal,
}
use moban.Prelude.{
  ℕ, ◌+◌, ◌≡◌, ◌≢◌, refl, false, some, List, [], ◌∷◌, Bytes, codes, arith, ◌==◌, if◌then◌else◌, ltb,
  ◌*◌, ◌-◌, ◌||◌,
}

abbrev padded : Bytes
padded = codes " a,b,,c "

join-split_example :
    (parts : List Bytes) × (split padded (codes ",") ≡ some (ok parts))
    × (join parts (codes ",") ≡ padded)
    × AllLack (codes ",") parts
    × (parts ≢ [])
join-split_example = join-split padded (codes ",") (omega arith)

trimmed : trim (codes "+-5") ≡ b'+' ∷ b'-' ∷ codes "5"
unfolding trim is_ascii_whitespace
trimmed = refl

-- The whole number at the front, and how many digits it has.
abbrev read_whole : ℕ → Bytes → ℕ × ℕ
read_whole n [] = (0, n)
read_whole n (c ∷ s) =
    let rest = read_whole (n * 10 + (c - b'0')) s in
    if ltb c b'0' || ltb b'9' c then (0, n) else (rest.0 + 1, rest.1)

-- A library that reads whole numbers.
abbrev whole_numbers : Libc
whole_numbers = record {
  Double = ℕ;
  strtod = read_whole 0;
  is_inf = λ v. false;
  is_zero = λ v. v == 0;
}

forty_two : parse_double whole_numbers (codes " 42") ≡ parsed 42
unfolding parse_double trim is_ascii_whitespace looks_like_hex_literal looks_like_non_finite_literal
    starts_with to_lower to_lower_ascii
forty_two = refl
