-- ===== src/Strings/Number/Floats.antt =====
-- `ParseDouble` of string_utils.cpp. There are no floats here: the type, `strtod_l` in the C locale
-- and the two tests on its result are parameters.
use moban.Strings.{Result}
use moban.Strings.Trim.{trim}
use moban.Strings.Case.{to_lower, starts_with}
use moban.Strings.Number.{Parsed, parsed, invalid, too_large, or_throw, or_none}
use moban.Prelude.{
  ℕ, ◌≡◌, ◌≢◌, ◌⊎◌, Bool, true, false, not, ◌&&◌, ◌||◌, Bytes, Option, [], ◌∷◌, ◌==◌, leb, ltb,
  if◌then◌else◌, length, get_or, codes, arith,
}

-- `strtod` answers how many bytes it read, and the number.
pub record Libc : Type 1 where
  pub Double : Type 0
  pub strtod : Bytes → ℕ × Double
  pub is_inf : Double → Bool
  pub is_zero : Double → Bool

abbrev is_sign : ℕ → Bool
is_sign c = c == b'+' || c == b'-'

strip_sign : Bytes → Bytes
strip_sign [] = []
strip_sign (c ∷ s) = if is_sign c then s else c ∷ s

-- The loop of `IsZeroLiteral`.
zero_digits : Bytes → Bool → Bool
zero_digits [] has_digit = has_digit
zero_digits (c ∷ s) has_digit =
    let dot = zero_digits s has_digit in
    let digit = zero_digits s true in
    if c == b'e' || c == b'E'
    then has_digit
    else if c == b'.'
    then dot
    else if ltb c b'0' || ltb b'9' c
    then false
    else if not (c == b'0')
    then false
    else digit

unfoldable pub is_zero_literal : Bytes → Bool
unfolding strip_sign zero_digits
is_zero_literal text = zero_digits (strip_sign text) false

unfoldable pub looks_like_hex_literal : Bytes → Bool
unfolding strip_sign
looks_like_hex_literal text =
    let t = strip_sign text in
    leb 2 (length t) && get_or t 0 0 == b'0' && (get_or t 1 0 == b'x' || get_or t 1 0 == b'X')

unfoldable pub looks_like_non_finite_literal : Bytes → Bool
unfolding strip_sign
looks_like_non_finite_literal text =
    let lowered = strip_sign (to_lower text) in
    starts_with lowered (codes "inf") || starts_with lowered (codes "nan")

module _ (c : Libc) where
  open c use {Double, strtod, is_inf, is_zero}

  -- `text` is what is left after the blanks.
  pub convert_double : Bytes → Parsed Double
  convert_double text =
      let (end, v) = strtod text in
      if length text == 0
      then invalid
      else if looks_like_hex_literal text
      then invalid
      else if looks_like_non_finite_literal text
      then invalid
      else if not (end == length text)
      then invalid
      else if is_inf v
      then too_large
      else if is_zero v && not (is_zero_literal text)
      then too_large
      else parsed v

  unfoldable pub parse_double : Bytes → Parsed Double
  unfolding convert_double
  parse_double input = convert_double (trim input)

  unfoldable pub to_double : Bytes → Bytes → Result Double
  to_double input context = or_throw (parse_double input) context (codes "double") input

  unfoldable pub try_to_double : Bytes → Option Double
  try_to_double input = or_none (parse_double input)

  -- A number comes out only where `strtod` has read the whole text between the blanks, the text is
  -- neither hexadecimal nor "inf" or "nan", and the number is finite, and zero only for a zero.
  pub parse_double_sound :
      (input : Bytes) (v : Double)
      → parse_double input ≡ parsed v
      → let text = trim input in
        (strtod text ≡ (length text, v))
        × (text ≢ [])
        × (looks_like_hex_literal text ≡ false)
        × (looks_like_non_finite_literal text ≡ false)
        × (is_inf v ≡ false)
        × ((is_zero v ≡ false) ⊎ (is_zero_literal text ≡ true))
  unfolding parse_double
  parse_double_sound input v h = convert_sound (trim input) v h
    where
      convert_sound :
          (text : Bytes) (v : Double)
          → convert_double text ≡ parsed v
          → (strtod text ≡ (length text, v))
            × (text ≢ [])
            × (looks_like_hex_literal text ≡ false)
            × (looks_like_non_finite_literal text ≡ false)
            × (is_inf v ≡ false)
            × ((is_zero v ≡ false) ⊎ (is_zero_literal text ≡ true))
      convert_sound text v h = ground arith

  -- The format goes before the range: bytes that `strtod` leaves make the text invalid, also where
  -- the number before them is too large for a double.
  pub parse_double_format_first :
      (input : Bytes) → (strtod (trim input)).0 ≢ length (trim input) → parse_double input ≡ invalid
  unfolding parse_double
  parse_double_format_first input h = ground arith
