-- ===== src/Strings/Number.antt =====
-- The numbers and truth values of string_utils.cpp. `std::from_chars` and `strtod_l` are the standard
-- library's: the first is modelled as the standard describes it, the second is a parameter.
pub mod Laws
pub mod Floats
use moban.Strings.{Error, invalid_argument, out_of_range, Result, ok, throws}
use moban.Strings.Trim.{trim}
use moban.Strings.Case.{to_lower, same_bytes, starts_with}
use moban.Prelude.{
  ℕ, zero, suc, ◌+◌, ◌-◌, ◌*◌, ◌^◌, Bool, true, false, ◌&&◌, ◌||◌, Bytes, Option, none, some, List,
  [], ◌∷◌, ◌++◌, ◌==◌, leb, ltb, if◌then◌else◌, length, take, drop, get_or, codes, ℤ, pos, negsuc,
}

-- `NumberStatus`, with what goes through `out` where it is `kOk`.
pub data Parsed {ℓ} (A : Type ℓ) : Type ℓ where
  parsed : A → Parsed A
  invalid : Parsed A
  too_large : Parsed A

pub data Errc : Type 0 where
  no_error bad_argument result_out_of_range : Errc

-- `ptr` is how many bytes were consumed.
pub record FromChars {ℓ} (A : Type ℓ) : Type ℓ where
  pub ptr : ℕ
  pub ec : Errc
  pub result : A

abbrev pub is_digit : ℕ → Bool
is_digit c = leb b'0' c && leb c b'9'

-- The longest run of digits at the front: its length, and its value behind `n`.
pub digit_run : Bytes → ℕ → ℕ × ℕ
digit_run [] n = (0, n)
digit_run (c ∷ s) n =
    let rest = digit_run s (n * 10 + (c - b'0')) in
    if is_digit c then (rest.0 + 1, rest.1) else (0, n)

-- `std::from_chars` into an `uint64_t`, base 10: the out-of-range case has consumed all the digits.
from_chars_u64 : Bytes → FromChars ℕ
from_chars_u64 s =
    let run = digit_run s 0 in
    if run.0 == 0
    then (record { ptr = 0; ec = bad_argument; result = 0 })
    else if ltb run.1 (2 ^ 64)
    then (record { ptr = run.0; ec = no_error; result = run.1 })
    else (record { ptr = run.0; ec = result_out_of_range; result = 0 })

-- -n, as an integer.
abbrev pub negative : ℕ → ℤ
negative zero = pos 0
negative (suc n) = negsuc n

from_chars_magnitude : Bytes → ℕ → ℕ → (ℕ → ℤ) → FromChars ℤ
from_chars_magnitude s sign limit signed =
    let run = digit_run s 0 in
    if run.0 == 0
    then (record { ptr = 0; ec = bad_argument; result = pos 0 })
    else if leb run.1 limit
    then (record { ptr = run.0 + sign; ec = no_error; result = signed run.1 })
    else (record { ptr = run.0 + sign; ec = result_out_of_range; result = pos 0 })

-- The same into an `int64_t`: a minus sign is the only sign.
from_chars_i64 : Bytes → FromChars ℤ
unfolding from_chars_magnitude
from_chars_i64 [] = record { ptr = 0; ec = bad_argument; result = pos 0 }
from_chars_i64 (c ∷ s) =
    if c == b'-'
    then from_chars_magnitude s 1 (2 ^ 63) negative
    else from_chars_magnitude (c ∷ s) 0 (2 ^ 63 - 1) pos

-- Format first, then range.
pub check {ℓ} : {A : Type ℓ} → Bytes → FromChars A → Parsed A
check text r =
    if r.ptr == length text
    then (elim r.ec [
      | result_out_of_range ↦ too_large
      | bad_argument ↦ invalid
      | no_error ↦ parsed r.result
    ])
    else invalid

pub strip_plus : Bytes → Bytes
strip_plus [] = []
strip_plus (c ∷ s) = if c == b'+' then s else c ∷ s

-- `text.empty()` after the sign is removed.
convert_i64 : Bytes → Parsed ℤ
unfolding from_chars_i64
convert_i64 [] = invalid
convert_i64 (c ∷ s) = check (c ∷ s) (from_chars_i64 (c ∷ s))

convert_u64 : Bytes → Parsed ℕ
unfolding from_chars_u64
convert_u64 [] = invalid
convert_u64 (c ∷ s) = if c == b'-' then invalid else check (c ∷ s) (from_chars_u64 (c ∷ s))

unfoldable pub parse_int64 : Bytes → Parsed ℤ
unfolding convert_i64 strip_plus
parse_int64 input = convert_i64 (strip_plus (trim input))

unfoldable pub parse_uint64 : Bytes → Parsed ℕ
unfolding convert_u64 strip_plus
parse_uint64 input = convert_u64 (strip_plus (trim input))

one_of : Bytes → Bytes → Bytes → Bytes → Bytes → Bool
unfolding same_bytes
one_of s a b c d = same_bytes s a || same_bytes s b || same_bytes s c || same_bytes s d

unfoldable pub parse_bool : Bytes → Parsed Bool
unfolding one_of to_lower
parse_bool input =
    let lowered = to_lower (trim input) in
    if one_of lowered (codes "true") (codes "1") (codes "yes") (codes "on")
    then parsed true
    else if one_of lowered (codes "false") (codes "0") (codes "no") (codes "off")
    then parsed false
    else invalid

-- The prefix of the message, which names the place if there is one.
located : Bytes → Bytes
located [] = []
located (c ∷ context) = (c ∷ context) ++ codes ": "

-- `ThrowNumberError`.
number_error : Bool → Bytes → Bytes → Bytes → Error
unfolding located
number_error too_big context type_name input =
    if too_big
    then out_of_range (
        (((located context ++ codes "value out of range for ") ++ type_name) ++ codes ": '")
        ++ (input ++ codes "'"))
    else invalid_argument (
        (((located context ++ codes "invalid ") ++ type_name) ++ codes " value: '")
        ++ (input ++ codes "'"))

pub or_throw {ℓ} : {A : Type ℓ} → Parsed A → Bytes → Bytes → Bytes → Result A
unfolding number_error
or_throw (parsed v) context type_name input = ok v
or_throw invalid context type_name input = throws (number_error false context type_name input)
or_throw too_large context type_name input = throws (number_error true context type_name input)

pub or_none {ℓ} : {A : Type ℓ} → Parsed A → Option A
or_none (parsed v) = some v
or_none invalid = none
or_none too_large = none

unfoldable pub to_int64 : Bytes → Bytes → Result ℤ
unfolding or_throw
to_int64 input context = or_throw (parse_int64 input) context (codes "int64") input

unfoldable pub to_uint64 : Bytes → Bytes → Result ℕ
unfolding or_throw
to_uint64 input context = or_throw (parse_uint64 input) context (codes "uint64") input

unfoldable pub to_bool : Bytes → Bytes → Result Bool
unfolding or_throw
to_bool input context = or_throw (parse_bool input) context (codes "bool") input

unfoldable pub try_to_int64 : Bytes → Option ℤ
unfolding or_none
try_to_int64 input = or_none (parse_int64 input)

unfoldable pub try_to_uint64 : Bytes → Option ℕ
unfolding or_none
try_to_uint64 input = or_none (parse_uint64 input)

unfoldable pub try_to_bool : Bytes → Option Bool
unfolding or_none
try_to_bool input = or_none (parse_bool input)
