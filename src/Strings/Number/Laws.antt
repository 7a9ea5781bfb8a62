-- ===== src/Strings/Number/Laws.antt =====
-- What the parsers accept, and how they class what they refuse.
use moban.Strings.{ok}
use moban.Strings.Trim.{trim}
use moban.Strings.Number.{
  Parsed, parsed, invalid, too_large, is_digit, digit_run, from_chars_u64, negative,
  from_chars_magnitude, from_chars_i64, check, strip_plus, convert_i64, convert_u64, parse_int64,
  parse_uint64, to_int64, to_uint64, to_bool, try_to_int64, try_to_uint64, try_to_bool, or_throw,
  or_none, parse_bool,
}
use moban.Prelude.{
  ℕ, ◌+◌, ◌-◌, ◌*◌, ◌^◌, ◌≤◌, ◌<◌, ◌≡◌, ◌↔◌, refl, ap, Bool, Bool-cases, inl, inr, true, false,
  ◌&&◌, Bytes, some, [], ◌∷◌, ◌==◌, leb, ltb, if◌then◌else◌, length, arith, ℤ, pos, ◌≢◌,
}

-- The specification: one or more digits, and the number that they spell.
abbrev pub all_digits : Bytes → Bool
all_digits [] = true
all_digits (c ∷ s) = is_digit c && all_digits s

abbrev pub is_number : Bytes → Bool
is_number [] = false
is_number (c ∷ s) = all_digits (c ∷ s)

-- The number behind `n`.
abbrev pub value : ℕ → Bytes → ℕ
value n [] = n
value n (c ∷ s) = value (n * 10 + (c - b'0')) s

digit_run-all : (s : Bytes) (n : ℕ) → all_digits s ≡ true → digit_run s n ≡ (length s, value n s)
unfolding digit_run
digit_run-all [] n h = refl
digit_run-all (c ∷ s) n h = let ih = digit_run-all s (n * 10 + (c - b'0')) in ground (arith, ih)

digit_run-short : (s : Bytes) (n : ℕ) → all_digits s ≡ false → (digit_run s n).0 < length s
unfolding digit_run
digit_run-short [] n h = cc
digit_run-short (c ∷ s) n h = let ih = digit_run-short s (n * 10 + (c - b'0')) in ground (arith, ih)

abbrev pub u64_spec : Bytes → Parsed ℕ
u64_spec s =
    if is_number s
    then if ltb (value 0 s) (2 ^ 64) then parsed (value 0 s) else too_large
    else invalid

convert_u64-spec : (s : Bytes) → convert_u64 s ≡ u64_spec s
unfolding convert_u64 from_chars_u64 check
convert_u64-spec [] = refl
convert_u64-spec (c ∷ s) = elim (Bool-cases (all_digits (c ∷ s))) [
  | inl t ↦ ground (arith, digit_run-all (c ∷ s) 0 t)
  | inr t ↦ ground (arith, digit_run-short (c ∷ s) 0 t)
]

-- A minus sign and then digits, or digits alone.
abbrev pub magnitude_spec : Bytes → ℕ → (ℕ → ℤ) → Parsed ℤ
magnitude_spec s limit signed =
    if is_number s
    then if leb (value 0 s) limit then parsed (signed (value 0 s)) else too_large
    else invalid

abbrev pub i64_spec : Bytes → Parsed ℤ
i64_spec [] = invalid
i64_spec (c ∷ s) =
    if c == b'-'
    then magnitude_spec s (2 ^ 63) negative
    else magnitude_spec (c ∷ s) (2 ^ 63 - 1) pos

magnitude-spec :
    (s : Bytes) (sign limit : ℕ) (signed : ℕ → ℤ) (text : Bytes)
    → length text ≡ length s + sign
    → check text (from_chars_magnitude s sign limit signed) ≡ magnitude_spec s limit signed
unfolding check from_chars_magnitude
magnitude-spec [] sign limit signed text e = unfold digit_run in ground arith
magnitude-spec (c ∷ s) sign limit signed text e = elim (Bool-cases (all_digits (c ∷ s))) [
  | inl t ↦ ground (arith, digit_run-all (c ∷ s) 0 t)
  | inr t ↦ ground (arith, digit_run-short (c ∷ s) 0 t)
]

convert_i64-spec : (s : Bytes) → convert_i64 s ≡ i64_spec s
unfolding convert_i64 from_chars_i64
convert_i64-spec [] = refl
convert_i64-spec (c ∷ s) = elim (Bool-cases (c == b'-')) [
  | inl t ↦ rw t (magnitude-spec s 1 (2 ^ 63) negative (c ∷ s) (omega arith))
  | inr t ↦ rw t (magnitude-spec (c ∷ s) 0 (2 ^ 63 - 1) pos (c ∷ s) (omega arith))
]

-- The text without one plus sign at its front.
pub data Unsigned : Bytes → Bytes → Type 0 where
  plus : (t : Bytes) → Unsigned (43 ∷ t) t
  bare : (s : Bytes) → ((t : Bytes) → s ≢ 43 ∷ t) → Unsigned s s

-- `to_uint64` reads the text between the blanks and behind one plus sign: digits alone, with the
-- number that they spell if it is below 2 ^ 64 and out of range if not; anything else is an invalid
-- text, however large the digits at its front are.
pub parse_uint64-eq-spec : (s : Bytes) → parse_uint64 s ≡ u64_spec (strip_plus (trim s))
unfolding parse_uint64
parse_uint64-eq-spec s = convert_u64-spec (strip_plus (trim s))

-- A plus sign before the minus sign is no number, but `to_int64` takes it: "+-5" reads as -5.
pub plus_minus_accepted :
    (s t : Bytes)
    → trim s ≡ b'+' ∷ b'-' ∷ t
    → is_number t ≡ true
    → value 0 t ≤ 2 ^ 63
    → to_int64 s [] ≡ ok (negative (value 0 t))
unfolding to_int64 parse_int64
plus_minus_accepted s t e n h =
    let l : leb (value 0 t) (2 ^ 63) ≡ true = ground arith in
    let p : strip_plus (trim s) ≡ b'-' ∷ t = ap strip_plus e in
    rw (p, convert_i64-spec (b'-' ∷ t), n, l) refl

or_throw-or_none {ℓ} :
    {A : Type ℓ} (r : Parsed A) (v : A) (context name input : Bytes)
    → (or_none r ≡ some v) ↔ (or_throw r context name input ≡ ok v)
unfolding or_throw or_none
or_throw-or_none (parsed w) v context name input = (λ h. cc, λ h. cc)
or_throw-or_none invalid v context name input = (λ h. cc, λ h. cc)
or_throw-or_none too_large v context name input = (λ h. cc, λ h. cc)

-- The functions that return an option succeed on the same texts as those that throw, with the same
-- value.
pub try-iff-throws :
    (input context : Bytes) (i : ℤ) (n : ℕ) (b : Bool)
    → ((try_to_int64 input ≡ some i) ↔ (to_int64 input context ≡ ok i))
      × ((try_to_uint64 input ≡ some n) ↔ (to_uint64 input context ≡ ok n))
      × ((try_to_bool input ≡ some b) ↔ (to_bool input context ≡ ok b))
unfolding try_to_int64 to_int64 try_to_uint64 to_uint64 try_to_bool to_bool
try-iff-throws input context i n b = (
  or_throw-or_none (parse_int64 input) i context _ input,
  or_throw-or_none (parse_uint64 input) n context _ input,
  or_throw-or_none (parse_bool input) b context _ input,
)
