-- ===== src/Files/Names.antt =====
-- The names of temporary files: `HexString` and the name that `CreateTempFile` makes.
use moban.Prelude.{
  ℕ, zero, suc, ◌+◌, ◌-◌, ◌/◌, ◌%◌, ◌≤◌, ◌≡◌, refl, [], ◌∷◌, ◌++◌, Bytes, codes, take, length, ltb,
  if◌then◌else◌, sub_size, arith, length-append, length-take,
}

abbrev pub hex_digit : ℕ → ℕ
hex_digit d = if ltb d 10 then d + b'0' else d - 10 + b'a'

-- `snprintf` with "%016llx": the last `n` hexadecimal digits, with leading zeros.
unfoldable pub hex_digits : ℕ → ℕ → Bytes
hex_digits zero value = []
hex_digits (suc n) value = hex_digits n (value / 16) ++ hex_digit (value % 16) ∷ []

unfoldable pub hex_string : ℕ → Bytes
hex_string value = hex_digits 16 value

-- `std::to_string` of a `uint64_t`, which has at most 20 digits.
unfoldable pub decimal_digits : ℕ → ℕ → Bytes
decimal_digits zero value = []
decimal_digits (suc n) value =
    let rest = decimal_digits n (value / 10) in
    if ltb value 10 then (value + b'0') ∷ [] else rest ++ (value % 10 + b'0') ∷ []

unfoldable pub decimal : ℕ → Bytes
decimal value = decimal_digits 20 value

abbrev pub max_file_name_length : ℕ
max_file_name_length = 255

unfoldable pub suffix : (pid counter random : ℕ) → Bytes
suffix pid counter random =
    decimal pid ++ (codes "." ++ (decimal counter ++ (codes "." ++ hex_string random)))

-- The last component of the candidate: the cut prefix and the suffix.
unfoldable pub temp_name : Bytes → (pid counter random : ℕ) → Bytes
temp_name name pid counter random =
    let prefix = codes "." ++ name ++ codes ".tmp." in
    let end = suffix pid counter random in
    let budget = sub_size (sub_size max_file_name_length (length end)) 1 in
    let head = if ltb budget (length prefix) then take budget prefix else prefix in head ++ end

length-hex_digits : (n value : ℕ) → length (hex_digits n value) ≡ n
unfolding hex_digits
length-hex_digits zero value = refl
length-hex_digits (suc n) value = omega (
  arith,
  length-append (hex_digits n (value / 16)) (hex_digit (value % 16) ∷ []),
  length-hex_digits n (value / 16),
)

length-decimal_digits : (n value : ℕ) → length (decimal_digits n value) ≤ n
unfolding decimal_digits
length-decimal_digits zero value = omega arith
length-decimal_digits (suc n) value = ground (
  arith,
  length-append (decimal_digits n (value / 10)) ((value % 10 + b'0') ∷ []),
  length-decimal_digits n (value / 10),
)

length-hex_string : (value : ℕ) → length (hex_string value) ≡ 16
unfolding hex_string
length-hex_string value = length-hex_digits 16 value

length-decimal : (value : ℕ) → length (decimal value) ≤ 20
unfolding decimal
length-decimal value = length-decimal_digits 20 value

length-suffix : (pid counter random : ℕ) → length (suffix pid counter random) ≤ 58
unfolding suffix
length-suffix pid counter random =
    let tail = codes "." ++ hex_string random in
    let middle = codes "." ++ (decimal counter ++ tail) in
    let whole : length (decimal pid ++ middle) ≤ 58 = omega (
      arith,
      length-append (decimal pid) middle,
      length-append (decimal counter) tail,
      length-decimal pid,
      length-decimal counter,
      length-hex_string random,
    ) in
    whole

-- Cutting to the budget.
length-cut :
    (budget : ℕ) (prefix : Bytes)
    → length (if ltb budget (length prefix) then take budget prefix else prefix) ≤ budget
length-cut budget prefix = ground (arith, length-take budget prefix)

-- However long the name of the target is, the name of its temporary file has at most 254 bytes,
-- so the kernel accepts it, and ends with the whole suffix that makes it unique.
pub temp_name_fits :
    (name : Bytes) (pid counter random : ℕ)
    → (length (temp_name name pid counter random) ≤ 254)
      × ((head : Bytes) × (temp_name name pid counter random ≡ head ++ suffix pid counter random))
unfolding temp_name
temp_name_fits name pid counter random =
    let end = suffix pid counter random in
    let prefix = codes "." ++ name ++ codes ".tmp." in
    let budget = sub_size (sub_size max_file_name_length (length end)) 1 in
    let head = if ltb budget (length prefix) then take budget prefix else prefix in
    (
      omega (
        arith,
        length-append head end,
        length-cut budget prefix,
        length-suffix pid counter random,
      ),
      (head, refl),
    )
