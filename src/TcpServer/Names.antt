-- ===== src/TcpServer/Names.antt =====
-- The number of a connection as `snprintf` prints it, and the equality of names.
use moban.Prelude.{
  ℕ, zero, suc, ◌+◌, ◌-◌, ◌*◌, ◌/◌, ◌%◌, ◌^◌, ◌≤◌, ◌<◌, ◌≡◌, refl, sym, ap, ap₂, ◌∙◌, Bool, true,
  false, ◌&&◌, [], ◌∷◌, ◌++◌, ◌==◌, if◌then◌else◌, ltb, Bytes, length, length-append, arith,
}

-- "%d" of an `int` that is not negative, which has at most 10 digits.
unfoldable pub digits : ℕ → ℕ → Bytes
digits zero value = []
digits (suc n) value =
    let rest = digits n (value / 10) in
    if ltb value 10 then (value + b'0') ∷ [] else rest ++ (value % 10 + b'0') ∷ []

unfoldable pub id_text : ℕ → Bytes
id_text id = digits 10 id

unfoldable pub equals : Bytes → Bytes → Bool
equals [] [] = true
equals (x ∷ xs) (y ∷ ys) = x == y && equals xs ys
equals xs ys = false

pub equals_refl : (xs : Bytes) → equals xs xs ≡ true
unfolding equals
equals_refl [] = refl
equals_refl (x ∷ xs) = ground (arith, equals_refl xs)

pub equals_sound : (xs ys : Bytes) → equals xs ys ≡ true → xs ≡ ys
unfolding equals
equals_sound [] [] h = refl
equals_sound [] (y ∷ ys) h = ground arith
equals_sound (x ∷ xs) [] h = ground arith
equals_sound (x ∷ xs) (y ∷ ys) h =
    let heads : x ≡ y = ground arith in
    let tails : equals xs ys ≡ true = ground arith in ap₂ (◌∷◌) heads (equals_sound xs ys tails)

-- The number that a text of digits stands for.
value_of : ℕ → Bytes → ℕ
value_of n [] = n
value_of n (c ∷ cs) = value_of (n * 10 + (c - b'0')) cs

value_of-append : (n : ℕ) (xs ys : Bytes) → value_of n (xs ++ ys) ≡ value_of (value_of n xs) ys
unfolding value_of
value_of-append n [] ys = refl
value_of-append n (x ∷ xs) ys = value_of-append (n * 10 + (x - b'0')) xs ys

value_of-digits : (n value : ℕ) → value < 10 ^ n → 1 ≤ n → value_of 0 (digits n value) ≡ value
unfolding digits value_of
value_of-digits zero value h l = ground arith
value_of-digits (suc zero) value h l = ground arith
value_of-digits (suc (suc n)) value h l =
    let e : 10 ^ suc (suc n) ≡ 10 * 10 ^ suc n = omega arith in
    let small : value / 10 < 10 ^ suc n = omega arith in
    ground (
      arith,
      value_of-append 0 (digits (suc n) (value / 10)) ((value % 10 + b'0') ∷ []),
      value_of-digits (suc n) (value / 10) small (omega arith),
    )

length-digits : (n k value : ℕ) → value < 10 ^ k → 1 ≤ k → length (digits n value) ≤ k
unfolding digits
length-digits zero k value h l = omega arith
length-digits (suc n) zero value h l = ground arith
length-digits (suc n) (suc zero) value h l = ground arith
length-digits (suc n) (suc (suc k)) value h l =
    let small : value / 10 < 10 ^ suc k =
      let e : 10 ^ suc (suc k) ≡ 10 * 10 ^ suc k = omega arith in omega arith in
    ground (
      arith,
      length-append (digits n (value / 10)) ((value % 10 + b'0') ∷ []),
      length-digits n (suc k) (value / 10) small (omega arith),
    )

pub id_text-injective : (a b : ℕ) → a < 1000000000 → b < 1000000000 → id_text a ≡ id_text b → a ≡ b
unfolding id_text
id_text-injective a b ha hb h =
    sym (value_of-digits 10 a (omega arith) (omega arith))
    ∙ ap (value_of 0) h
    ∙ value_of-digits 10 b (omega arith) (omega arith)

pub length-id_text : (a : ℕ) → a < 1000000000 → length (id_text a) ≤ 9
unfolding id_text
length-id_text a h = length-digits 10 9 a (omega arith) (omega arith)
