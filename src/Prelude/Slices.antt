-- ===== src/Prelude/Slices.antt =====
-- Slices of a list, and writes into the middle of it.
use Prim.Native.Nat.{ℕ, zero, suc, ◌+◌, ◌-◌, ◌≤◌}
use mathlib.Core.Path.{◌≡◌, refl, ap}
use mathlib.Core.List.{List, [], ◌∷◌, ◌++◌}
use native.Mathlib.Omega.{arith}
use moban.Prelude.Lists.{length, take, drop, length-append, length-take, length-drop}

module _ {ℓ} {A : Type ℓ} where
  -- `std::copy` of `d` to the position `i` of `xs`.
  abbrev pub write_at : List A → ℕ → List A → List A
  write_at xs i d = take i xs ++ (d ++ drop (i + length d) xs)

  -- The `n` elements from position `i` on.
  abbrev pub slice : List A → ℕ → ℕ → List A
  slice xs i n = take n (drop i xs)

  pub drop-append_le :
      (r : ℕ) (xs ys : List A) → r ≤ length xs → drop r (xs ++ ys) ≡ drop r xs ++ ys
  drop-append_le zero xs ys h = refl
  drop-append_le (suc r) [] ys h = absurd (omega arith)
  drop-append_le (suc r) (x ∷ xs) ys h = drop-append_le r xs ys (omega arith)

  pub take-append_le : (n : ℕ) (xs ys : List A) → n ≤ length xs → take n (xs ++ ys) ≡ take n xs
  take-append_le zero xs ys h = refl
  take-append_le (suc n) [] ys h = absurd (omega arith)
  take-append_le (suc n) (x ∷ xs) ys h = ap (λ t. x ∷ t) (take-append_le n xs ys (omega arith))

  pub take-append_ge :
      (n k : ℕ) (xs ys : List A) → n ≡ length xs + k → take n (xs ++ ys) ≡ xs ++ take k ys
  take-append_ge n k [] ys h = ap (λ t. take t ys) (omega arith)
  take-append_ge zero k (x ∷ xs) ys h = absurd (omega arith)
  take-append_ge (suc n) k (x ∷ xs) ys h = ap (λ t. x ∷ t) (take-append_ge n k xs ys (omega arith))

  pub drop-append_ge :
      (n k : ℕ) (xs ys : List A) → n ≡ length xs + k → drop n (xs ++ ys) ≡ drop k ys
  drop-append_ge n k [] ys h = ap (λ t. drop t ys) (omega arith)
  drop-append_ge zero k (x ∷ xs) ys h = absurd (omega arith)
  drop-append_ge (suc n) k (x ∷ xs) ys h = drop-append_ge n k xs ys (omega arith)

  pub drop-take : (r w : ℕ) (xs : List A) → drop r (take w xs) ≡ take (w - r) (drop r xs)
  drop-take zero w xs = let e : w - 0 ≡ w = omega arith in rw e refl
  drop-take (suc r) zero xs = let e : 0 - suc r ≡ 0 = omega arith in rw e refl
  drop-take (suc r) (suc w) [] = nil (suc w - suc r)
    where
      nil : (n : ℕ) → ◌≡◌ {A = List A} [] (take n [])
      nil zero = refl
      nil (suc n) = refl
  drop-take (suc r) (suc w) (x ∷ xs) =
      let e : w - r ≡ suc w - suc r = omega arith in rw (← e) (drop-take r w xs)

  pub drop-drop : (m n : ℕ) (xs : List A) → drop m (drop n xs) ≡ drop (n + m) xs
  drop-drop m zero xs = ap (λ t. drop t xs) (omega arith)
  drop-drop m (suc n) [] = nil m
    where
      nil : (k : ℕ) → ◌≡◌ {A = List A} (drop k []) (drop (suc n + m) [])
      nil zero = let e : suc n + m ≡ suc (n + m) = omega arith in rw e refl
      nil (suc k) = let e : suc n + m ≡ suc (n + m) = omega arith in rw e refl
  drop-drop m (suc n) (x ∷ xs) =
      let e : suc n + m ≡ suc (n + m) = omega arith in rw e (drop-drop m n xs)

  pub length-slice : (xs : List A) (i n : ℕ) → i + n ≤ length xs → length (slice xs i n) ≡ n
  length-slice xs i n h = omega (arith, length-take n (drop i xs), length-drop i xs)

  pub length-write_at :
      (xs : List A) (i : ℕ) (d : List A)
      → i + length d ≤ length xs
      → length (write_at xs i d) ≡ length xs
  length-write_at xs i d h = omega (
    arith,
    length-append (take i xs) (d ++ drop (i + length d) xs),
    length-append d (drop (i + length d) xs),
    length-take i xs,
    length-drop (i + length d) xs,
  )

  pub take-take : (m n : ℕ) (xs : List A) → m ≤ n → take m xs ≡ take m (take n xs)
  take-take zero n xs h = refl
  take-take (suc m) zero xs h = absurd (omega arith)
  take-take (suc m) (suc n) [] h = refl
  take-take (suc m) (suc n) (x ∷ xs) h = ap (λ t. x ∷ t) (take-take m n xs (omega arith))
