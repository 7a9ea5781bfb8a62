-- ===== src/Pairs.antt =====
-- `std::set<std::pair<...>>`, as the timer queue uses it: the elements in ascending order.
pub mod Order
use moban.Prelude.{
  ℕ, suc, ◌+◌, ◌≡◌, refl, ap, Bool, true, false, ◌&&◌, ◌||◌, List, [], ◌∷◌, ◌++◌, ltb, ◌==◌,
  if◌then◌else◌, length, arith,
}

abbrev pub PairList : Type 0
PairList = List (ℕ × ℕ)

abbrev pub lt_pair : ℕ → ℕ → ℕ → ℕ → Bool
lt_pair a b c d = ltb a c || (a == c) && ltb b d

unfoldable pub count : ℕ → ℕ → PairList → ℕ
count a b [] = 0
count a b ((c, d) ∷ s) = if (a == c) && (b == d) then suc (count a b s) else count a b s

abbrev pub contains : ℕ → ℕ → PairList → Bool
contains a b s = ltb 0 (count a b s)

-- Where an element that is not there yet is inserted.
unfoldable pub place : ℕ → ℕ → PairList → PairList
place a b [] = (a, b) ∷ []
place a b ((c, d) ∷ s) = if lt_pair a b c d then (a, b) ∷ (c, d) ∷ s else (c, d) ∷ place a b s

-- `erase(key)` also returns the number of the elements that it takes out, which is `count`.
unfoldable pub erase : ℕ → ℕ → PairList → PairList
erase a b [] = []
erase a b ((c, d) ∷ s) = if (a == c) && (b == d) then erase a b s else (c, d) ∷ erase a b s

-- The elements before `lower_bound(key)`, and those from there on.
unfoldable pub before : ℕ → ℕ → PairList → PairList
before a b [] = []
before a b ((c, d) ∷ s) = if lt_pair c d a b then (c, d) ∷ before a b s else []

unfoldable pub from : ℕ → ℕ → PairList → PairList
from a b [] = []
from a b ((c, d) ∷ s) = if lt_pair c d a b then from a b s else (c, d) ∷ s

pub count-place :
    (x y a b : ℕ) (s : PairList)
    → count x y (place a b s) ≡ count x y s + (if (x == a) && (y == b) then 1 else 0)
unfolding count place
count-place x y a b [] = ground arith
count-place x y a b ((c, d) ∷ s) = ground (arith, count-place x y a b s)

pub length-place : (a b : ℕ) (s : PairList) → length (place a b s) ≡ suc (length s)
unfolding place
length-place a b [] = refl
length-place a b ((c, d) ∷ s) = ground (arith, length-place a b s)

pub count-erase :
    (x y a b : ℕ) (s : PairList)
    → count x y (erase a b s) ≡ (if (x == a) && (y == b) then 0 else count x y s)
unfolding count erase
count-erase x y a b [] = ground arith
count-erase x y a b ((c, d) ∷ s) = ground (arith, count-erase x y a b s)

pub length-erase : (a b : ℕ) (s : PairList) → length (erase a b s) + count a b s ≡ length s
unfolding count erase
length-erase a b [] = omega arith
length-erase a b ((c, d) ∷ s) = ground (arith, length-erase a b s)

pub before-append-from : (a b : ℕ) (s : PairList) → before a b s ++ from a b s ≡ s
unfolding before from
before-append-from a b [] = refl
before-append-from a b ((c, d) ∷ s) = ground (arith, before-append-from a b s)
