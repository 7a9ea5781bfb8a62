-- ===== src/Pairs/Order.antt =====
-- Pairs.antt: the order of the elements, which insertion and removal keep.
use moban.Prelude.{
  ℕ, ◌≤◌, ◌<◌, ◌≡◌, true, ◌&&◌, [], ◌∷◌, ◌++◌, ◌==◌, arith, Bool-cases, inl, inr, false,
}
use moban.Pairs.{PairList, lt_pair, count, place, erase, before, from, count-place, count-erase}

abbrev pub IsBelow : ℕ → ℕ → PairList → Type 0
IsBelow a b s = (x y : ℕ) → 0 < count x y s → lt_pair a b x y ≡ true

unfoldable pub IsAscending : PairList → Type 0
IsAscending [] = Unit {0}
IsAscending ((a, b) ∷ s) = IsBelow a b s × IsAscending s

lt_pair_trans :
    (a b c d e f : ℕ) → lt_pair a b c d ≡ true → lt_pair c d e f ≡ true → lt_pair a b e f ≡ true
lt_pair_trans a b c d e f h k = ground arith

pub place-IsAscending :
    (a b : ℕ) (s : PairList) → count a b s ≡ 0 → IsAscending s → IsAscending (place a b s)
unfolding place IsAscending count
place-IsAscending a b [] h v = (λ x y k. ground arith, tt)
place-IsAscending a b ((c, d) ∷ s) h v = elim (Bool-cases (lt_pair a b c d)) [
  | inl e ↦ rw e ((λ x y k. ground (arith, e, v.0 x y, lt_pair_trans a b c d x y)), v)
  | inr e ↦ rw e (
    (λ x y k. ground (arith, e, h, v.0 x y, count-place x y a b s)),
    place-IsAscending a b s (ground arith) v.1,
  )
]

pub erase-IsAscending : (a b : ℕ) (s : PairList) → IsAscending s → IsAscending (erase a b s)
unfolding erase IsAscending
erase-IsAscending a b [] v = tt
erase-IsAscending a b ((c, d) ∷ s) v = elim (Bool-cases ((a == c) && (b == d))) [
  | inl e ↦ rw e (erase-IsAscending a b s v.1)
  | inr e ↦
      rw e (λ x y k. ground (arith, v.0 x y, count-erase x y a b s), erase-IsAscending a b s v.1)
]

pub before_lem :
    (a b : ℕ) (s : PairList) (x y : ℕ) → 0 < count x y (before a b s) → lt_pair x y a b ≡ true
unfolding before count
before_lem a b [] x y h = absurd (omega arith)
before_lem a b ((c, d) ∷ s) x y h = ground (arith, before_lem a b s x y)

pub from_lem :
    (a b : ℕ) (s : PairList)
    → IsAscending s
    → (x y : ℕ) → 0 < count x y (from a b s)
    → (lt_pair x y a b ≡ false)
unfolding from count IsAscending
from_lem a b [] v x y h = absurd (omega arith)
from_lem a b ((c, d) ∷ s) v x y h = ground (arith, from_lem a b s v.1 x y, v.0 x y)

pub IsAscending-append-tail :
    (p s : PairList) (a b : ℕ) → IsAscending (((a, b) ∷ p) ++ s) → IsAscending (p ++ s)
unfolding IsAscending
IsAscending-append-tail p s a b v = v.1

pub count-from-le : (x y a b : ℕ) (s : PairList) → count x y (from a b s) ≤ count x y s
unfolding from count
count-from-le x y a b [] = omega arith
count-from-le x y a b ((c, d) ∷ s) = ground (arith, count-from-le x y a b s)
