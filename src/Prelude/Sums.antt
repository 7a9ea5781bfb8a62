-- ===== src/Prelude/Sums.antt =====
-- Sums over a list, and what a change of one element does to them.
use Prim.Native.Nat.{ℕ, zero, suc, ◌+◌}
use mathlib.Core.Path.{◌≡◌, refl, ap}
use mathlib.Core.List.{List, [], ◌∷◌, ◌++◌}
use mathlib.Core.Option.{some}
use native.Mathlib.Omega.{arith}
use moban.Prelude.Lists.{get_elem?, set, replicate}

module _ {ℓ} {A : Type ℓ} (f : A → ℕ) where
  unfoldable pub total : List A → ℕ
  total [] = 0
  total (x ∷ xs) = f x + total xs

  pub total-set :
      (xs : List A) (i : ℕ) (old new : A)
      → get_elem? xs i ≡ some old
      → total (set xs i new) + f old ≡ total xs + f new
  unfolding total
  total-set [] i old new h = absurd (ground arith)
  total-set (x ∷ xs) zero old new h =
      let same : f x ≡ f old = ap f (ground arith) in omega (arith, same)
  total-set (x ∷ xs) (suc i) old new h = omega (arith, total-set xs i old new h)

  pub total-replicate : (n : ℕ) (x : A) → f x ≡ 0 → total (replicate n x) ≡ 0
  unfolding total
  total-replicate zero x h = refl
  total-replicate (suc n) x h = omega (arith, h, total-replicate n x h)

  pub total-append : (xs ys : List A) → total (xs ++ ys) ≡ total xs + total ys
  unfolding total
  total-append [] ys = omega arith
  total-append (x ∷ xs) ys = omega (arith, total-append xs ys)
