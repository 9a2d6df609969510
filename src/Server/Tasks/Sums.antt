-- ===== src/Server/Tasks/Sums.antt =====
-- Sums over the tasks.
use dgsw_class_pg_proxy.Prelude.{
  ℕ, zero, suc, ◌+◌, ◌≡◌, refl, some, List, [], ◌∷◌, get_elem?, set, arith,
}

module _ {A : Type 0} (weight : A → ℕ) where
  pub sum : List A → ℕ
  sum [] = 0
  sum (x ∷ xs) = weight x + sum xs

  pub sum_nil : sum [] ≡ 0
  unfolding sum
  sum_nil = refl

  pub sum_cons : (x : A) (xs : List A) → sum (x ∷ xs) ≡ weight x + sum xs
  unfolding sum
  sum_cons x xs = refl

  -- Exchanging an element adds its weight and takes that of the old one away.
  pub sum-set :
      (xs : List A) (i : ℕ) (x y : A)
      → get_elem? xs i ≡ some x
      → sum (set xs i y) + weight x ≡ sum xs + weight y
  unfolding sum
  sum-set [] i x y h = cc
  sum-set (z ∷ xs) zero x y h = let same : z ≡ x = ground arith in rw same (omega arith)
  sum-set (z ∷ xs) (suc i) x y h = omega (arith, sum-set xs i x y h)
