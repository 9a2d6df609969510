-- ===== src/Prelude/Run.antt =====
-- Code that may panic (`unwrap`, an index out of range), as a monad.
use mathlib.Core.Option.{Option, none, some}
use mathlib.Core.List.{List}
use Prim.Native.Nat.{ℕ}
use dgsw_class_pg_proxy.Prelude.Lists.{get_elem?}

pub data Run {ℓ} (A : Type ℓ) : Type ℓ where
  returned : A → Run A
  panicked : Run A

infixl 5 ◌>>=◌
abbrev pub ◌>>=◌ {ℓ κ} : {A : Type ℓ} {B : Type κ} → Run A → (A → Run B) → Run B
returned a >>= f = f a
panicked >>= f = panicked

-- `Option::unwrap`.
abbrev pub unwrap {ℓ} : {A : Type ℓ} → Option A → Run A
unwrap none = panicked
unwrap (some a) = returned a

-- `v[i]`.
abbrev pub index {ℓ} : {A : Type ℓ} → List A → ℕ → Run A
index xs i = unwrap (get_elem? xs i)
