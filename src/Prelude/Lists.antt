-- ===== src/Prelude/Lists.antt =====
-- Lists measured, indexed and filtered by native numbers and Boolean tests.
use Prim.Native.Nat.{ℕ, zero, suc, ◌+◌, ◌≤◌, ◌<◌}
use mathlib.Core.Path.{◌≡◌, refl, ap, sym, subst}
use mathlib.Core.Logic.{◌⊎◌, inl, inr}
use mathlib.Core.Bool.{Bool, true, false, ◌&&◌, ◌||◌}
use mathlib.Core.List.{List, [], ◌∷◌, ◌++◌, map}
use mathlib.Core.Option.{Option, none, some}
use native.Mathlib.Omega.{arith}
use dgsw_class_pg_proxy.Prelude.Tests.{if◌then◌else◌, Bool-cases, ◌==◌}

module _ {ℓ} {A : Type ℓ} where
  abbrev pub length : List A → ℕ
  length [] = 0
  length (x ∷ xs) = suc (length xs)

  abbrev pub get_elem? : List A → ℕ → Option A
  get_elem? [] i = none
  get_elem? (x ∷ xs) zero = some x
  get_elem? (x ∷ xs) (suc i) = get_elem? xs i

  abbrev pub take : ℕ → List A → List A
  take zero xs = []
  take (suc n) [] = []
  take (suc n) (x ∷ xs) = x ∷ take n xs

  abbrev pub drop : ℕ → List A → List A
  drop zero xs = xs
  drop (suc n) [] = []
  drop (suc n) (x ∷ xs) = drop n xs

  abbrev pub replicate : ℕ → A → List A
  replicate zero a = []
  replicate (suc n) a = a ∷ replicate n a

  -- A write out of bounds changes nothing.
  abbrev pub set : List A → ℕ → A → List A
  set [] i v = []
  set (x ∷ xs) zero v = v ∷ xs
  set (x ∷ xs) (suc i) v = x ∷ set xs i v

  abbrev pub get_or : List A → ℕ → A → A
  get_or [] i d = d
  get_or (x ∷ xs) zero d = x
  get_or (x ∷ xs) (suc i) d = get_or xs i d

  -- `iter().filter(p)` and `iter().any(p)`.
  abbrev pub filter : (A → Bool) → List A → List A
  filter p [] = []
  filter p (x ∷ xs) = if p x then x ∷ filter p xs else filter p xs

  abbrev pub any : (A → Bool) → List A → Bool
  any p [] = false
  any p (x ∷ xs) = p x || any p xs

  abbrev pub all : (A → Bool) → List A → Bool
  all p [] = true
  all p (x ∷ xs) = p x && all p xs

  pub length-append : (xs ys : List A) → length (xs ++ ys) ≡ length xs + length ys
  length-append [] ys = omega arith
  length-append (x ∷ xs) ys = omega (arith, length-append xs ys)

  pub get_elem?-some_of_lt :
      (xs : List A) (i : ℕ) → i < length xs → (x : A) × (get_elem? xs i ≡ some x)
  get_elem?-some_of_lt [] i h = absurd (omega arith)
  get_elem?-some_of_lt (x ∷ xs) zero h = (x, refl)
  get_elem?-some_of_lt (x ∷ xs) (suc i) h = get_elem?-some_of_lt xs i (omega arith)

-- Membership with its position forgotten to a sum, so that tactics open it.
abbrev pub In : {A : Type 0} → A → List A → Type 0
In x [] = ⊥
In x (y ∷ ys) = (x ≡ y) ⊎ In x ys

module _ {ℓ κ} {A : Type ℓ} (Holds : A → Type κ) where
  abbrev pub All : List A → Type κ
  All [] = Unit {κ}
  All (first ∷ others) = Holds first × All others

module _ {ℓ κ} {A : Type ℓ} {B : Type κ} where
  pub length-map : (f : A → B) (xs : List A) → length (map f xs) ≡ length xs
  length-map f [] = refl
  length-map f (x ∷ xs) = ap suc (length-map f xs)

  pub All-map :
      (f : A → B) (P : B → Type 0) (xs : List A) → All (λ x. P (f x)) xs → All P (map f xs)
  All-map f P [] h = tt
  All-map f P (x ∷ xs) h = (h.0, All-map f P xs h.1)

-- `filter` at a predicate that stays a variable, so that a test can be rewritten.
module _ {A : Type 0} (p : A → Bool) where
  pub filter_sound : (a : A) (xs : List A) → In a (filter p xs) → In a xs × (p a ≡ true)
  filter_sound a [] h = absurd h
  filter_sound a (x ∷ xs) h = elim (Bool-cases (p x)) [
    | inl keep ↦
        elim (let h' : (a ≡ x) ⊎ In a (filter p xs) = rw keep at h in h')
          as (λ z. In a (x ∷ xs) × (p a ≡ true)) [
            | inl e ↦ (inl e, rw e keep)
            | inr m ↦ let r = filter_sound a xs m in (inr r.0, r.1)
          ]
    | inr out ↦ let r = filter_sound a xs (rw out at h) in (inr r.0, r.1)
  ]

  pub filter_complete : (a : A) (xs : List A) → In a xs → p a ≡ true → In a (filter p xs)
  filter_complete a [] h e = h
  filter_complete a (x ∷ xs) (inl e') e = let keep : p x ≡ true = rw (← e') e in rw keep (inl e')
  filter_complete a (x ∷ xs) (inr m) e = elim (Bool-cases (p x)) [
    | inl keep ↦ rw keep (inr (filter_complete a xs m e))
    | inr out ↦ rw out (filter_complete a xs m e)
  ]

  pub filter-nil : (xs : List A) → filter p xs ≡ [] → All (λ x. p x ≡ false) xs
  filter-nil [] h = tt
  filter-nil (x ∷ xs) h = ground (arith, filter-nil xs)

  pub filter_of_none : (xs : List A) → All (λ x. p x ≡ false) xs → filter p xs ≡ []
  filter_of_none [] h = refl
  filter_of_none (x ∷ xs) h = rw h.0 (filter_of_none xs h.1)

pub In-get_elem? : {A : Type 0} (xs : List A) (i : ℕ) (a : A) → get_elem? xs i ≡ some a → In a xs
In-get_elem? [] i a h = cc
In-get_elem? (x ∷ xs) zero a h = inl (ground arith)
In-get_elem? (x ∷ xs) (suc i) a h = inr (In-get_elem? xs i a h)

pub In-map : {A B : Type 0} (f : A → B) (a : A) (xs : List A) → In a xs → In (f a) (map f xs)
In-map f a [] h = absurd h
In-map f a (x ∷ xs) (inl e) = inl (ap f e)
In-map f a (x ∷ xs) (inr m) = inr (In-map f a xs m)

pub All_In : {A : Type 0} (P : A → Type 0) (xs : List A) (a : A) → All P xs → In a xs → P a
All_In P [] a h m = absurd m
All_In P (x ∷ xs) a h (inl e) = subst P (sym e) h.0
All_In P (x ∷ xs) a h (inr m) = All_In P xs a h.1 m

-- Over a small range of numbers, a test at each of them by evaluation.
unfoldable pub holds_from : (ℕ → Bool) → ℕ → ℕ → Bool
holds_from test start zero = true
holds_from test start (suc count) = test start && holds_from test (start + 1) count

pub holds_from_sound :
    (test : ℕ → Bool) (start count i : ℕ)
    → start ≤ i
    → i < start + count
    → holds_from test start count ≡ true
    → test i ≡ true
unfolding holds_from
holds_from_sound test start zero i low high h = absurd (omega arith)
holds_from_sound test start (suc count) i low high h = elim (Bool-cases (start == i)) [
  | inl e ↦ let same : start ≡ i = ground arith in ground arith
  | inr e ↦ holds_from_sound test (start + 1) count i (ground arith) (omega arith) (ground arith)
]
