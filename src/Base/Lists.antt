-- ===== src/Base/Lists.antt =====
-- Lists measured and indexed by native numbers, and membership by a Boolean test.
use Prim.Native.Nat.{ℕ, zero, suc, ◌+◌, ◌<◌}
use mathlib.Core.Path.{◌≡◌, refl, ap}
use mathlib.Core.Logic.{inl, inr}
use mathlib.Core.Bool.{Bool, true, false, ◌||◌, ◌&&◌}
use mathlib.Core.List.{List, [], ◌∷◌, ◌++◌}
use mathlib.Core.Option.{Option, none, some}
use native.Mathlib.Omega.{arith}
use cpo.Base.Tests.{Bool-cases}
use cpo.Base.Equality.{Comparable, ◌==◌}

module _ {ℓ} {A : Type ℓ} where
  abbrev pub length : List A → ℕ
  length [] = 0
  length (x ∷ xs) = suc (length xs)

  abbrev pub get_elem? : List A → ℕ → Option A
  get_elem? [] i = none
  get_elem? (x ∷ xs) zero = some x
  get_elem? (x ∷ xs) (suc i) = get_elem? xs i

  -- A write out of bounds changes nothing.
  abbrev pub set : List A → ℕ → A → List A
  set [] i v = []
  set (x ∷ xs) zero v = v ∷ xs
  set (x ∷ xs) (suc i) v = x ∷ set xs i v

  abbrev pub take : ℕ → List A → List A
  take zero xs = []
  take (suc n) [] = []
  take (suc n) (x ∷ xs) = x ∷ take n xs

  abbrev pub drop : ℕ → List A → List A
  drop zero xs = xs
  drop (suc n) [] = []
  drop (suc n) (x ∷ xs) = drop n xs

  abbrev pub replicate : ℕ → A → List A
  replicate zero a = []
  replicate (suc n) a = a ∷ replicate n a

  abbrev pub any : (A → Bool) → List A → Bool
  any p [] = false
  any p (x ∷ xs) = p x || any p xs

  abbrev pub all : (A → Bool) → List A → Bool
  all p [] = true
  all p (x ∷ xs) = p x && all p xs

  pub length-append : (xs ys : List A) → length (xs ++ ys) ≡ length xs + length ys
  length-append [] ys = omega arith
  length-append (x ∷ xs) ys = omega (arith, length-append xs ys)

  pub get_elem?-lt : (xs : List A) (i : ℕ) → i < length xs → (x : A) × (get_elem? xs i ≡ some x)
  get_elem?-lt [] i h = elim h [ ]
  get_elem?-lt (x ∷ xs) zero h = (x, refl)
  get_elem?-lt (x ∷ xs) (suc i) h = get_elem?-lt xs i (omega arith)

  pub lt-get_elem? : (xs : List A) (i : ℕ) {x : A} → get_elem? xs i ≡ some x → i < length xs
  lt-get_elem? [] i h = cc
  lt-get_elem? (x ∷ xs) zero h = omega arith
  lt-get_elem? (x ∷ xs) (suc i) h = omega (arith, lt-get_elem? xs i h)

module _ {ℓ} {A : Type ℓ} ⦃e : Comparable A⦄ where
  -- Whether a value stands in the list.
  abbrev pub contains : List A → A → Bool
  contains [] a = false
  contains (x ∷ xs) a = x == a || contains xs a

  pub contains-append :
      (xs ys : List A) (a : A) → contains (xs ++ ys) a ≡ (contains xs a || contains ys a)
  contains-append [] ys a = refl
  contains-append (x ∷ xs) ys a = ground (arith, contains-append xs ys a)

  pub contains-at :
      (xs : List A) (a : A) → contains xs a ≡ true → (i : ℕ) × (get_elem? xs i ≡ some a)
  contains-at [] a h = cc
  contains-at (x ∷ xs) a h = elim (Bool-cases (x == a)) [
    | inl p ↦ (0, ap some ((e.same_iff x a).0 p))
    | inr p ↦ let (i, q) = contains-at xs a (ground arith) in (suc i, q)
  ]

  pub contains_of_at :
      (xs : List A) (i : ℕ) (a : A) → get_elem? xs i ≡ some a → contains xs a ≡ true
  contains_of_at [] i a h = cc
  contains_of_at (x ∷ xs) zero a h = ground (arith, e.same_iff x a)
  contains_of_at (x ∷ xs) (suc i) a h = ground (arith, contains_of_at xs i a h)
