-- ===== src/Sorting/Sorted.antt =====
-- Sorting puts the values in order and keeps them.
use cpo.Base.{
  ℕ, zero, suc, ◌≤◌, ◌≡◌, refl, inl, inr, true, ◌||◌, some, List, [], ◌∷◌, arith, get_elem?,
  contains, Bool-cases, Comparable,
}
use cpo.Sorting.{Order, insert, sort}

module _ {ℓ} {A : Type ℓ} ⦃o : Order A⦄ where
  -- The first value is below all others.
  abbrev pub Below : A → List A → Type 0
  Below x [] = Unit
  Below x (y ∷ ys) = (o.le x y ≡ true) × Below x ys

  abbrev pub IsSorted : List A → Type 0
  IsSorted [] = Unit
  IsSorted (x ∷ xs) = Below x xs × IsSorted xs

  Below-trans : (x y : A) (ys : List A) → o.le x y ≡ true → Below y ys → Below x ys
  Below-trans x y [] h b = tt
  Below-trans x y (z ∷ zs) h b = (o.trans x y z h b.0, Below-trans x y zs h b.1)

  Below-insert : (x y : A) (ys : List A) → o.le x y ≡ true → Below x ys → Below x (insert y ys)
  Below-insert x y [] h b = (h, tt)
  Below-insert x y (z ∷ zs) h b = elim (Bool-cases (o.le y z)) [
    | inl p ↦ rw p (h, b)
    | inr p ↦ rw p (b.0, Below-insert x y zs h b.1)
  ]

  insert-IsSorted : (x : A) (xs : List A) → IsSorted xs → IsSorted (insert x xs)
  insert-IsSorted x [] s = (tt, tt)
  insert-IsSorted x (y ∷ ys) s = elim (Bool-cases (o.le x y)) [
    | inl p ↦ rw p ((p, Below-trans x y ys p s.0), s)
    | inr p ↦ rw p (Below-insert y x ys (o.total x y p) s.0, insert-IsSorted x ys s.1)
  ]

  pub sort-IsSorted : (xs : List A) → IsSorted (sort xs)
  sort-IsSorted [] = tt
  sort-IsSorted (x ∷ xs) = insert-IsSorted x (sort xs) (sort-IsSorted xs)

  Below-at :
      (x : A) (xs : List A) (i : ℕ) {y : A} → Below x xs → get_elem? xs i ≡ some y → o.le x y ≡ true
  Below-at x [] i b h = cc
  Below-at x (z ∷ zs) zero b h = ground arith
  Below-at x (z ∷ zs) (suc i) b h = Below-at x zs i b.1 h

  pub le_refl : (x : A) → o.le x x ≡ true
  le_refl x = elim (Bool-cases (o.le x x)) [ inl p ↦ p | inr p ↦ o.total x x p ]

  -- In a sorted list a later value is at least an earlier one.
  pub IsSorted-at :
      (xs : List A) (i j : ℕ) {x y : A}
      → IsSorted xs
      → i ≤ j
      → get_elem? xs i ≡ some x
      → get_elem? xs j ≡ some y
      → o.le x y ≡ true
  IsSorted-at [] i j s l h k = cc
  IsSorted-at (z ∷ zs) zero zero {x} s l h k = ground (arith, le_refl x)
  IsSorted-at (z ∷ zs) zero (suc j) {x} {y} s l h k = ground (arith, Below-at z zs j s.0 k)
  IsSorted-at (z ∷ zs) (suc i) zero s l h k = absurd (omega arith)
  IsSorted-at (z ∷ zs) (suc i) (suc j) s l h k = IsSorted-at zs i j s.1 (omega arith) h k

module _ {ℓ} {A : Type ℓ} ⦃o : Order A⦄ ⦃e : Comparable A⦄ where
  contains-insert :
      (x a : A) (xs : List A) → contains (insert x xs) a ≡ (e.same x a || contains xs a)
  contains-insert x a [] = refl
  contains-insert x a (y ∷ ys) = ground (arith, contains-insert x a ys)

  pub contains-sort : (a : A) (xs : List A) → contains (sort xs) a ≡ contains xs a
  contains-sort a [] = refl
  contains-sort a (x ∷ xs) = ground (arith, contains-insert x a (sort xs), contains-sort a xs)
