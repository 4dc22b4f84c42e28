-- ===== src/OpenStack/Routes/SwapOut.antt =====
-- "Delete element `index`": the last entry is written over it and the slice is shortened. What is
-- left is the old entries less one, in another order.
use mathlib.Core.List.{Perm}
use mathlib.Core.List.Perm
use mathlib.Core.Option
use mathlib.Core.Option.{some-injective}
use mathlib.Core.Path.{subst}
use cpo.Base.{
  ℕ, zero, suc, ◌-◌, ◌≡◌, refl, ap, inl, inr, Bool, true, none, some, List, [], ◌∷◌, arith, length,
  get_elem?, set, take, Bool-cases, Option-cases,
}
use cpo.OpenStack.Routes.Delete.{find_index, write_last, shorten}

module _ {ℓ} {A : Type ℓ} where
  -- The same by recursion, with the last entry and the entries before it.
  abbrev last : A → List A → A
  last y [] = y
  last y (z ∷ r) = last z r

  abbrev init : A → List A → List A
  init y [] = []
  init y (z ∷ r) = y ∷ init z r

  get_elem?-last : (y : A) (r : List A) → get_elem? (y ∷ r) (length r) ≡ some (last y r)
  get_elem?-last y [] = refl
  get_elem?-last y (z ∷ r) = get_elem?-last z r

  take-init : (y : A) (r : List A) → take (length r) (y ∷ r) ≡ init y r
  take-init y [] = refl
  take-init y (z ∷ r) = ap (λ l. y ∷ l) (take-init z r)

  pub length-set : (l : List A) (i : ℕ) (x : A) → length (set l i x) ≡ length l
  length-set [] i x = refl
  length-set (y ∷ l) zero x = refl
  length-set (y ∷ l) (suc i) x = ap suc (length-set l i x)

  write_last-eq : (y : A) (r : List A) (i : ℕ) → write_last (y ∷ r) i ≡ set (y ∷ r) i (last y r)
  write_last-eq y r i =
      let e : length (y ∷ r) - 1 ≡ length r = omega arith in
      rw (e, write_last) (rw (get_elem?-last y r, write_last))

  init_perm : (y : A) (r : List A) → Perm (last y r ∷ init y r) (y ∷ r)
  init_perm y [] = Perm.refl _
  init_perm y (z ∷ r) = Perm.trans (Perm.swap _ _ _) (Perm.cons y (init_perm z r))

  -- Writing the last entry at `i` and cutting the end.
  abbrev swapped : A → List A → ℕ → List A
  swapped y [] i = []
  swapped y (z ∷ r) zero = last z r ∷ init z r
  swapped y (z ∷ r) (suc i) = y ∷ swapped z r i

  swapped_perm :
      (y : A) (r : List A) (i : ℕ) (x : A)
      → get_elem? (y ∷ r) i ≡ some x
      → Perm (x ∷ swapped y r i) (y ∷ r)
  swapped_perm y [] zero x h =
      subst (λ a. Perm (a ∷ []) (y ∷ [])) (some-injective y x h) (Perm.refl (y ∷ []))
  swapped_perm y [] (suc i) x h = cc
  swapped_perm y (z ∷ r) zero x h =
      subst (λ a. Perm (a ∷ last z r ∷ init z r) (y ∷ z ∷ r)) (some-injective y x h)
        (Perm.cons y (init_perm z r))
  swapped_perm y (z ∷ r) (suc i) x h =
      Perm.trans (Perm.swap _ _ _) (Perm.cons y (swapped_perm z r i x h))

  shorten-set :
      (y : A) (r : List A) (i : ℕ) → take (length r) (set (y ∷ r) i (last y r)) ≡ swapped y r i
  shorten-set y [] i = refl
  shorten-set y (z ∷ r) zero = ap (λ l. last z r ∷ l) (take-init z r)
  shorten-set y (z ∷ r) (suc i) = ap (λ l. y ∷ l) (shorten-set z r i)

  shorten-write_last : (y : A) (r : List A) (i : ℕ) → shorten (write_last (y ∷ r) i) ≡ swapped y r i
  shorten-write_last y r i =
      let e : length (set (y ∷ r) i (last y r)) - 1 ≡ length r =
        omega (arith, length-set (y ∷ r) i (last y r)) in
      rw (write_last-eq y r i) (rw e (shorten-set y r i))

  abbrev Found : (A → Bool) → List A → ℕ → Type ℓ
  Found p l i = (x : A) × (get_elem? l i ≡ some x) × (p x ≡ true)

  find_index-at : (p : A → Bool) (l : List A) (i : ℕ) → find_index p l ≡ some i → Found p l i
  find_index-at p [] i h = cc
  find_index-at p (y ∷ l) i h = elim (Bool-cases (p y)) [
    | inl t ↦
        let g : some 0 ≡ some i = rw (t, find_index) at h in
        subst (Found p (y ∷ l)) (some-injective 0 i g) (y, refl, t)
    | inr f ↦
        let g : Option.map suc (find_index p l) ≡ some i = rw (f, find_index) at h in
        elim (Option-cases (find_index p l)) [
          | inl e ↦ let k : none ≡ some i = rw e at g in cc
          | inr (j, e) ↦
              let k : some (suc j) ≡ some i = rw e at g in
              subst (Found p (y ∷ l)) (some-injective (suc j) i k) (find_index-at p l j e)
        ]
  ]

  -- Deleting the entry that the search found keeps all the others, each as often as before.
  pub delete_found-perm :
      (p : A → Bool) (l : List A) (i : ℕ)
      → find_index p l ≡ some i
      → (x : A) × (p x ≡ true) × Perm (x ∷ shorten (write_last l i)) l
  delete_found-perm p [] i h = cc
  delete_found-perm p (y ∷ r) i h =
      let (x, at, t) = find_index-at p (y ∷ r) i h in
      (x, t, rw (shorten-write_last y r i) (swapped_perm y r i x at))
