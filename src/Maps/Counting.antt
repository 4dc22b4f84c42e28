-- ===== src/Maps/Counting.antt =====
-- Counting: a list without repetitions is no longer than a list that has all its texts.
use mathlib.Core.Path.{subst}
use cpo.Base.{
  suc, ◌≤◌, ◌≡◌, refl, ap, true, false, List, [], ◌∷◌, ◌==◌, if◌then◌else◌, Str, contains, length,
  arith, str_eq_iff, str_eq_refl, nat_eq, list_eq, Bool-cases, inl, inr,
}
use cpo.Maps.{AllOnce}

-- Drops the first entry that is `k`.
abbrev drop_one : Str → List Str → List Str
drop_one k [] = []
drop_one k (x ∷ xs) = let rest = drop_one k xs in if x == k then xs else x ∷ rest

length-drop_one :
    (k : Str) (xs : List Str) → contains xs k ≡ true → length xs ≡ suc (length (drop_one k xs))
length-drop_one k [] h = cc
length-drop_one k (x ∷ xs) h = elim (Bool-cases (x == k)) [
  | inl e ↦ rw (e, drop_one) refl
  | inr e ↦ rw (e, drop_one) (ap suc (length-drop_one k xs (ground arith)))
]

contains-drop_one :
    (k : Str) (xs : List Str) (x : Str)
    → contains xs x ≡ true
    → (k == x) ≡ false
    → contains (drop_one k xs) x ≡ true
contains-drop_one k [] x h ne = cc
contains-drop_one k (y ∷ xs) x h ne = elim (Bool-cases (y == k)) [
  | inl e ↦ rw (e, drop_one) (ground (arith, str_eq_iff y k, str_eq_iff y x, str_eq_iff k x))
  | inr e ↦ elim (Bool-cases (y == x)) [
    | inl f ↦ rw (e, drop_one) (ground arith)
    | inr f ↦ let ih = contains-drop_one k xs x (ground arith) ne in rw (e, drop_one) (ground arith)
  ]
]

elsewhere :
    (x y : Str) (xs : List Str) → contains xs x ≡ false → contains xs y ≡ true → (x == y) ≡ false
elsewhere x y xs h m = elim (Bool-cases (x == y)) [
  | inl e ↦
      (let k : contains xs y ≡ false =
          subst (λ z. contains xs z ≡ false) ((str_eq_iff x y).0 e) h in
        cc)
  | inr f ↦ f
]

pub length-AllOnce :
    (xs ys : List Str)
    → AllOnce xs
    → ((x : Str) → contains xs x ≡ true → contains ys x ≡ true)
    → length xs ≤ length ys
length-AllOnce [] ys once sub = omega arith
length-AllOnce (x ∷ xs) ys once sub =
    let here : contains ys x ≡ true = sub x (ground (arith, str_eq_refl x)) in
    let ih : length xs ≤ length (drop_one x ys) =
      length-AllOnce xs (drop_one x ys) once.1
        (λ y m. contains-drop_one x ys y (sub y (ground arith)) (elsewhere x y xs once.0 m)) in
    omega (arith, length-drop_one x ys here)

-- With the same length, it has all the texts of the other list.
pub contains-AllOnce :
    (xs ys : List Str)
    → AllOnce xs
    → ((x : Str) → contains xs x ≡ true → contains ys x ≡ true)
    → length xs ≡ length ys
    → (y : Str) → contains ys y ≡ true
    → contains xs y ≡ true
contains-AllOnce xs ys once sub same y h = elim (Bool-cases (contains xs y)) [
  | inl e ↦ e
  | inr e ↦
      let more : suc (length xs) ≤ length ys =
        length-AllOnce (y ∷ xs) ys (e, once)
          (λ z m. elim (Bool-cases (y == z)) [
            | inl f ↦ subst (λ w. contains ys w ≡ true) ((str_eq_iff y z).0 f) h
            | inr f ↦ sub z (ground arith)
          ]) in
      ground arith
]
