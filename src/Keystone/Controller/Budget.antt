-- ===== src/Keystone/Controller/Budget.antt =====
-- How often the keys of a queue can still be taken up.
use cpo.Base.{
  ℕ, suc, ◌+◌, ◌-◌, ◌*◌, ◌≤◌, ◌≡◌, ◌≢◌, refl, sym, ap, ◌∙◌, inl, inr, true, false, ◌||◌, Bool-cases,
  List, [], ◌∷◌, ◌++◌, ◌==◌, Str, length, contains, contains-append, arith, str_eq_iff, str_neq,
  nat_eq, list_eq,
}
use mathlib.Core.Path.{fun_ext}
use cpo.Maps.{AllOnce}
use cpo.Keystone.Controller.{max_retries}

module _ (count : Str → ℕ) where
  -- How often the keys can still be taken up, with these numbers of failures.
  abbrev pub budget : List Str → ℕ
  budget [] = 0
  budget (k ∷ ks) = suc (max_retries - count k) + budget ks

  pub budget-append : (ks js : List Str) → budget (ks ++ js) ≡ budget ks + budget js
  budget-append [] js = omega arith
  budget-append (k ∷ ks) js = omega (arith, budget-append ks js)

  pub budget-le : (ks : List Str) → budget ks ≤ 6 * length ks
  budget-le [] = omega arith
  budget-le (k ∷ ks) = omega (arith, budget-le ks)

-- Only the numbers of the keys in the list count.
pub budget-same :
    (f g : Str → ℕ) (j : Str) (ks : List Str)
    → contains ks j ≡ false
    → ((k : Str) → k ≢ j → g k ≡ f k)
    → budget g ks ≡ budget f ks
budget-same f g j [] h same = refl
budget-same f g j (k ∷ ks) h same = elim (Bool-cases (k == j)) [
  | inl e ↦ (let c : true ≡ false = rw e at h in cc)
  | inr e ↦
      let c : contains ks j ≡ false = rw e at h in
      ap (λ n. suc (max_retries - n) + budget g ks) (same k (str_neq k j e))
      ∙ ap (λ n. suc (max_retries - f k) + n) (budget-same f g j ks c same)
]

pub budget-eq :
    (f g : Str → ℕ) (ks : List Str) → ((k : Str) → g k ≡ f k) → budget g ks ≡ budget f ks
budget-eq f g ks same = ap (λ h. budget h ks) (fun_ext same)

-- A key that stands once in a list is not in the rest.
pub once-rest :
    (ks : List Str) (k : Str) (js : List Str)
    → AllOnce (ks ++ k ∷ js)
    → contains (ks ++ js) k ≡ false
once-rest [] k js (h, _) = h
once-rest (x ∷ ks) k js (h, o) = elim (Bool-cases (x == k)) [
  | inl e ↦
      let back : (k == x) ≡ true = (str_eq_iff k x).1 (sym ((str_eq_iff x k).0 e)) in
      let there : (contains ks x || (k == x || contains js x)) ≡ true = ground arith in
      let c : contains (ks ++ k ∷ js) x ≡ true = contains-append ks (k ∷ js) x ∙ there in cc
  | inr e ↦ rw e (once-rest ks k js o)
]
