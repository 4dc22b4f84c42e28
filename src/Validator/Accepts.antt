-- ===== src/Validator/Accepts.antt =====
-- Each loop of `Populate`, as a condition on the values.
use cpo.Base.{
  ℕ, suc, ◌≡◌, refl, ◌==◌, Bool, true, false, not, ◌||◌, none, some, List, [], ◌∷◌, if◌then◌else◌,
  Str, get_elem?, set, all, any, arith, Bool-cases, Option-cases, inl, inr, nat_eq, list_eq,
}
use cpo.Exec.{Result, ok, err}
use cpo.Maps.{Map, get}
use cpo.Validator.Fields.{Regexps, ByIndex, value_satisfies_pattern}
use cpo.Validator.Values.{ValueExpressions, requires_value}
use cpo.Validator.Relations.{is_set, count_set, dependencies_satisfied, preclusions_satisfied}
use cpo.Validator.Populate.{Refusal, populate_values, check_deps, check_precls, check_patterns}

abbrev pub is_ok : {A : Type 0} → Result Refusal A → Bool
is_ok (ok _) = true
is_ok (err _) = false

-- How many fields of a group are set.
abbrev pub amount_set : List Str → List ℕ → ℕ
amount_set out [] = 0
amount_set out (i ∷ group) =
    let rest = amount_set out group in if is_set out i then suc rest else rest

count_set-one :
    (out : List Str) (group : List ℕ) → (count_set out 1 group == 1) ≡ (amount_set out group == 0)
unfolding count_set
count_set-one out [] = refl
count_set-one out (i ∷ group) = ground (arith, count_set-one out group)

count_set-none :
    (out : List Str) (group : List ℕ) → (count_set out 0 group == 1) ≡ (amount_set out group == 1)
unfolding count_set
count_set-none out [] = refl
count_set-none out (i ∷ group) = ground (arith, count_set-one out group, count_set-none out group)

abbrev pub has_one : List Str → List ℕ → Bool
has_one out group = amount_set out group == 1

dependencies_satisfied-all :
    (out : List Str) (groups : List (List ℕ))
    → dependencies_satisfied out groups ≡ all (has_one out) groups
unfolding dependencies_satisfied
dependencies_satisfied-all out [] = refl
dependencies_satisfied-all out (group ∷ groups) =
    ground (arith, count_set-none out group, dependencies_satisfied-all out groups)

preclusions_satisfied-any :
    (out : List Str) (fields : List ℕ)
    → preclusions_satisfied out fields ≡ not (any (is_set out) fields)
unfolding preclusions_satisfied
preclusions_satisfied-any out [] = refl
preclusions_satisfied-any out (i ∷ fields) = ground (arith, preclusions_satisfied-any out fields)

-- A field that is set has exactly one field of each of its groups set beside it.
abbrev pub deps_met : List Str → ℕ × List (List ℕ) → Bool
deps_met out (i, groups) = not (is_set out i) || all (has_one out) groups

-- A field that is set has none of the fields set that it precludes.
abbrev pub precls_met : List Str → ℕ × List ℕ → Bool
precls_met out (i, fields) = not (is_set out i) || not (any (is_set out) fields)

module _ (R : Regexps) where
  -- A field that is set matches its pattern.
  abbrev pub pattern_met : List Str → ℕ × R.Rx → Bool
  pattern_met out (i, rx) = elim (get_elem? out i) [
    | none ↦ true
    | some value ↦ value == [] || R.match_string rx value
  ]

  -- A value that is given is not empty, and a value that is missing is not required.
  abbrev pub value_met : ValueExpressions R → Map Str → ℕ × Str → Bool
  value_met ve given (i, name) = elim (get given name) [
    | some value ↦ not (value == [])
    | none ↦ not (requires_value R i ve given)
  ]

  -- The struct with the given values.
  abbrev pub written : Map Str → ByIndex Str → List Str → List Str
  written given [] out = out
  written given ((i, name) ∷ names) out = elim (get given name) [
    | none ↦ written given names out
    | some value ↦ written given names (set out i value)
  ]

  pub check_deps-all :
      (out : List Str) (deps : ByIndex (List (List ℕ)))
      → is_ok (check_deps R out deps) ≡ all (deps_met out) deps
  unfolding check_deps
  check_deps-all out [] = refl
  check_deps-all out ((i, groups) ∷ deps) =
      ground (arith, dependencies_satisfied-all out groups, check_deps-all out deps)

  pub check_precls-all :
      (out : List Str) (precls : ByIndex (List ℕ))
      → is_ok (check_precls R out precls) ≡ all (precls_met out) precls
  unfolding check_precls
  check_precls-all out [] = refl
  check_precls-all out ((i, fields) ∷ precls) =
      ground (arith, preclusions_satisfied-any out fields, check_precls-all out precls)

  pub check_patterns-all :
      (out : List Str) (patterns : ByIndex R.Rx)
      → is_ok (check_patterns R out patterns) ≡ all (pattern_met out) patterns
  unfolding check_patterns value_satisfies_pattern
  check_patterns-all out [] = refl
  check_patterns-all out ((i, rx) ∷ patterns) = ground (arith, check_patterns-all out patterns)

  module _ (ve : ValueExpressions R) (given : Map Str) where
    pub populate_values-all :
        (names : ByIndex Str) (out : List Str)
        → is_ok (populate_values R ve given names out).0 ≡ all (value_met ve given) names
    unfolding populate_values
    populate_values-all [] out = refl
    populate_values-all ((i, name) ∷ names) out = elim (Option-cases (get given name)) [
      | inl e ↦ rw (e, populate_values, value_met) (ground (arith, populate_values-all names out))
      | inr ([], e) ↦ rw (e, populate_values, value_met) refl
      | inr (c ∷ value, e) ↦
          rw (e, populate_values, value_met) (populate_values-all names (set out i (c ∷ value)))
    ]

    pub populate_values-written :
        (names : ByIndex Str) (out : List Str)
        → is_ok (populate_values R ve given names out).0 ≡ true
        → (populate_values R ve given names out).1 ≡ written given names out
    unfolding populate_values
    populate_values-written [] out h = refl
    populate_values-written ((i, name) ∷ names) out h = elim (Option-cases (get given name)) [
      | inl e ↦
          let k = rw (e, populate_values) at h in
          elim (Bool-cases (requires_value R i ve given)) [
            | inl f ↦ (let l : false ≡ true = rw f at k in cc)
            | inr f ↦
                let l : is_ok (populate_values R ve given names out).0 ≡ true = rw f at k in
                rw (e, populate_values, written) (rw f (populate_values-written names out l))
          ]
      | inr ([], e) ↦ (let k : false ≡ true = rw (e, populate_values) at h in cc)
      | inr (c ∷ value, e) ↦
          let k : is_ok (populate_values R ve given names (set out i (c ∷ value))).0 ≡ true =
            rw (e, populate_values) at h in
          rw (e, populate_values, written) (populate_values-written names (set out i (c ∷ value)) k)
    ]
