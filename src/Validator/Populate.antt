-- ===== src/Validator/Populate.antt =====
-- validator.go: `New` and `Populate`.
use cpo.Base.{
  ℕ, ◌==◌, not, Option, none, some, List, [], ◌∷◌, if◌then◌else◌, Str, get_elem?, set, nat_eq,
  list_eq,
}
use cpo.Exec.{Result, ok, err, Exec, ◌>>◌}
use cpo.Maps.{Map, put, get, has_key}
use cpo.Validator.Fields.{
  Field, Regexps, ByIndex, name_at, build_name_idx_map, build_match_regex_map,
  value_satisfies_pattern,
}
use cpo.Validator.Values.{ValueExpressions, build_value_expressions, requires_value}
use cpo.Validator.Relations.{
  build_dependencies_map, build_preclusions_map, is_set, dependencies_satisfied,
  preclusions_satisfied,
}

-- The errors of `Populate`, with the index of the field and without the text.
pub data Refusal : Type 0 where
  empty_value missing_value unsatisfied_dependency violated_preclusion pattern_mismatch :
      ℕ → Refusal

module _ (R : Regexps) where
  pub record Validator : Type 0 where
    pub by_name : Map ℕ
    pub names : ByIndex Str
    pub value_exprs : ValueExpressions R
    pub deps : ByIndex (List (List ℕ))
    pub precls : ByIndex (List ℕ)
    pub patterns : ByIndex R.Rx

module _ (R : Regexps) where
  -- `New`: `none` where the tags make it panic.
  unfoldable pub new_validator : List Field → Option (Validator R)
  unfolding build_name_idx_map build_value_expressions build_dependencies_map build_preclusions_map
      build_match_regex_map
  new_validator fields = elim (build_name_idx_map 0 [] fields) [
    | none ↦ none
    | some (by_name, names) ↦ elim (build_value_expressions R 0 by_name names fields) [
      | none ↦ none
      | some exprs ↦ elim (build_dependencies_map 0 by_name fields) [
        | none ↦ none
        | some deps ↦ elim (build_preclusions_map 0 by_name fields) [
          | none ↦ none
          | some precls ↦ elim (build_match_regex_map R 0 fields) [
            | none ↦ none
            | some patterns ↦ some (record {
              by_name = by_name;
              names = names;
              value_exprs = exprs;
              deps = deps;
              precls = precls;
              patterns = patterns;
            })
          ]
        ]
      ]
    ]
  ]

  -- "Initialize unset entries with their default values", in the caller's map. The code visits the fields in the
  -- order of a Go map, which matters only where two fields have one name; here it is the order of the entries.
  unfoldable pub fill_defaults : ByIndex Str → ByIndex Str → Map Str → Map Str
  fill_defaults names [] given = given
  fill_defaults names ((i, value) ∷ defaults) given =
      let name = name_at names i in
      fill_defaults names defaults (if has_key given name then given else put name value given)

  -- "Populate the values": the loop over the fields, which writes to the struct.
  unfoldable pub populate_values :
      ValueExpressions R → Map Str → ByIndex Str → Exec Refusal (List Str) (Unit {0})
  unfolding requires_value
  populate_values ve given [] out = (ok tt, out)
  populate_values ve given ((i, name) ∷ names) out = elim (get given name) [
    | some [] ↦ (err (empty_value i), out)
    | some (c ∷ value) ↦ populate_values ve given names (set out i (c ∷ value))
    | none ↦
        let rest = populate_values ve given names out in
        if requires_value R i ve given then (err (missing_value i), out) else rest
  ]

  unfoldable pub check_deps : List Str → ByIndex (List (List ℕ)) → Result Refusal (Unit {0})
  check_deps out [] = ok tt
  check_deps out ((i, groups) ∷ deps) =
      let rest = check_deps out deps in
      if is_set out i
      then (if dependencies_satisfied out groups then rest else err (unsatisfied_dependency i))
      else rest

  unfoldable pub check_precls : List Str → ByIndex (List ℕ) → Result Refusal (Unit {0})
  check_precls out [] = ok tt
  check_precls out ((i, fields) ∷ precls) =
      let rest = check_precls out precls in
      if is_set out i
      then (if preclusions_satisfied out fields then rest else err (violated_preclusion i))
      else rest

  unfoldable pub check_patterns : List Str → ByIndex R.Rx → Result Refusal (Unit {0})
  check_patterns out [] = ok tt
  check_patterns out ((i, rx) ∷ patterns) =
      let rest = check_patterns out patterns in
      elim (get_elem? out i) [
        | none ↦ rest
        | some value ↦
            if not (value == [])
            then (if value_satisfies_pattern R value rx then rest else err (pattern_mismatch i))
            else rest
      ]

  -- The state is the struct that is populated; the map of the caller gets the defaults.
  unfoldable pub populate : Validator R → Map Str → Exec Refusal (List Str) (Unit {0})
  populate v given = do
    populate_values v.value_exprs (fill_defaults v.names v.value_exprs.default_val given) v.names
    λ out. (check_deps out v.deps, out)
    λ out. (check_precls out v.precls, out)
    λ out. (check_patterns out v.patterns, out)
