-- ===== src/Validator/Scenarios.antt =====
-- The struct of a test of the validator: the theorem at concrete inputs, and tests.
use cpo.Base.{
  ◌≡◌, refl, ◌⊎◌, ◌==◌, true, false, none, some, List, [], ◌∷◌, Str, str, nat_eq, list_eq,
}
use cpo.Exec.{ok}
use cpo.Maps.{Map}
use cpo.Validator.Fields.{
  Field, Regexps, build_name_idx_map, build_match_regex_map, value_satisfies_pattern, split_one,
}
use cpo.Validator.Values.{
  build_value_expressions, parse_value_expr, add_expression, requires_value,
  resolve_conditional_req, check_value_expr, parse_cond_value_expr,
}
use cpo.Validator.Relations.{
  build_dependencies_map, parse_deps_expr, parse_groups, find_indices, build_preclusions_map,
  parse_precls_expr, count_set, dependencies_satisfied, preclusions_satisfied,
}
use cpo.Validator.Populate.{
  Validator, new_validator, fill_defaults, populate_values, check_deps, check_precls,
  check_patterns, populate,
}
use cpo.Validator.Accepts.{is_ok, written}
use cpo.Validator.Accepted.{accepts, populate-accepts}

-- Patterns that match their own text.
abbrev literal : Regexps
literal = record { Rx = Str; compile = some; match_string = λ rx s. rx == s }

abbrev field : Str → Field
field name = record {
  name_tag = some name;
  value_tag = some (str "optional");
  depends_tag = none;
  precludes_tag = none;
  matches_tag = none;
}

-- The fields a, b and c, and d with `dependsOn:"a|b,c"` and a default.
abbrev fields : List Field
fields =
    field (str "a")
    ∷ field (str "b")
    ∷ field (str "c")
    ∷ (record (field (str "d")) {
      value_tag = some (str "default:x");
      depends_tag = some (str "a|b,c");
    })
    ∷ []

abbrev validator : Validator literal
validator = record {
  by_name = (str "a", 0) ∷ (str "b", 1) ∷ (str "c", 2) ∷ (str "d", 3) ∷ [];
  names = (0, str "a") ∷ (1, str "b") ∷ (2, str "c") ∷ (3, str "d") ∷ [];
  value_exprs = record {
    required_map = (0, false) ∷ (1, false) ∷ (2, false) ∷ [];
    cond_required = [];
    cond_optional = [];
    default_val = (3, str "x") ∷ [];
  };
  deps = (3, (0 ∷ 1 ∷ []) ∷ (2 ∷ []) ∷ []) ∷ [];
  precls = [];
  patterns = [];
}

builds : new_validator literal fields ≡ some validator
unfolding new_validator build_name_idx_map build_value_expressions parse_value_expr add_expression
    check_value_expr parse_cond_value_expr split_one build_dependencies_map parse_deps_expr
    parse_groups find_indices build_preclusions_map parse_precls_expr build_match_regex_map
builds = refl

abbrev empty_struct : List Str
empty_struct = [] ∷ [] ∷ [] ∷ [] ∷ []

abbrev a_and_c : Map Str
a_and_c = (str "a", str "1") ∷ (str "c", str "2") ∷ []

abbrev all_three : Map Str
all_three = (str "b", str "3") ∷ a_and_c

populates :
    populate literal validator a_and_c empty_struct ≡ (ok tt, str "1" ∷ [] ∷ str "2" ∷ str "x" ∷ [])
unfolding populate fill_defaults populate_values requires_value resolve_conditional_req check_deps
    check_precls check_patterns count_set dependencies_satisfied preclusions_satisfied
    value_satisfies_pattern
populates = refl

refuses_two_of_a_group : is_ok (populate literal validator all_three empty_struct).0 ≡ false
unfolding populate fill_defaults populate_values requires_value resolve_conditional_req check_deps
    check_precls check_patterns count_set dependencies_satisfied preclusions_satisfied
    value_satisfies_pattern
refuses_two_of_a_group = refl

populate-accepts_example :
    let filled = fill_defaults literal validator.names validator.value_exprs.default_val a_and_c in
    ((accepts literal validator filled empty_struct ≡ true)
      × (populate literal validator a_and_c empty_struct
          ≡ (ok tt, written literal filled validator.names empty_struct)))
    ⊎ ((accepts literal validator filled empty_struct ≡ false)
        × (is_ok (populate literal validator a_and_c empty_struct).0 ≡ false))
populate-accepts_example = populate-accepts literal validator a_and_c empty_struct
