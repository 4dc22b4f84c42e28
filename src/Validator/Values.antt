-- ===== src/Validator/Values.antt =====
-- valueexpr.go: whether a field needs a value, and its default. `none` is a panic.
use cpo.Base.{
  ℕ, suc, ◌==◌, Bool, true, false, not, ◌&&◌, Option, none, some, List, [], ◌∷◌, if◌then◌else◌, Str,
  str, length, take, drop, ltb, nat_eq, list_eq,
}
use cpo.Maps.{Map, get, has_key}
use cpo.Validator.Fields.{Field, Regexps, ByIndex, at_index, name_at, split_one}

-- `valueExpression`, whose type decides which of its fields are set.
pub data ValueExpression : Type 0 where
  optional required : ValueExpression
  default_to : Str → ValueExpression
  required_if optional_if : Str → Str → ValueExpression

unfoldable pub check_value_expr : Str → Str → Bool
check_value_expr value tag = ltb (length tag) (length value) && take (length tag) value == tag

-- The field and the pattern of a condition.
unfoldable pub parse_cond_value_expr : Str → Str → Map ℕ → Str → Option (Str × Str)
unfolding split_one
parse_cond_value_expr value tag by_name f_name = elim (split_one (drop (length tag) value) b'=') [
  | none ↦ none
  | some (target, pattern) ↦
      if target == f_name
      then none
      else if has_key by_name target
      then some (target, pattern)
      else none
]

abbrev pub tag_default : Str
tag_default = str "default:"

abbrev pub tag_required_if : Str
tag_required_if = str "requiredIf:"

abbrev pub tag_optional_if : Str
tag_optional_if = str "optionalIf:"

unfoldable pub parse_value_expr : Str → Str → Map ℕ → Option ValueExpression
unfolding check_value_expr parse_cond_value_expr
parse_value_expr value f_name by_name =
    if value == str "optional"
    then some optional
    else if value == str "required"
    then some required
    else if check_value_expr value tag_default
    then some (default_to (drop (length tag_default) value))
    else if check_value_expr value tag_required_if
    then elim (parse_cond_value_expr value tag_required_if by_name f_name) [
      | none ↦ none
      | some (name, arg) ↦ some (required_if name arg)
    ]
    else if check_value_expr value tag_optional_if
    then elim (parse_cond_value_expr value tag_optional_if by_name f_name) [
      | none ↦ none
      | some (name, arg) ↦ some (optional_if name arg)
    ]
    else none

module _ (R : Regexps) where
  pub record Condition : Type 0 where
    pub rx : R.Rx
    pub cond_field : Str

  pub record ValueExpressions : Type 0 where
    pub required_map : ByIndex Bool
    pub cond_required : ByIndex Condition
    pub cond_optional : ByIndex Condition
    pub default_val : ByIndex Str

module _ (R : Regexps) where
  abbrev pub new_value_expressions : ValueExpressions R
  new_value_expressions = record {
    required_map = [];
    cond_required = [];
    cond_optional = [];
    default_val = [];
  }

  -- The `switch` on the type of the expression of the field `i`.
  unfoldable pub add_expression :
      ℕ → ValueExpression → ValueExpressions R → Option (ValueExpressions R)
  add_expression i optional vs = some (record vs { required_map = (i, false) ∷ vs.required_map })
  add_expression i required vs = some (record vs { required_map = (i, true) ∷ vs.required_map })
  add_expression i (default_to arg) vs =
      some (record vs { default_val = (i, arg) ∷ vs.default_val })
  add_expression i (required_if name arg) vs = elim (R.compile arg) [
    | none ↦ none
    | some rx ↦ some (record vs {
      cond_required = (i, record { rx = rx; cond_field = name }) ∷ vs.cond_required;
    })
  ]
  add_expression i (optional_if name arg) vs = elim (R.compile arg) [
    | none ↦ none
    | some rx ↦ some (record vs {
      cond_optional = (i, record { rx = rx; cond_field = name }) ∷ vs.cond_optional;
    })
  ]

  -- The loop from the field `i` on.
  unfoldable pub build_value_expressions :
      ℕ → Map ℕ → ByIndex Str → List Field → Option (ValueExpressions R)
  unfolding parse_value_expr add_expression
  build_value_expressions i by_name names [] = some new_value_expressions
  build_value_expressions i by_name names (ft ∷ fields) =
      let rest = build_value_expressions (suc i) by_name names fields in
      elim ft.value_tag [
        | none ↦ rest
        | some value ↦ elim (parse_value_expr value (name_at names i) by_name) [
          | none ↦ none
          | some expr ↦ elim rest [ none ↦ none | some vs ↦ add_expression i expr vs ]
        ]
      ]

  unfoldable pub resolve_conditional_req : Condition R → Map Str → Bool
  resolve_conditional_req cond given = elim (get given cond.cond_field) [
    | none ↦ false
    | some value ↦ R.match_string cond.rx value
  ]

  unfoldable pub requires_value : ℕ → ValueExpressions R → Map Str → Bool
  unfolding resolve_conditional_req
  requires_value i ve given = elim (at_index ve.required_map i) [
    | some needed ↦ needed
    | none ↦ elim (at_index ve.cond_required i) [
      | some cond ↦ resolve_conditional_req cond given
      | none ↦ elim (at_index ve.cond_optional i) [
        | some cond ↦ not (resolve_conditional_req cond given)
        | none ↦ true
      ]
    ]
  ]
