-- ===== src/Validator/Relations.antt =====
-- dependsexpr.go and precludesexpr.go: fields that need or forbid other fields. `none` is a panic.
use cpo.Base.{
  ℕ, zero, suc, ◌==◌, Bool, true, false, not, Option, none, some, List, [], ◌∷◌, if◌then◌else◌, Str,
  get_elem?, nat_eq, list_eq,
}
use cpo.Strings.{split}
use cpo.Maps.{Map, get}
use cpo.Validator.Fields.{Field, ByIndex}

-- The indices of the named fields.
unfoldable pub find_indices : Map ℕ → List Str → Option (List ℕ)
find_indices by_name [] = some []
find_indices by_name (name ∷ names) = elim (get by_name name) [
  | none ↦ none
  | some i ↦ elim (find_indices by_name names) [ none ↦ none | some is ↦ some (i ∷ is) ]
]

-- The loop over the groups.
unfoldable pub parse_groups : Map ℕ → List Str → Option (List (List ℕ))
unfolding find_indices
parse_groups by_name [] = some []
parse_groups by_name (group ∷ groups) = elim (find_indices by_name (split group b'|')) [
  | none ↦ none
  | some is ↦ elim (parse_groups by_name groups) [ none ↦ none | some l ↦ some (is ∷ l) ]
]

unfoldable pub parse_deps_expr : Str → Map ℕ → Option (List (List ℕ))
unfolding parse_groups
parse_deps_expr deps by_name = parse_groups by_name (split deps b',')

-- The loop from the field `i` on.
unfoldable pub build_dependencies_map : ℕ → Map ℕ → List Field → Option (ByIndex (List (List ℕ)))
unfolding parse_deps_expr
build_dependencies_map i by_name [] = some []
build_dependencies_map i by_name (ft ∷ fields) =
    let rest = build_dependencies_map (suc i) by_name fields in
    elim ft.depends_tag [
      | none ↦ rest
      | some deps ↦ elim (parse_deps_expr deps by_name) [
        | none ↦ none
        | some expr ↦ elim rest [ none ↦ none | some m ↦ some ((i, expr) ∷ m) ]
      ]
    ]

unfoldable pub parse_precls_expr : Str → Map ℕ → Option (List ℕ)
unfolding find_indices
parse_precls_expr precls by_name = find_indices by_name (split precls b',')

-- The loop from the field `i` on.
unfoldable pub build_preclusions_map : ℕ → Map ℕ → List Field → Option (ByIndex (List ℕ))
unfolding parse_precls_expr
build_preclusions_map i by_name [] = some []
build_preclusions_map i by_name (ft ∷ fields) =
    let rest = build_preclusions_map (suc i) by_name fields in
    elim ft.precludes_tag [
      | none ↦ rest
      | some precls ↦ elim (parse_precls_expr precls by_name) [
        | none ↦ none
        | some expr ↦ elim rest [ none ↦ none | some m ↦ some ((i, expr) ∷ m) ]
      ]
    ]

-- `v.Field(i).String() != ""`, for the fields' values in order; the
-- struct has a field for every index.
abbrev pub is_set : List Str → ℕ → Bool
is_set out i = elim (get_elem? out i) [ none ↦ false | some value ↦ not (value == []) ]

-- The inner loop: `values` counts the fields of the group that are set, and stops at two.
unfoldable pub count_set : List Str → ℕ → List ℕ → ℕ
count_set out values [] = values
count_set out zero (i ∷ group) =
    let one = count_set out (suc zero) group in
    let same = count_set out zero group in if is_set out i then one else same
count_set out (suc zero) (i ∷ group) =
    let same = count_set out (suc zero) group in if is_set out i then suc (suc zero) else same
count_set out (suc (suc n)) (i ∷ group) = suc (suc n)

unfoldable pub dependencies_satisfied : List Str → List (List ℕ) → Bool
unfolding count_set
dependencies_satisfied out [] = true
dependencies_satisfied out (group ∷ groups) =
    let rest = dependencies_satisfied out groups in
    if not (count_set out 0 group == 1) then false else rest

unfoldable pub preclusions_satisfied : List Str → List ℕ → Bool
preclusions_satisfied out [] = true
preclusions_satisfied out (i ∷ precls) =
    let rest = preclusions_satisfied out precls in if is_set out i then false else rest
