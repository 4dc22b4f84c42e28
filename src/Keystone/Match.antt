-- ===== src/Keystone/Match.antt =====
-- `match`, `resourceMatches` and `nonResourceMatches` of pkg/identity/keystone/authorizer.go.
-- `find_string` sorts the policy's lists in place; its answer is the same on the sorted list
-- (`Keystone.Find`), so the lists are read here as they stand in the policy.
pub mod Meaning
use cpo.Base.{
  ℕ, ◌==◌, Bool, true, false, not, ◌&&◌, ◌||◌, Option, none, some, List, [], ◌∷◌, if◌then◌else◌,
  Str, str, nat_eq, list_eq,
}
use cpo.Keystone.Find.{find_string}
use cpo.Keystone.Policy.{
  lookup, PolicyMatch, ResourcePolicySpec, NonResourcePolicySpec, Policy, UserInfo, Attributes,
  type_user, type_group, type_project, type_role, project_id, project_name, roles_key, star,
}

-- `findString(a, list)`, its answer alone.
abbrev pub in_list : Str → List Str → Bool
in_list a list = (find_string a list).0

-- `for _, item := range val { if findString(item, m.Values) { find = true; break } }`
unfoldable pub find_any : List Str → List Str → Bool
find_any [] values = false
find_any (item ∷ val) values = if in_list item values then true else find_any val values

-- The same over `user.GetExtra()[key]`; a missing key finds nothing.
unfoldable pub find_extra : UserInfo → Str → List Str → Bool
unfolding find_any
find_extra user key values = elim (lookup user.extra key) [
  | none ↦ false
  | some val ↦ find_any val values
]

-- The branches on `m.Type`, whose other values are refused before.
unfoldable pub match_kind : PolicyMatch → UserInfo → Bool
unfolding find_any find_extra
match_kind m user =
    if m.kind == type_group
    then find_any user.groups m.values
    else if m.kind == type_user
    then in_list user.name m.values || in_list user.uid m.values
    else if m.kind == type_project
    then find_extra user project_id m.values || find_extra user project_name m.values
    else if m.kind == type_role
    then find_extra user roles_key m.values
    else true

abbrev pub types : List Str
types = type_group ∷ type_project ∷ type_role ∷ type_user ∷ []

unfoldable pub match_all : List PolicyMatch → UserInfo → Bool
match_all [] user = true
match_all (m ∷ ms) user =
    let rest = match_all ms user in
    if not (in_list m.kind types)
    then false
    else if in_list star m.values
    then rest
    else if match_kind m user
    then rest
    else false

-- `*p != "*" && *p != value`, the test that refuses; a nil pointer panics.
unfoldable pub differs : Option Str → Str → Option Bool
differs none value = none
differs (some p) value = some (not (p == star) && not (p == value))

-- `!findString("*", list) && !findString(value, list)`
abbrev pub not_listed : List Str → Str → Bool
not_listed list value = not (in_list star list) && not (in_list value list)

-- `none` is a panic. The log line at the end has no effect.
unfoldable pub resource_matches : ResourcePolicySpec → List PolicyMatch → Attributes → Option Bool
unfolding differs
resource_matches spec ms a = elim (differs spec.api_group a.api_group) [
  | none ↦ none
  | some true ↦ some false
  | some false ↦ elim (differs spec.namespace a.namespace) [
    | none ↦ none
    | some true ↦ some false
    | some false ↦
        if not_listed spec.resources a.resource
        then some false
        else if not_listed spec.verbs a.verb
        then some false
        else some (match_all ms a.user)
  ]
]

-- Here the nil path is tested, so there is no panic.
unfoldable pub non_resource_matches : NonResourcePolicySpec → List PolicyMatch → Attributes → Bool
non_resource_matches spec ms a =
    if in_list [] spec.verbs then false else elim spec.non_resource_path [
      | none ↦ false
      | some path ↦
          if not_listed spec.verbs a.verb
          then false
          else if not (path == star) && not (path == a.path)
          then false
          else match_all ms a.user
    ]
