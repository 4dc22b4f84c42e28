-- ===== src/Keystone/Match/Meaning.antt =====
-- What the match conditions mean: membership in lists, with no sorting and no early return.
use cpo.Base.{
  ◌≡◌, refl, ◌↔◌, ◌⊎◌, ◌==◌, Bool, true, false, not, ◌&&◌, ◌||◌, Option, none, some, List, [], ◌∷◌,
  if◌then◌else◌, Str, arith, any, all, Option-cases, inl, inr, sym, contains, str_eq_iff, nat_eq,
  list_eq,
}
use mathlib.Core.Path.{subst}
use cpo.Keystone.Find.{find_string-contains}
use cpo.Keystone.Policy.{
  lookup, PolicyMatch, ResourcePolicySpec, NonResourcePolicySpec, UserInfo, Attributes, type_user,
  type_group, type_project, type_role, project_id, project_name, roles_key, star,
}
use cpo.Keystone.Match.{
  find_any, find_extra, match_kind, types, match_all, resource_matches, non_resource_matches,
}

-- The values under a key of the user's extra attributes.
abbrev pub extra_values : UserInfo → Str → List Str
extra_values user key = elim (lookup user.extra key) [ none ↦ [] | some val ↦ val ]

-- Some value of the user stands among the values of the condition.
abbrev pub meets : List Str → PolicyMatch → Bool
meets own m = any (contains m.values) own

-- A condition holds of a user.
abbrev pub holds : UserInfo → PolicyMatch → Bool
holds user m =
    contains m.values star
    || ((m.kind == type_group && meets user.groups m)
        || ((m.kind == type_user && meets (user.name ∷ user.uid ∷ []) m)
            || ((m.kind == type_project
                  && (meets (extra_values user project_id) m
                      || meets (extra_values user project_name) m))
                || (m.kind == type_role && meets (extra_values user roles_key) m))))

find_any-any : (own values : List Str) → find_any own values ≡ any (contains values) own
unfolding find_any
find_any-any [] values = refl
find_any-any (x ∷ own) values =
    ground (arith, find_string-contains x values, find_any-any own values)

find_extra-any :
    (user : UserInfo) (key : Str) (values : List Str)
    → find_extra user key values ≡ any (contains values) (extra_values user key)
unfolding find_extra
find_extra-any user key values = elim (Option-cases (lookup user.extra key)) [
  | inl e ↦ rw (e, find_extra, extra_values)
  | inr (val, e) ↦ rw (e, find_extra, extra_values) (find_any-any val values)
]

abbrev condition : Str → List Str → PolicyMatch
condition k values = record { kind = k; values = values }

known-cases :
    (k : Str)
    → contains types k ≡ true
    → (k ≡ type_group) ⊎ ((k ≡ type_user) ⊎ ((k ≡ type_project) ⊎ (k ≡ type_role)))
known-cases k h = ground (
  arith,
  str_eq_iff type_group k,
  str_eq_iff type_user k,
  str_eq_iff type_project k,
  str_eq_iff type_role k,
)

module _ (user : UserInfo) (values : List Str) where
  abbrev Agrees : Str → Type 0
  Agrees k =
      (contains values star || match_kind (condition k values) user)
      ≡ holds user (condition k values)

  group-Agrees : Agrees type_group
  unfolding match_kind
  group-Agrees = ground (arith, find_any-any user.groups values)

  user-Agrees : Agrees type_user
  unfolding match_kind
  user-Agrees =
      ground (arith, find_string-contains user.name values, find_string-contains user.uid values)

  project-Agrees : Agrees type_project
  unfolding match_kind
  project-Agrees =
      rw (find_extra-any user project_id values, find_extra-any user project_name values)
        (ground arith)

  role-Agrees : Agrees type_role
  unfolding match_kind
  role-Agrees = rw (find_extra-any user roles_key values) (ground arith)

  known-Agrees : (k : Str) → contains types k ≡ true → Agrees k
  known-Agrees k h = elim (known-cases k h) [
    | inl e ↦ subst Agrees (sym e) group-Agrees
    | inr (inl e) ↦ subst Agrees (sym e) user-Agrees
    | inr (inr (inl e)) ↦ subst Agrees (sym e) project-Agrees
    | inr (inr (inr e)) ↦ subst Agrees (sym e) role-Agrees
  ]

abbrev pub condition_met : UserInfo → PolicyMatch → Bool
condition_met user m = contains types m.kind && holds user m

-- One round of the loop, by its tests alone.
round-eq :
    (known starred met holding rest : Bool)
    → (known ≡ true → (starred || met) ≡ holding)
    → (if not known then false else if starred then rest else if met then rest else false)
      ≡ ((known && holding) && rest)
round-eq known starred met holding rest h = ground arith

-- The match list holds exactly if each condition is of a known type and holds of the user.
pub match_all-all :
    (ms : List PolicyMatch) (user : UserInfo) → match_all ms user ≡ all (condition_met user) ms
unfolding match_all
match_all-all [] user = refl
match_all-all (m ∷ ms) user =
    rw
      (find_string-contains m.kind types, find_string-contains star m.values, match_all-all ms user)
      (round-eq (contains types m.kind) (contains m.values star) (match_kind m user) (holds user m)
        (all (condition_met user) ms) (known-Agrees user m.values m.kind))

-- A list of a specification with "*" admits every value.
abbrev pub admits : List Str → Str → Bool
admits list value = contains list star || contains list value

-- A pattern that is "*" admits every value.
abbrev pub admits_one : Str → Str → Bool
admits_one p value = p == star || p == value

module _ (spec : ResourcePolicySpec) (ms : List PolicyMatch) (a : Attributes) where
  -- With its pointers set, a resource specification matches exactly if the group, the namespace,
  -- the resource and the verb are admitted and every match condition is met.
  pub resource_matches-admits :
      (group ns : Str)
      → spec.api_group ≡ some group
      → spec.namespace ≡ some ns
      → resource_matches spec ms a
        ≡ some (
            admits_one group a.api_group
            && (admits_one ns a.namespace
                && (admits spec.resources a.resource
                    && (admits spec.verbs a.verb && all (condition_met a.user) ms))))
  unfolding resource_matches
  resource_matches-admits group ns eg en = ground (
    arith,
    find_string-contains star spec.resources,
    find_string-contains a.resource spec.resources,
    find_string-contains star spec.verbs,
    find_string-contains a.verb spec.verbs,
    match_all-all ms a.user,
  )

  -- It panics exactly if the group is a nil pointer, or the group is admitted and the namespace is
  -- a nil pointer.
  pub resource_matches-panics : (resource_matches spec ms a ≡ none) ↔ (
      (spec.api_group ≡ none)
      ⊎ ((group : Str) × (spec.api_group ≡ some group)
          × (admits_one group a.api_group ≡ true)
          × (spec.namespace ≡ none)))
  unfolding resource_matches
  resource_matches-panics = (panics, λ h. ground arith)
    where
      panics :
          resource_matches spec ms a ≡ none
          → (spec.api_group ≡ none)
            ⊎ ((group : Str) × (spec.api_group ≡ some group)
                × (admits_one group a.api_group ≡ true)
                × (spec.namespace ≡ none))
      panics h = elim (Option-cases spec.api_group) [
        | inl e ↦ inl e
        | inr (g, e) ↦ inr (g, e, ground arith, ground arith)
      ]

-- A path that is not set admits nothing; "*" admits every path, and any other text only itself.
abbrev pub path_admits : Option Str → Str → Bool
path_admits none path = false
path_admits (some p) path = admits_one p path

module _ (spec : NonResourcePolicySpec) (ms : List PolicyMatch) (a : Attributes) where
  -- A non-resource specification matches exactly if its verbs do not list the empty text, its path
  -- is set and is "*" or the request's path, its verbs list "*" or the request's verb, and every
  -- match condition is met.
  pub non_resource_matches-admits : non_resource_matches spec ms a ≡ (
      not (contains spec.verbs [])
      && (path_admits spec.non_resource_path a.path
          && (admits spec.verbs a.verb && all (condition_met a.user) ms)))
  unfolding non_resource_matches
  non_resource_matches-admits = ground (
    arith,
    find_string-contains [] spec.verbs,
    find_string-contains star spec.verbs,
    find_string-contains a.verb spec.verbs,
    match_all-all ms a.user,
  )
