-- ===== src/Keystone/Authorize.antt =====
-- `Authorize` of pkg/identity/keystone/authorizer.go: the loop over the policy list.
pub mod Whitelist
pub mod Sorted
use cpo.Base.{
  ◌==◌, Bool, true, false, not, ◌||◌, ◌&&◌, Option, none, some, List, [], ◌∷◌, if◌then◌else◌, Str,
  str, ℕ, nat_eq, list_eq,
}
use cpo.Sets.{StringSet, insert_all}
use cpo.Keystone.Policy.{
  Assoc, lookup, Policy, UserInfo, Attributes, Decision, deny, allow, roles_key, project_name,
}
use cpo.Keystone.Allowed.Permissions.{resource_permission_allowed, non_resource_permission_allowed}
use cpo.Keystone.Match.{resource_matches, non_resource_matches}

module _ (S : StringSet) where
  -- The set of the values under a key, empty where the key is missing.
  unfoldable pub values_set : Assoc → Str → S.Set
  unfolding insert_all
  values_set m key = elim (lookup m key) [ none ↦ S.empty | some val ↦ insert_all S S.empty val ]

  -- Whether the policy speaks of this user: every role and project of the policy is the user's.
  unfoldable pub users_match : Option Assoc → UserInfo → Bool
  users_match none user = true
  users_match (some users) user = not (
      not (S.is_superset (values_set user.extra roles_key) (values_set users (str "roles")))
      || not
          (S.is_superset (values_set user.extra project_name) (values_set users (str "projects"))))

module _ (S : StringSet) (unmarshal : Str → Option (List Str)) where
  -- The body of the loop for a policy that speaks of the user: `none` is a panic.
  unfoldable pub policy_allows : Policy → Attributes → Option Bool
  policy_allows p a =
      if a.resource_request
      then elim p.resource_permissions_spec [
        | some spec ↦ some (resource_permission_allowed S unmarshal spec a)
        | none ↦ elim p.resource_spec [
          | some spec ↦ resource_matches spec p.matches a
          | none ↦ some false
        ]
      ]
      else elim p.non_resource_permissions_spec [
        | some spec ↦ some (non_resource_permission_allowed S spec a)
        | none ↦ elim p.non_resource_spec [
          | some spec ↦ some (non_resource_matches spec p.matches a)
          | none ↦ some false
        ]
      ]

  unfoldable pub authorize : List Policy → Attributes → Option Decision
  authorize [] a = some deny
  authorize (p ∷ pl) a =
      let rest = authorize pl a in
      if users_match S p.users a.user
      then elim (policy_allows p a) [ none ↦ none | some true ↦ some allow | some false ↦ rest ]
      else rest
