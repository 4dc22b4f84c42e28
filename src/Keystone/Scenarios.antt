-- ===== src/Keystone/Scenarios.antt =====
-- Requests against small policies: the theorems at concrete inputs, and tests.
mod Logins
mod Queue
use cpo.Base.{
  ◌≡◌, refl, ◌⊎◌, ◌↔◌, true, false, not, ◌&&◌, Option, none, some, List, [], ◌∷◌, map, Str, str,
  contains, all, arith, nat_eq, list_eq,
}
use mathlib.Core.List.Perm
use cpo.Sets.Listed.{listed}
use cpo.Keystone.Policy.{
  PolicyMatch, ResourcePolicySpec, NonResourcePolicySpec, Policy, UserInfo, Attributes, Assoc,
  allow, deny, star, roles_key, project_name,
}
use cpo.Keystone.Find.{find_string, find_string-contains}
use cpo.Keystone.Allowed.Permissions.{definition_has, resource_permission_allowed}
use cpo.Keystone.Allowed.Syntax.{among, render, grants}
use cpo.Keystone.Allowed.Meaning.{definition_has-render}
use cpo.Keystone.Allowed.AnyOrder.{resource_permission_allowed-perm}
use cpo.Keystone.Match.{resource_matches, non_resource_matches}
use cpo.Keystone.Match.Meaning.{
  admits, admits_one, condition_met, path_admits, resource_matches-admits, resource_matches-panics,
  non_resource_matches-admits,
}
use cpo.Keystone.Authorize.{authorize}
use cpo.Keystone.Authorize.Whitelist.{AreComplete, IsGranted, authorize-decides}
use cpo.Keystone.Webhook.{allowed, read_attributes, authorize_token}
use cpo.Keystone.Webhook.Reviews.{IsExtra, review, seen, read_attributes-review}
use cpo.Keystone.Webhook.Answers.{body, authorize_token-answers}
use cpo.Keystone.Authorize.Sorted.{sort_policy, authorize-sort}

abbrev verbs : List Str
verbs = str "list" ∷ str "get" ∷ []

-- A `json.Unmarshal` for the tests: it reads every text as the same two names.
abbrev two_names : Str → Option (List Str)
two_names _ = some (str "default" ∷ str "dev" ∷ [])

abbrev alice : UserInfo
alice = record {
  name = str "alice";
  uid = str "u1";
  groups = str "p1" ∷ [];
  extra = (roles_key, str "member" ∷ str "admin" ∷ []) ∷ (project_name, str "demo" ∷ []) ∷ [];
}

abbrev get_pods : Attributes
get_pods = record {
  user = alice;
  verb = str "get";
  namespace = str "default";
  api_group = [];
  resource = str "pods";
  path = [];
  resource_request = true;
}

abbrev member_reads : Assoc
member_reads =
    (str "kube-system/*", str "get" ∷ []) ∷ (str "['default', 'dev'] / pods", str "get" ∷ []) ∷ []

abbrev members : Policy
members = record {
  resource_spec = none;
  non_resource_spec = none;
  matches = [];
  resource_permissions_spec = some member_reads;
  non_resource_permissions_spec = none;
  users = some ((str "roles", str "member" ∷ []) ∷ (str "projects", str "demo" ∷ []) ∷ []);
}

abbrev pods_spec : ResourcePolicySpec
pods_spec = record {
  verbs = verbs;
  resources = str "pods" ∷ [];
  api_group = some star;
  namespace = some (str "default");
}

abbrev role_match : List PolicyMatch
role_match = record { kind = str "role"; values = str "reader" ∷ str "admin" ∷ [] } ∷ []

-- The older form, by a match list.
abbrev admins : Policy
admins = record members {
  resource_spec = some pods_spec;
  matches = role_match;
  resource_permissions_spec = none;
  users = none;
}

find_string-contains_example : (find_string (str "get") verbs).0 ≡ contains verbs (str "get")
find_string-contains_example = find_string-contains (str "get") verbs

definition_has-render_example :
    definition_has listed two_names (render (among (str "default" ∷ str "dev" ∷ []))) (str "dev")
    ≡ grants (among (str "default" ∷ str "dev" ∷ [])) (str "dev")
definition_has-render_example =
    definition_has-render listed two_names (among (str "default" ∷ str "dev" ∷ [])) (str "dev")
      (λ e. cc) (refl, refl, refl, refl) ((refl, refl, refl, refl), ((refl, refl, refl, refl), tt))
      refl

abbrev reads_swapped : Assoc
reads_swapped =
    (str "['default', 'dev'] / pods", str "get" ∷ []) ∷ (str "kube-system/*", str "get" ∷ []) ∷ []

resource_permission_allowed-perm_example :
    resource_permission_allowed listed two_names member_reads get_pods
    ≡ resource_permission_allowed listed two_names reads_swapped get_pods
resource_permission_allowed-perm_example =
    resource_permission_allowed-perm listed two_names get_pods member_reads reads_swapped
      (Perm.swap _ _ [])

authorize-sort_example :
    authorize listed two_names (map sort_policy (members ∷ admins ∷ [])) get_pods
    ≡ authorize listed two_names (members ∷ admins ∷ []) get_pods
authorize-sort_example = authorize-sort listed two_names get_pods (members ∷ admins ∷ [])

resource_matches-admits_example :
    resource_matches pods_spec role_match get_pods
    ≡ some (
        admits_one star []
        && (admits_one (str "default") (str "default")
            && (admits pods_spec.resources (str "pods")
                && (admits pods_spec.verbs (str "get") && all (condition_met alice) role_match))))
resource_matches-admits_example =
    resource_matches-admits pods_spec role_match get_pods star (str "default") refl refl

-- A policy without a "version" has no API group.
abbrev no_group : ResourcePolicySpec
no_group = record pods_spec { api_group = none }

no_group_panics : (resource_matches no_group role_match get_pods ≡ none) ↔ (
    (no_group.api_group ≡ none)
    ⊎ ((group : Str) × (no_group.api_group ≡ some group)
        × (admits_one group [] ≡ true)
        × (no_group.namespace ≡ none)))
no_group_panics = resource_matches-panics no_group role_match get_pods

abbrev foo_paths : NonResourcePolicySpec
foo_paths = record { verbs = verbs; non_resource_path = some (str "/foo/*") }

abbrev get_foo : Attributes
get_foo = record get_pods { path = str "/foo/bar"; resource_request = false }

non_resource_matches-admits_example : non_resource_matches foo_paths role_match get_foo ≡ (
    not (contains verbs [])
    && (path_admits (some (str "/foo/*")) (str "/foo/bar")
        && (admits verbs (str "get") && all (condition_met alice) role_match)))
non_resource_matches-admits_example = non_resource_matches-admits foo_paths role_match get_foo

-- "/foo/*" is no wildcard.
foo_is_refused : non_resource_matches foo_paths role_match get_foo ≡ false
foo_is_refused = non_resource_matches-admits_example

complete_policies : AreComplete (admins ∷ members ∷ [])
complete_policies = ((λ spec e. ground arith), ((λ spec e. cc), tt))

authorize-decides_example :
    ((authorize listed two_names (admins ∷ members ∷ []) get_pods ≡ some allow)
      × IsGranted listed two_names get_pods (admins ∷ members ∷ []))
    ⊎ ((authorize listed two_names (admins ∷ members ∷ []) get_pods ≡ some deny)
        × ¬ IsGranted listed two_names get_pods (admins ∷ members ∷ []))
authorize-decides_example =
    authorize-decides listed two_names get_pods (admins ∷ members ∷ []) complete_policies

alice-IsExtra : IsExtra alice.extra
alice-IsExtra = ((λ e. cc), refl, ((λ e. cc), refl, tt))

read_attributes-review_example :
    read_attributes (review get_pods)
    ≡ some (some (record get_pods { user = record alice { uid = [] } }))
read_attributes-review_example = read_attributes-review get_pods alice-IsExtra

authorize_token-answers_example :
    ((authorize_token listed two_names (admins ∷ members ∷ []) (body listed two_names get_pods)
        ≡ some (allowed true))
      × IsGranted listed two_names (seen get_pods) (admins ∷ members ∷ []))
    ⊎ ((authorize_token listed two_names (admins ∷ members ∷ []) (body listed two_names get_pods)
          ≡ some (allowed false))
        × ¬ IsGranted listed two_names (seen get_pods) (admins ∷ members ∷ []))
authorize_token-answers_example =
    authorize_token-answers listed two_names (admins ∷ members ∷ []) get_pods complete_policies
      alice-IsExtra
